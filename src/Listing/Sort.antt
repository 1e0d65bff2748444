-- ===== src/Listing/Sort.antt =====
-- What the listing uses of the standard library's sorting: `sort_by` and `sort_by_key` are stable
-- sorts, and texts compare byte by byte.
use mathlib.Core.List.{Perm}
use mathlib.Core.List.Perm
use node_serialport_rs.Prelude.{
  ℕ, ◌≡◌, refl, ltb, ◌==◌, if◌then◌else◌, if_cases, Bool, true, false, List, [], ◌∷◌, All, arith,
}

-- `a <= b`
abbrev pub text_le : List ℕ → List ℕ → Bool
text_le [] b = true
text_le (x ∷ a) [] = false
text_le (x ∷ a) (y ∷ b) =
    let rest = text_le a b in if ltb x y then true else if x == y then rest else false

pub text_le_total : (a b : List ℕ) → text_le a b ≡ false → text_le b a ≡ true
text_le_total [] b h = absurd (ground arith)
text_le_total (x ∷ a) [] h = refl
text_le_total (x ∷ a) (y ∷ b) h = ground (arith, text_le_total a b)

pub text_le_trans : (a b c : List ℕ) → text_le a b ≡ true → text_le b c ≡ true → text_le a c ≡ true
text_le_trans [] b c h k = refl
text_le_trans (x ∷ a) [] c h k = absurd (ground arith)
text_le_trans (x ∷ a) (y ∷ b) [] h k = absurd (ground arith)
text_le_trans (x ∷ a) (y ∷ b) (z ∷ c) h k = ground (arith, text_le_trans a b c)

module _ {A : Type 0} (key : A → List ℕ) where
  unfoldable pub insert : A → List A → List A
  insert a [] = a ∷ []
  insert a (b ∷ bs) =
      let rest = insert a bs in if text_le (key a) (key b) then a ∷ b ∷ bs else b ∷ rest

  unfoldable pub sort_by_key : List A → List A
  unfolding insert
  sort_by_key [] = []
  sort_by_key (a ∷ xs) = insert a (sort_by_key xs)

  -- Nothing of the list comes before `k`.
  abbrev pub FromOn : List ℕ → List A → Type 0
  FromOn k = All (λ (b : A). text_le k (key b) ≡ true)

  abbrev pub Sorted : List A → Type 0
  Sorted [] = Unit {0}
  Sorted (a ∷ xs) = FromOn (key a) xs × Sorted xs

  pub FromOn-trans : (j k : List ℕ) (xs : List A) → text_le j k ≡ true → FromOn k xs → FromOn j xs
  FromOn-trans j k [] h f = tt
  FromOn-trans j k (b ∷ bs) h f = (text_le_trans j k (key b) h f.0, FromOn-trans j k bs h f.1)

  insert-FromOn :
      (k : List ℕ) (a : A) (xs : List A)
      → text_le k (key a) ≡ true
      → FromOn k xs
      → FromOn k (insert a xs)
  unfolding insert
  insert-FromOn k a [] h f = (h, tt)
  insert-FromOn k a (b ∷ bs) h f =
      if_cases (FromOn k) (text_le (key a) (key b)) _ _ (λ e. (h, f))
        (λ e. (f.0, insert-FromOn k a bs h f.1))

  insert-Sorted : (a : A) (xs : List A) → Sorted xs → Sorted (insert a xs)
  unfolding insert
  insert-Sorted a [] s = (tt, tt)
  insert-Sorted a (b ∷ bs) s =
      if_cases Sorted (text_le (key a) (key b)) _ _
        (λ e. ((e, FromOn-trans (key a) (key b) bs e s.0), s))
        (λ e. (
          insert-FromOn (key b) a bs (text_le_total (key a) (key b) e) s.0,
          insert-Sorted a bs s.1,
        ))

  pub sort_by_key-Sorted : (xs : List A) → Sorted (sort_by_key xs)
  unfolding sort_by_key
  sort_by_key-Sorted [] = tt
  sort_by_key-Sorted (a ∷ xs) = insert-Sorted a (sort_by_key xs) (sort_by_key-Sorted xs)

  insert-perm : (a : A) (xs : List A) → Perm (insert a xs) (a ∷ xs)
  unfolding insert
  insert-perm a [] = Perm.rfl
  insert-perm a (b ∷ bs) =
      if_cases (λ ys. Perm ys (a ∷ b ∷ bs)) (text_le (key a) (key b)) _ _ (λ e. Perm.rfl)
        (λ e. Perm.trans (Perm.cons b (insert-perm a bs)) (Perm.swap a b bs))

  pub sort_by_key-perm : (xs : List A) → Perm (sort_by_key xs) xs
  unfolding sort_by_key
  sort_by_key-perm [] = Perm.rfl
  sort_by_key-perm (a ∷ xs) =
      Perm.trans (insert-perm a (sort_by_key xs)) (Perm.cons a (sort_by_key-perm xs))
