-- ===== src/Cleanup/Sessions.antt =====
-- What the hook of src/lib.rs, `register_cleanup`, and the pruning of its registry do to one control.
use node_serialport_rs.Prelude.{
  ℕ, ◌≡◌, refl, sym, ap, ◌∙◌, ◌==◌, ◌||◌, if◌then◌else◌, Bool, true, false, List, [], ◌∷◌, ◌++◌,
  arith, Bool-cases, inl, inr, ==_iff,
}
use node_serialport_rs.Control.{stop}
use node_serialport_rs.Cleanup.{
  Shared, Registry, Environments, set_at, retained, stopped_shared, stop_all,
}

abbrev pub has : ℕ → List ℕ → Bool
has c [] = false
has c (i ∷ is) = i == c || has c is

pub has-append : (c : ℕ) (is : List ℕ) (i : ℕ) → has c (is ++ (i ∷ [])) ≡ (has c is || i == c)
has-append c [] i = ground arith
has-append c (j ∷ is) i = ground (arith, has-append c is i)

pub set_at-there : {A : Type 0} (f : ℕ → A) (a : A) (i j : ℕ) → (j == i) ≡ true → set_at i a f j ≡ a
set_at-there f a i j h = rw h refl

pub set_at-elsewhere :
    {A : Type 0} (f : ℕ → A) (a : A) (i j : ℕ) → (j == i) ≡ false → set_at i a f j ≡ f j
set_at-elsewhere f a i j h = rw h refl

-- A function with the value at one place updated.
pub set_at-updated :
    {A : Type 0} (f : ℕ → A) (g : A → A) (i j : ℕ)
    → set_at i (g (f i)) f j ≡ (if j == i then g (f j) else f j)
set_at-updated f g i j = elim (Bool-cases (j == i)) [
  | inl e ↦ ap (λ k. if j == i then g (f k) else f j) (sym ((==_iff j i).0 e))
  | inr e ↦ rw e refl
]

-- A registry that is usable has the control.
abbrev pub Lists : ℕ → Registry → Type 0
Lists control registry = (registry.poisoned ≡ false) × (has control registry.sessions ≡ true)

module _ {T : Type 0} where
  pub has-retained :
      (controls : ℕ → Shared T) (c : ℕ) (is : List ℕ)
      → (controls c).alive ≡ true
      → has c is ≡ true
      → has c (retained controls is) ≡ true
  has-retained controls c [] a h = h
  has-retained controls c (i ∷ is) a h =
      let same : (i == c) ≡ true → (controls i).alive ≡ true =
        λ e. ap (λ j. (controls j).alive) ((==_iff i c).0 e) ∙ a in
      ground (arith, same, has-retained controls c is a)

  -- A control after a round of the hook's loop.
  pub round_lem :
      (controls : ℕ → Shared T) (i c : ℕ)
      → set_at i (stopped_shared (controls i)) controls c
        ≡ (if c == i then stopped_shared (controls c) else controls c)
  round_lem controls i c = set_at-updated controls stopped_shared i c

  pub round-alive :
      (controls : ℕ → Shared T) (i c : ℕ)
      → (set_at i (stopped_shared (controls i)) controls c).alive ≡ (controls c).alive
  round-alive controls i c = ap (λ (x : Shared T). x.alive) (round_lem controls i c) ∙ ground arith

  pub stop_all-alive :
      (is : List ℕ) (controls : ℕ → Shared T) (c : ℕ)
      → (stop_all is controls c).alive ≡ (controls c).alive
  unfolding stop_all
  stop_all-alive [] controls c = refl
  stop_all-alive (i ∷ is) controls c =
      stop_all-alive is (set_at i (stopped_shared (controls i)) controls) c
      ∙ round-alive controls i c

  pub stop_all-keeps :
      (is : List ℕ) (controls : ℕ → Shared T) (c : ℕ)
      → (controls c).control.stopped ≡ true
      → (stop_all is controls c).control.stopped ≡ true
  unfolding stop_all stop
  stop_all-keeps [] controls c h = h
  stop_all-keeps (i ∷ is) controls c h =
      stop_all-keeps is (set_at i (stopped_shared (controls i)) controls) c
        (ap (λ (x : Shared T). x.control.stopped) (round_lem controls i c) ∙ ground arith)

  pub stop_all-stopped :
      (is : List ℕ) (controls : ℕ → Shared T) (c : ℕ)
      → (controls c).alive ≡ true
      → has c is ≡ true
      → (stop_all is controls c).control.stopped ≡ true
  unfolding stop_all stop
  stop_all-stopped [] controls c a h = absurd (ground arith)
  stop_all-stopped (i ∷ is) controls c a h =
      let next = set_at i (stopped_shared (controls i)) controls in
      elim (Bool-cases (i == c)) [
        | inl e ↦ stop_all-keeps is next c (
            ap (λ (x : Shared T). x.control.stopped) (round_lem controls i c)
            ∙ ground (arith, e, a))
        | inr e ↦ stop_all-stopped is next c (round-alive controls i c ∙ a) (ground (arith, e))
      ]

  abbrev pub with_session : Environments T → ℕ → Registry → Registry
  with_session s c registry = record registry {
    sessions = retained s.controls registry.sessions ++ (c ∷ []);
  }

  pub with_session-Lists :
      (s : Environments T) (control c : ℕ) (registry : Registry)
      → (s.controls control).alive ≡ true
      → Lists control registry
      → Lists control (with_session s c registry)
  with_session-Lists s control c registry a h = (
    h.0,
    has-append control (retained s.controls registry.sessions) c
        ∙ ground (arith, has-retained s.controls control registry.sessions a h.1),
  )
