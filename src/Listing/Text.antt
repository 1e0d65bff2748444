-- ===== src/Listing/Text.antt =====
-- What the listing code uses of `str` and `char`, on bytes: the separators are ASCII.
use node_serialport_rs.Prelude.{
  ℕ, ◌+◌, ◌-◌, ◌≡◌, refl, ◌==◌, leb, ◌&&◌, ◌||◌, if◌then◌else◌, Bool, true, false, Option, none,
  some, List, [], ◌∷◌, ◌++◌, arith,
}

-- `?` on an `Option`
infixl 5 ◌>>=◌
abbrev pub ◌>>=◌ {ℓ κ} : {A : Type ℓ} {B : Type κ} → Option A → (A → Option B) → Option B
none >>= f = none
some a >>= f = f a

abbrev pub before : ℕ → Option (List ℕ × List ℕ) → Option (List ℕ × List ℕ)
before c none = none
before c (some (a, b)) = some (c ∷ a, b)

unfoldable pub split_once : ℕ → List ℕ → Option (List ℕ × List ℕ)
split_once sep [] = none
split_once sep (c ∷ cs) = if c == sep then some ([], cs) else before c (split_once sep cs)

unfoldable pub contains : ℕ → List ℕ → Bool
contains sep [] = false
contains sep (c ∷ cs) = c == sep || contains sep cs

abbrev pub is_field_end : ℕ → Bool
is_field_end c = c == b'&' || c == b'+'

abbrev pub onto_first : ℕ → List (List ℕ) → List (List ℕ)
onto_first c [] = (c ∷ []) ∷ []
onto_first c (f ∷ fs) = (c ∷ f) ∷ fs

-- `split(['&', '+'])`
unfoldable pub split_fields : List ℕ → List (List ℕ)
split_fields [] = [] ∷ []
split_fields (c ∷ cs) =
    let fs = split_fields cs in if is_field_end c then [] ∷ fs else onto_first c fs

abbrev pub strip_prefix : List ℕ → List ℕ → Option (List ℕ)
strip_prefix [] s = some s
strip_prefix (p ∷ ps) [] = none
strip_prefix (p ∷ ps) (c ∷ cs) = let rest = strip_prefix ps cs in if c == p then rest else none

abbrev pub starts_with : List ℕ → List ℕ → Bool
starts_with [] s = true
starts_with (p ∷ ps) [] = false
starts_with (p ∷ ps) (c ∷ cs) = c == p && starts_with ps cs

abbrev pub kept_first : ℕ → Option (List ℕ) → Option (List ℕ)
kept_first c none = none
kept_first c (some cs) = some (c ∷ cs)

-- `strip_suffix` of one character
unfoldable pub strip_last : ℕ → List ℕ → Option (List ℕ)
strip_last l [] = none
strip_last l (c ∷ []) = if c == l then some [] else none
strip_last l (c ∷ d ∷ cs) = kept_first c (strip_last l (d ∷ cs))

abbrev pub is_between : ℕ → ℕ → ℕ → Bool
is_between lo hi c = leb lo c && leb c hi

abbrev pub is_hexdigit : ℕ → Bool
is_hexdigit c = is_between b'0' b'9' c || (is_between b'a' b'f' c || is_between b'A' b'F' c)

abbrev pub to_upper : ℕ → ℕ
to_upper c = if is_between b'a' b'z' c then c - 32 else c

abbrev pub to_lower : ℕ → ℕ
to_lower c = if is_between b'A' b'Z' c then c + 32 else c

-- `make_ascii_uppercase`
abbrev pub uppercase : List ℕ → List ℕ
uppercase [] = []
uppercase (c ∷ cs) = to_upper c ∷ uppercase cs

abbrev pub eq_ignore_case : List ℕ → List ℕ → Bool
eq_ignore_case [] [] = true
eq_ignore_case [] (d ∷ ds) = false
eq_ignore_case (c ∷ cs) [] = false
eq_ignore_case (c ∷ cs) (d ∷ ds) = to_lower c == to_lower d && eq_ignore_case cs ds

abbrev pub all_hex : List ℕ → Bool
all_hex [] = true
all_hex (c ∷ cs) = is_hexdigit c && all_hex cs

-- Text without the separator is passed over whole.
pub split_once-append :
    (sep : ℕ) (a b : List ℕ)
    → contains sep a ≡ false
    → split_once sep (a ++ (sep ∷ b)) ≡ some (a, b)
unfolding split_once contains
split_once-append sep [] b h = ground arith
split_once-append sep (c ∷ a) b h = ground (arith, split_once-append sep a b)

pub uppercase_idem : (s : List ℕ) → uppercase (uppercase s) ≡ uppercase s
uppercase_idem [] = refl
uppercase_idem (c ∷ s) = ground (arith, uppercase_idem s)

pub eq_ignore_case_self : (s : List ℕ) → eq_ignore_case s s ≡ true
eq_ignore_case_self [] = refl
eq_ignore_case_self (c ∷ s) = ground (arith, eq_ignore_case_self s)

pub strip_prefix-append : (p s : List ℕ) → strip_prefix p (p ++ s) ≡ some s
strip_prefix-append [] s = refl
strip_prefix-append (c ∷ p) s = ground (arith, strip_prefix-append p s)
