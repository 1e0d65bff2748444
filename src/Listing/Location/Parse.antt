-- ===== src/Listing/Location/Parse.antt =====
-- Reading the number of a bus in `format_location` of src/platform/macos_list.rs.
use node_serialport_rs.Prelude.{
  ℕ, ◌+◌, ◌*◌, ◌/◌, ◌%◌, ◌≤◌, ◌<◌, ◌≡◌, refl, ap, ◌∙◌, ltb, if◌then◌else◌, if_cases, some, List, [],
  ◌∷◌, arith,
}
use node_serialport_rs.Listing.Location.{with_digit, without_sign, parse_digits, parse_u8}

-- A number below 1000 in decimal, without leading zeroes.
abbrev pub decimal : ℕ → List ℕ
decimal n =
    if ltb n 10
    then (b'0' + n) ∷ []
    else if ltb n 100
    then (b'0' + n / 10) ∷ (b'0' + n % 10) ∷ []
    else (b'0' + n / 100) ∷ (b'0' + n / 10 % 10) ∷ (b'0' + n % 10) ∷ []

digit_step :
    (n d m : ℕ) (cs : List ℕ)
    → d < 10
    → m ≡ 10 * n + d
    → m ≤ 255
    → parse_digits (some n) ((b'0' + d) ∷ cs) ≡ parse_digits (some m) cs
digit_step n d m cs h e l =
    ap (λ o. parse_digits o cs) {x = with_digit n (b'0' + d)} {y = some m} (ground arith)

unsigned :
    (a d : ℕ) (cs : List ℕ)
    → a < 10
    → parse_u8 ((b'0' + a) ∷ d ∷ cs) ≡ parse_digits (some 0) ((b'0' + a) ∷ d ∷ cs)
unfolding parse_u8
unsigned a d cs h =
    ap (parse_digits (some 0)) {x = without_sign ((b'0' + a) ∷ d ∷ cs)} {y = (b'0' + a) ∷ d ∷ cs}
      (ground arith)

parse_one : (a : ℕ) → a < 10 → parse_u8 ((b'0' + a) ∷ []) ≡ some a
unfolding parse_u8
parse_one a h = digit_step 0 a a [] h (omega arith) (omega arith)

parse_two :
    (n a b : ℕ)
    → a < 10
    → b < 10
    → n ≡ 10 * a + b
    → parse_u8 ((b'0' + a) ∷ (b'0' + b) ∷ []) ≡ some n
parse_two n a b h k e =
    unsigned a (b'0' + b) [] h
    ∙ digit_step 0 a a ((b'0' + b) ∷ []) h (omega arith) (omega arith)
    ∙ digit_step a b n [] k e (omega arith)

parse_three :
    (n a b c : ℕ)
    → a < 10
    → b < 10
    → c < 10
    → n ≡ 10 * (10 * a + b) + c
    → n ≤ 255
    → parse_u8 ((b'0' + a) ∷ (b'0' + b) ∷ (b'0' + c) ∷ []) ≡ some n
parse_three n a b c h k l e m =
    unsigned a (b'0' + b) ((b'0' + c) ∷ []) h
    ∙ digit_step 0 a a ((b'0' + b) ∷ (b'0' + c) ∷ []) h (omega arith) (omega arith)
    ∙ digit_step a b (10 * a + b) ((b'0' + c) ∷ []) k refl (omega arith)
    ∙ digit_step (10 * a + b) c n [] l e m

pub parse_u8-decimal : (n : ℕ) → n < 256 → parse_u8 (decimal n) ≡ some n
parse_u8-decimal n h =
    let IsRead : List ℕ → Type 0 = λ s. parse_u8 s ≡ some n in
    if_cases IsRead (ltb n 10) _ _ (λ e. parse_one n (ground arith))
      (λ e.
        if_cases IsRead (ltb n 100) _ _
          (λ k. parse_two n (n / 10) (n % 10) (ground arith) (omega arith) (omega arith))
          (λ k.
            parse_three n (n / 100) (n / 10 % 10) (n % 10) (omega arith) (omega arith) (omega arith)
              (omega arith) (omega arith)))
