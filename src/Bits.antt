-- ===== src/Bits.antt =====
-- The binary digits of what the native `bit_and` and `bit_or` give.
use Prim.Native.Nat.{digits, bit_and-bitwise, bit_or-bitwise}
use native.Mathlib.Nat.{pow-suc}
use node_serialport_rs.Prelude.{
  ℕ, zero, suc, ◌+◌, ◌*◌, ◌/◌, ◌%◌, ◌^◌, ◌≤◌, ◌<◌, ◌≡◌, refl, ap, ◌∙◌, min, max, arith, bit_and,
  bit_or,
}

-- The digit at place `i`, from the lowest.
abbrev pub digit : ℕ → ℕ → ℕ
digit zero n = n % 2
digit (suc i) n = digit i (n / 2)

pub digit_zero : (i : ℕ) → digit i 0 ≡ 0
digit_zero zero = refl
digit_zero (suc i) = digit_zero i

pub digit_bound : (i n : ℕ) → digit i n < 2
digit_bound zero n = omega arith
digit_bound (suc i) n = digit_bound i (n / 2)

-- An operation on digits, with what it makes of the rest of the second number once the first one
-- has run out.
module _ (z : ℕ → ℕ) (f : ℕ → ℕ → ℕ) (small : (x y : ℕ) → x < 2 → y < 2 → f x y < 2)
    (rest : (i b : ℕ) → digit i (z b) ≡ f 0 (digit i b)) where
  done_digit : (i b : ℕ) → digit i (z b) ≡ f (digit i 0) (digit i b)
  done_digit i b = rw digit_zero (rest i b)

  digit-digits : (i n a b : ℕ) → a ≤ n → digit i (digits z f n a b) ≡ f (digit i a) (digit i b)
  digit-digits i zero zero b h = done_digit i b
  digit-digits i zero (suc a) b h = absurd (omega arith)
  digit-digits i (suc n) zero b h = done_digit i b
  digit-digits zero (suc n) (suc a) b h =
      omega (arith, small (suc a % 2) (b % 2) (omega arith) (omega arith))
  digit-digits (suc i) (suc n) (suc a) b h =
      let r = small (suc a % 2) (b % 2) (omega arith) (omega arith) in
      let e : digits z f (suc n) (suc a) b / 2 ≡ digits z f n (suc a / 2) (b / 2) = omega arith in
      rw e (digit-digits i n (suc a / 2) (b / 2) (omega arith))

min_small : (x y : ℕ) → x < 2 → y < 2 → min x y < 2
min_small x y h k = omega arith

max_small : (x y : ℕ) → x < 2 → y < 2 → max x y < 2
max_small x y h k = omega arith

pub digit-bit_and : (i a b : ℕ) → digit i (bit_and a b) ≡ min (digit i a) (digit i b)
digit-bit_and i a b =
    ap (digit i) (bit_and-bitwise a b)
    ∙ digit-digits (λ y. 0) min min_small (λ j c. rw digit_zero (omega arith)) i a a b (omega arith)

pub digit-bit_or : (i a b : ℕ) → digit i (bit_or a b) ≡ max (digit i a) (digit i b)
digit-bit_or i a b =
    ap (digit i) (bit_or-bitwise a b)
    ∙ digit-digits (λ y. y) max max_small (λ j c. omega arith) i a a b (omega arith)

double : (q k : ℕ) → q * 2 ^ suc k ≡ 2 * (q * 2 ^ k)
double q k = omega (arith, ap (λ (t : ℕ). q * t) (pow-suc 2 k))

-- An `or` with a number below the place where the first one begins is a sum.
sum_of_parts :
    (n k q a b : ℕ) → a ≡ q * 2 ^ k → a ≤ n → b < 2 ^ k → digits (λ y. y) max n a b ≡ a + b
sum_of_parts zero k q zero b e h l = omega arith
sum_of_parts zero k q (suc a) b e h l = absurd (omega arith)
sum_of_parts (suc n) k q zero b e h l = omega arith
sum_of_parts (suc n) zero q (suc a) b e h l = omega (
  arith,
  sum_of_parts n zero (suc a / 2) (suc a / 2) (b / 2) (omega arith) (omega arith) (omega arith),
)
sum_of_parts (suc n) (suc k) q (suc a) b e h l = omega (
  arith,
  double q k,
  pow-suc 2 k,
  sum_of_parts n k q (suc a / 2) (b / 2) (omega (arith, double q k)) (omega arith)
      (omega (arith, pow-suc 2 k)),
)

pub bit_or_parts : (k q b : ℕ) → b < 2 ^ k → bit_or (q * 2 ^ k) b ≡ q * 2 ^ k + b
bit_or_parts k q b l =
    bit_or-bitwise (q * 2 ^ k) b ∙ sum_of_parts (q * 2 ^ k) k q (q * 2 ^ k) b refl (omega arith) l
