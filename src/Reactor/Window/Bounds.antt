-- ===== src/Reactor/Window/Bounds.antt =====
-- The size of the read window of src/reactor.rs stays between 64 bytes and a chunk, and never
-- drops below what the last read returned.
use node_serialport_rs.Prelude.{
  ℕ, zero, suc, ◌*◌, ◌^◌, ◌≤◌, ◌<◌, ◌≡◌, refl, ap, arith, leb, leb→le, Bool-cases, inl, inr,
}
use native.Mathlib.Nat.{pow-suc}
use node_serialport_rs.Control.{chunk_size}
use node_serialport_rs.Reactor.Window.{doubled, next_power_of_two, next_size}

doubled_done : (fuel n p : ℕ) → n ≤ p → doubled fuel n p ≡ p
unfolding doubled
doubled_done zero n p h = refl
doubled_done (suc fuel) n p h = ground (arith, doubled_done fuel n p)

-- What a value that was doubled some times satisfies.
abbrev Doubling : ℕ → ℕ → ℕ → Type 0
Doubling n p d = (k : ℕ) × (d ≡ p * 2 ^ k) × (n ≤ d) × (d < 2 * n)

scale : (p k : ℕ) → p * 2 ^ suc k ≡ p * 2 * 2 ^ k
scale p k = omega (arith, ap (λ (t : ℕ). p * t) (pow-suc 2 k))

Doubling-later : (n p d : ℕ) → Doubling n (p * 2) d → Doubling n p d
Doubling-later n p d (k, e, lo, hi) = (suc k, omega (arith, e, scale p k), lo, hi)

doubled_lem : (fuel n p : ℕ) → n ≤ p * 2 ^ fuel → p < 2 * n → Doubling n p (doubled fuel n p)
unfolding doubled
doubled_lem zero n p h k = (0, omega arith, omega arith, k)
doubled_lem (suc fuel) n p h k = elim (Bool-cases (leb n p)) [
  | inl e ↦ rw (e, doubled_done fuel n p (leb→le n p e)) (0, omega arith, leb→le n p e, k)
  | inr e ↦ rw e (
      Doubling-later n p _
        (doubled_lem fuel n (p * 2) (omega (arith, h, scale p fuel)) (ground arith)))
]

-- For every length that a `usize` can double up to, the result is the least power of two that is
-- not below it.
pub next_power_of_two_lem :
    (n : ℕ)
    → 0 < n
    → n ≤ 2 ^ 63
    → (k : ℕ) × (next_power_of_two n ≡ 2 ^ k)
      × (n ≤ next_power_of_two n)
      × (next_power_of_two n < 2 * n)
unfolding next_power_of_two
next_power_of_two_lem n h k =
    let (j, e, lo, hi) = doubled_lem 63 n 1 (omega arith) (omega arith) in
    (j, omega (arith, e), lo, hi)

-- After any read, the size lies between 64 and a chunk if it did so before, and a read of at most
-- a chunk would fit into it again.
pub next_size_bounds :
    (size capacity n : ℕ)
    → 64 ≤ size
    → size ≤ chunk_size
    → capacity ≤ size
    → n ≤ capacity
    → (64 ≤ next_size size capacity n)
      × (next_size size capacity n ≤ chunk_size)
      × (n ≤ next_size size capacity n)
unfolding next_size
next_size_bounds size capacity zero lo hi c h = ground arith
next_size_bounds size capacity (suc n) lo hi c h =
    let p = next_power_of_two_lem (suc n) (omega arith) (omega arith) in ground (arith, p.2)
