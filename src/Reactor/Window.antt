-- ===== src/Reactor/Window.antt =====
-- src/reactor.rs: how the read window adapts to what a read returned.
pub mod Bounds
mod Tests
use node_serialport_rs.Prelude.{ℕ, zero, suc, ◌*◌, ◌-◌, ◌==◌, leb, ltb, if◌then◌else◌, min}
use node_serialport_rs.Reactor.{ReadWindow}
use node_serialport_rs.Control.{chunk_size}

-- The least doubling of `p` that is not below `n`, in at most `fuel` doublings.
unfoldable pub doubled : ℕ → ℕ → ℕ → ℕ
doubled zero n p = p
doubled (suc fuel) n p = doubled fuel n (if leb n p then p else p * 2)

-- `usize::next_power_of_two`: the least power of two that is at least `n`, for `n ≤ 2 ^ 63`.
unfoldable pub next_power_of_two : ℕ → ℕ
unfolding doubled
next_power_of_two n = doubled 63 n 1

-- `Ord::clamp`
abbrev pub clamp : ℕ → ℕ → ℕ → ℕ
clamp x lo hi = if ltb x lo then lo else if ltb hi x then hi else x

-- The new `window.size` after a read of `length` bytes into a slice of `capacity` bytes.
unfoldable pub next_size : ℕ → ℕ → ℕ → ℕ
next_size size capacity length =
    if length == capacity
    then min (size * 2) chunk_size
    else clamp (next_power_of_two length) 64 chunk_size

-- The window after a read in streaming mode. The subtractions are those of `usize`, which must not
-- go below 0.
unfoldable pub charge : ReadWindow → ℕ → ℕ → ReadWindow
unfolding next_size
charge w capacity length = record {
  bytes = w.bytes - length;
  slots = w.slots - 1;
  size = next_size w.size capacity length;
}
