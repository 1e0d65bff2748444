-- ===== src/Reactor/Window/Tests.antt =====
-- Instances of the theorems on the read window of src/reactor.rs.
use node_serialport_rs.Prelude.{ℕ, ◌≡◌, ◌≤◌, ◌<◌, ◌*◌, ◌^◌, refl, arith}
use node_serialport_rs.Control.{chunk_size}
use node_serialport_rs.Reactor.Window.{doubled, next_power_of_two, next_size}
use node_serialport_rs.Reactor.Window.Bounds.{next_power_of_two_lem, next_size_bounds}

-- A short read of 100 bytes shrinks the window to 128.
shrinks : next_size 1024 1024 100 ≡ 128
unfolding next_size next_power_of_two doubled
shrinks = refl

next_power_of_two_lem_example :
    (k : ℕ) × (next_power_of_two 100 ≡ 2 ^ k)
    × (100 ≤ next_power_of_two 100)
    × (next_power_of_two 100 < 2 * 100)
next_power_of_two_lem_example = next_power_of_two_lem 100 (omega arith) (omega arith)

next_size_bounds_example :
    (64 ≤ next_size 1024 1024 100)
    × (next_size 1024 1024 100 ≤ chunk_size)
    × (100 ≤ next_size 1024 1024 100)
next_size_bounds_example =
    next_size_bounds 1024 1024 100 (omega arith) (omega arith) (omega arith) (omega arith)
