-- ===== src/Workers/Tests.antt =====
-- Runs of src/workers.rs and instances of its theorems.
use node_serialport_rs.Prelude.{◌≡◌, refl, some, List, [], ◌∷◌, false}
use node_serialport_rs.Io.{ok}
use node_serialport_rs.Workers.{
  Use, acquires, drops_count, drops_handle, Pool, empty_pool, used, uses, drop_count, drop_handle,
  acquire, upgraded, least,
}
use node_serialport_rs.Workers.Bounds.{IsWithin, IsDone, uses-bounded}
use node_serialport_rs.Workers.Choice.{Grants, acquire-Grants}

-- Three ports on two workers, one of which is then given up.
abbrev busy : List Use
busy =
    acquires (ok 10) ∷ acquires (ok 11) ∷ acquires (ok 12) ∷ drops_count 11 ∷ drops_handle 11 ∷ []

two_workers :
    (uses 2 busy empty_pool).workers
    ≡ record { id = 10; ports = 2; strong = 2 } ∷ record { id = 11; ports = 0; strong = 0 } ∷ []
unfolding uses used acquire upgraded least drop_count drop_handle
two_workers = refl

uses-bounded_example :
    IsWithin 2 (uses 2 busy empty_pool)
    × IsWithin 2 (acquire 2 (ok 13) (uses 2 busy empty_pool)).0
    × IsDone (acquire 2 (ok 13) (uses 2 busy empty_pool)).1
uses-bounded_example = uses-bounded (some 2) busy (ok 13)

abbrev one_idle : Pool
one_idle = record {
  workers =
      record { id = 10; ports = 3; strong = 3 } ∷ record { id = 11; ports = 0; strong = 1 } ∷ [];
  poisoned = false;
}

acquire-Grants_example : Grants 4 one_idle.workers (ok 12) (acquire 4 (ok 12) one_idle).1
unfolding upgraded
acquire-Grants_example = acquire-Grants 4 (ok 12) one_idle one_idle.workers refl refl
