-- ===== src/Port/New/Tests.antt =====
-- A port that is made, one whose worker does not start, and an instance of the theorem on
-- `NativePort::new` of src/lib.rs.
use node_serialport_rs.Prelude.{ℕ, ◌≡◌, refl, false, none, some, List, [], ◌∷◌}
use node_serialport_rs.Io.{ErrorKind, io_error, ok, err}
use node_serialport_rs.Event.{from_reason}
use node_serialport_rs.Port.{fresh_control}
use node_serialport_rs.Cleanup.{Environments, register_cleanup}
use node_serialport_rs.Cleanup.Registered.{Event, registers, happen_all}
use node_serialport_rs.Workers.{empty_pool, limit_of, uses, acquires, acquire, upgraded, Use}
use node_serialport_rs.Port.New.{made, refused, new_port, spawn}
use node_serialport_rs.Port.New.Starts.{Starts, new_port-Starts}

abbrev start : Environments ℕ
start = record {
  poisoned = false;
  registry_of = λ k. none;
  registries = λ r. record { poisoned = false; sessions = [] };
  next = 0;
  hooks = [];
  controls = λ i. record { alive = false; control = fresh_control };
}

abbrev earlier : List (Event ℕ)
earlier = registers (ok tt) 7 1 ∷ []

abbrev before : List Use
before = acquires (ok 50) ∷ []

made_run :
    (new_port
      (ok tt)
      (ok tt)
      4
      (ok 60)
      7
      3
      (record { environments = happen_all earlier start; pool = empty_pool })).1
    ≡ made 60
unfolding new_port spawn register_cleanup acquire upgraded
made_run = refl

refused_run :
    (new_port
      (ok tt)
      (ok tt)
      4
      (err (io_error ErrorKind.other "no thread"))
      7
      3
      (record { environments = happen_all earlier start; pool = empty_pool })).1
    ≡ refused (from_reason "no thread")
unfolding new_port spawn register_cleanup acquire upgraded
refused_run = refl

free : ((happen_all earlier start).controls 3).alive ≡ false
unfolding register_cleanup
free = refl

new_port-Starts_example : Starts (limit_of (some 8)) 7 3 (
    new_port (ok tt) (ok tt) (limit_of (some 8)) (ok 60) 7 3 (record {
      environments = happen_all earlier start;
      pool = uses (limit_of (some 8)) before empty_pool;
    }))
new_port-Starts_example =
    new_port-Starts earlier start (λ k. refl) (some 8) before (ok tt) (ok tt) (ok 60) 7 3 free
