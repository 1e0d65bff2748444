-- ===== src/Cleanup/Tests.antt =====
-- Two environments, of which one ends, and an instance of the theorem on src/lib.rs,
-- `register_cleanup`.
use node_serialport_rs.Prelude.{ℕ, ◌≡◌, refl, true, false, none, List, [], ◌∷◌}
use node_serialport_rs.Io.{ok}
use node_serialport_rs.Control.{Control}
use node_serialport_rs.Cleanup.{Environments, register_cleanup}
use node_serialport_rs.Cleanup.Registered.{Event, registers, releases, runs, happen_all}
use node_serialport_rs.Cleanup.Stops.{HookStops, register_cleanup-HookStops}

abbrev idle : Control ℕ
idle = record {
  stopped = false;
  changed = false;
  pending_ops = 0;
  poisoned = false;
  session = none;
}

-- All controls are alive, and nothing is registered.
abbrev start : Environments ℕ
start = record {
  poisoned = false;
  registry_of = λ k. none;
  registries = λ r. record { poisoned = false; sessions = [] };
  next = 0;
  hooks = [];
  controls = λ i. record { alive = true; control = idle };
}

abbrev earlier : List (Event ℕ)
earlier = registers (ok tt) 7 1 ∷ registers (ok tt) 8 2 ∷ releases 1 ∷ []

abbrev later : List (Event ℕ)
later = registers (ok tt) 7 4 ∷ runs 8 1 ∷ registers (ok tt) 8 5 ∷ []

abbrev registered : Environments ℕ
registered = (register_cleanup (ok tt) 7 3 (happen_all earlier start)).0

living : ((happen_all earlier start).controls 3).alive ≡ true
unfolding register_cleanup
living = refl

registers_run : (register_cleanup (ok tt) 7 3 (happen_all earlier start)).1 ≡ ok tt
unfolding register_cleanup
registers_run = refl

-- The control that is gone was taken out of the registry.
pruned_run : ((registered).registries 0).sessions ≡ 3 ∷ []
unfolding register_cleanup
pruned_run = refl

register_cleanup-HookStops_example : HookStops 7 3 (happen_all later registered)
register_cleanup-HookStops_example =
    register_cleanup-HookStops earlier (ok tt) 7 3 later start (λ k. refl) living registers_run
      (tt, (refl, (tt, tt)))
