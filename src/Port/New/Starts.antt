-- ===== src/Port/New/Starts.antt =====
-- What `NativePort::new` of src/lib.rs leaves behind, on each of its branches.
use node_serialport_rs.Prelude.{
  ℕ, ◌≡◌, refl, sym, ap, subst, ◌∙◌, true, false, Option, none, List, All, arith,
}
use node_serialport_rs.Io.{IoResult, ok, err}
use node_serialport_rs.Event.{JsResult}
use node_serialport_rs.Port.{fresh_control}
use node_serialport_rs.Cleanup.{Shared, Environments, register_cleanup}
use node_serialport_rs.Cleanup.Sessions.{set_at-there}
use node_serialport_rs.Cleanup.Registered.{
  Event, happen_all, Spares, IsOrderly, IsRegistered, absent, happen_all-IsRegistered,
}
use node_serialport_rs.Cleanup.Stops.{
  HookStops, happen_all-IsOrderly, registers-IsRegistered, IsRegistered-HookStops,
}
use node_serialport_rs.Workers.{
  Pool, Acquired, granted, failed, panicked, limit_of, empty_pool, Use, uses, acquire,
}
use node_serialport_rs.Workers.Bounds.{IsDone, IsWithin, uses-bounded}
use node_serialport_rs.Port.New.{
  Process, Made, made, refused, unwound, spawn, with_control, without_control, spawned, registered,
  new_port,
}

module _ {T : Type 0} (limit key id : ℕ) where
  abbrev Ends : Process T → Made → Type 0
  Ends p (made worker) =
      (later : List (Event T))
      → All (Spares key id) later
      → HookStops key id (happen_all later p.environments)
  Ends p (refused e) = (p.environments.controls id).alive ≡ false
  Ends p unwound = ⊥

  -- The pool is within its limit, and the port is registered for good or its control is gone.
  abbrev pub Starts : Process T × Made → Type 0
  Starts r = IsWithin limit r.0.pool × Ends r.0 r.1

  without-gone : (s : Environments T) → ((without_control id s).controls id).alive ≡ false
  without-gone s =
      ap (λ (c : Shared T). c.alive)
        (set_at-there s.controls (record (s.controls id) { alive = false }) id id (ground arith))

  spawned-Starts :
      (s : Environments T) (r : Pool × Acquired)
      → IsWithin limit r.0
      → IsDone r.1
      → IsRegistered key id s
      → Starts (spawned id s r)
  spawned-Starts s (pool, granted worker) w d h = (
    w,
    λ later k.
        IsRegistered-HookStops key id (happen_all later s)
          (happen_all-IsRegistered key id later s k h),
  )
  spawned-Starts s (pool, failed e) w d h = (w, without-gone s)
  spawned-Starts s (pool, panicked) w d h = (w, d)

  registered-Starts :
      (started : IoResult ℕ) (pool : Pool) (hook : JsResult (Unit {0})) (s : Environments T)
      → (q : Environments T × JsResult (Unit {0})) → q ≡ register_cleanup hook key id s
      → IsWithin limit pool
      → IsWithin limit (acquire limit started pool).0
      → IsDone (acquire limit started pool).1
      → IsOrderly s
      → (s.controls id).alive ≡ true
      → Starts (registered limit started id pool q)
  unfolding spawn
  registered-Starts started pool hook s (t, err e) h w a d o l = (w, without-gone t)
  registered-Starts started pool hook s (t, ok u) h w a d o l =
      spawned-Starts t (acquire limit started pool) a d (
        subst (λ (r : Environments T). IsRegistered key id r) (ap (λ r. r.0) (sym h))
          (registers-IsRegistered hook key id s o l (ap (λ r. r.1) (sym h))))

-- After any history of the environments, from a start without registries, and of the workers, a new
-- port whose number is free ends in one of two ways. Either it is made: then the hook of its
-- environment, when it first runs, stops it if it is still referred to, whatever other ports and
-- environments do. Or it is refused: then no reference to its control is left. In both cases the
-- pool of workers is within its limit, and `new` does not panic.
pub new_port-Starts :
    {T : Type 0} (earlier : List (Event T)) (start : Environments T)
    → ((k : ℕ) → start.registry_of k ≡ none)
    → (parallelism : Option ℕ) (us : List Use) (callback hook : JsResult (Unit {0}))
    → (started : IoResult ℕ) (key id : ℕ)
    → let s = happen_all earlier start in
      let limit = limit_of parallelism in
      (s.controls id).alive ≡ false
      → Starts limit key id (
          new_port callback hook limit started key id
            (record { environments = s; pool = uses limit us empty_pool }))
unfolding new_port
new_port-Starts earlier start v parallelism us (err e) hook started key id a =
    ((uses-bounded parallelism us started).0, a)
new_port-Starts earlier start v parallelism us (ok u) hook started key id a =
    let limit = limit_of parallelism in
    let s = happen_all earlier start in
    let t = with_control id s in
    let b = uses-bounded parallelism us started in
    registered-Starts limit key id started (uses limit us empty_pool) hook t
      (register_cleanup hook key id t) refl b.0 b.1 b.2
      (happen_all-IsOrderly earlier start (λ k rid e. absurd (absent (sym e ∙ v k))))
      (ap (λ (c : Shared _). c.alive)
        (set_at-there s.controls (record { alive = true; control = fresh_control }) id id
          (ground arith)))
