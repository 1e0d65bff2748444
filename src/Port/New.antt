-- ===== src/Port/New.antt =====
-- src/lib.rs, `NativePort::new`, over `register_cleanup` and over `spawn` of src/workers.rs: what is
-- left of the control and of the pool where one of its steps fails.
pub mod Starts
mod Tests
use node_serialport_rs.Prelude.{ℕ, Bool, true, false}
use node_serialport_rs.Io.{IoResult, ok, err}
use node_serialport_rs.Event.{JsError, JsResult, from_reason}
use node_serialport_rs.Port.{fresh_control}
use node_serialport_rs.Cleanup.{Environments, set_at, register_cleanup}
use node_serialport_rs.Workers.{Pool, Acquired, granted, failed, panicked, acquire}

-- What all ports of the process share.
pub record Process (T : Type 0) : Type 0 where
  pub environments : Environments T
  pub pool : Pool

-- The port's worker, or the error that JavaScript is given.
pub data Made : Type 0 where
  made : ℕ → Made
  refused : JsError → Made
  unwound : Made

-- `spawn`: the lease goes into the task, whose start on the worker's runtime does not fail.
unfoldable pub spawn : ℕ → IoResult ℕ → Pool → Pool × Acquired
unfolding acquire
spawn limit started p = acquire limit started p

module _ {T : Type 0} where
  -- `Arc::new(Control { .. })`, under the number `id`, and the drop of its last reference.
  abbrev pub with_control : ℕ → Environments T → Environments T
  with_control id s = record s {
    controls = set_at id (record { alive = true; control = fresh_control }) s.controls;
  }

  abbrev pub without_control : ℕ → Environments T → Environments T
  without_control id s = record s {
    controls = set_at id (record (s.controls id) { alive = false }) s.controls;
  }

  abbrev pub spawned : ℕ → Environments T → Pool × Acquired → Process T × Made
  spawned id s (pool, granted worker) = (record { environments = s; pool = pool }, made worker)
  spawned id s (pool, failed e) =
      (record { environments = without_control id s; pool = pool }, refused (from_reason e.message))
  spawned id s (pool, panicked) =
      (record { environments = without_control id s; pool = pool }, unwound)

  abbrev pub registered :
      ℕ → IoResult ℕ → ℕ → Pool → Environments T × JsResult (Unit {0}) → Process T × Made
  registered limit started id pool (s, ok u) = spawned id s (spawn limit started pool)
  registered limit started id pool (s, err e) =
      (record { environments = without_control id s; pool = pool }, refused e)

  -- `NativePort::new`; the first argument is what comes of `create_ref` and of `build_callback`.
  unfoldable pub new_port :
      JsResult (Unit {0})
      → JsResult (Unit {0})
      → ℕ
      → IoResult ℕ
      → ℕ
      → ℕ
      → Process T
      → Process T × Made
  unfolding register_cleanup spawn
  new_port (err e) hook limit started key id p = (p, refused e)
  new_port (ok u) hook limit started key id p =
      registered limit started id p.pool
        (register_cleanup hook key id (with_control id p.environments))
