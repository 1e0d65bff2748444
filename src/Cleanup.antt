-- ===== src/Cleanup.antt =====
-- src/lib.rs, `register_cleanup` and the hook that it gives to Node: the environments' registries of
-- the controls of their ports. A registry holds weak references, so that a control may be gone.
pub mod Sessions
pub mod Registered
pub mod Stops
mod Tests
use node_serialport_rs.Prelude.{
  ℕ, suc, ◌==◌, ◌&&◌, ◌||◌, if◌then◌else◌, Bool, true, false, Option, none, some, List, [], ◌∷◌,
  ◌++◌,
}
use node_serialport_rs.Io.{ok, err}
use node_serialport_rs.Event.{JsError, JsResult, from_reason}
use node_serialport_rs.Control.{Control, stop}

-- An `Arc<Control>`: whether a strong reference to it is left.
pub record Shared (T : Type 0) : Type 0 where
  pub alive : Bool
  pub control : Control T

-- `Mutex<Vec<Weak<Control>>>`; a control is its number.
pub record Registry : Type 0 where
  pub poisoned : Bool
  pub sessions : List ℕ

-- `ENVIRONMENTS`, the registries that it refers to by number, `next` being the first that is free,
-- the hooks that Node was given, each with its key and its registry, and the controls.
pub record Environments (T : Type 0) : Type 0 where
  pub poisoned : Bool
  pub registry_of : ℕ → Option ℕ
  pub registries : ℕ → Registry
  pub next : ℕ
  pub hooks : List (ℕ × ℕ)
  pub controls : ℕ → Shared T

-- A function with one value replaced.
abbrev pub set_at : {A : Type 0} → ℕ → A → (ℕ → A) → ℕ → A
set_at i a f j = if j == i then a else f j

abbrev pub poisoned_error : JsError
poisoned_error = from_reason "Session registry poisoned"

module _ {T : Type 0} where
  -- `retain(|session| session.strong_count() != 0)`
  abbrev pub retained : (ℕ → Shared T) → List ℕ → List ℕ
  retained controls [] = []
  retained controls (i ∷ is) =
      let rest = retained controls is in if (controls i).alive then i ∷ rest else rest

  -- From `registry.lock()` on.
  abbrev pub push : ℕ → ℕ → Environments T → Environments T × JsResult (Unit {0})
  push rid control s =
      let registry = s.registries rid in
      if registry.poisoned then (s, err poisoned_error) else (
        record s {
          registries =
              set_at rid
                (record registry {
                  sessions = retained s.controls registry.sessions ++ (control ∷ []);
                })
                s.registries;
        },
        ok tt,
      )

  -- A vacant entry is filled once Node has taken the hook.
  abbrev pub with_entry :
      JsResult (Unit {0}) → ℕ → ℕ → Environments T → Option ℕ → Environments T × JsResult (Unit {0})
  with_entry hook key control s (some rid) = push rid control s
  with_entry (err e) key control s none = (s, err e)
  with_entry (ok u) key control s none = push s.next control (record s {
    registry_of = set_at key (some s.next) s.registry_of;
    registries = set_at s.next (record { poisoned = false; sessions = [] }) s.registries;
    next = suc s.next;
    hooks = (key, s.next) ∷ s.hooks;
  })

  -- `register_cleanup`; `hook` is what `add_env_cleanup_hook` would answer.
  unfoldable pub register_cleanup :
      JsResult (Unit {0}) → ℕ → ℕ → Environments T → Environments T × JsResult (Unit {0})
  register_cleanup hook key control s =
      if s.poisoned
      then (s, err poisoned_error)
      else with_entry hook key control s (s.registry_of key)

  abbrev pub stopped_shared : Shared T → Shared T
  stopped_shared c = if c.alive then record c { control = stop c.control } else c

  -- The loop of the hook: controls that are gone are passed over.
  unfoldable pub stop_all : List ℕ → (ℕ → Shared T) → ℕ → Shared T
  stop_all [] controls = controls
  stop_all (i ∷ is) controls = stop_all is (set_at i (stopped_shared (controls i)) controls)

  -- The hook of an environment.
  unfoldable pub run_hook : ℕ → ℕ → Environments T → Environments T
  unfolding stop_all
  run_hook key rid s =
      let registry = s.registries rid in
      record s {
        controls = if registry.poisoned then s.controls else stop_all registry.sessions s.controls;
        registry_of = if s.poisoned then s.registry_of else set_at key none s.registry_of;
      }
