-- ===== src/Control/Session.antt =====
-- What follows from a call under the mutex of src/lib.rs.
use node_serialport_rs.Prelude.{Bool, true, false, ◌≡◌, refl, Option, none, some}
use node_serialport_rs.Io.{IoError}
use node_serialport_rs.Control.{Control, locked, with_session}

module _ {ℓ κ} {T : Type 0} {B : Type ℓ} (P : B → Type κ) (c : Control T) (body : T → T × B)
    (fail : IoError → B) (run : (t : T) → P (body t).1) (refuse : (e : IoError) → P (fail e)) where
  locked_result : (p : Bool) (o : Option T) → P (locked c p o body fail).1
  locked_result true o = refuse _
  locked_result false none = refuse _
  locked_result false (some port) = run port

  -- What holds of the body's result and of each error holds of the call's result.
  pub with_session_result : P (with_session c body fail).1
  with_session_result = locked_result c.poisoned c.session

module _ {ℓ} {T : Type 0} {B : Type ℓ} (c : Control T) (body : T → T × B) (fail : IoError → B) where
  pending-locked :
      (p : Bool) (o : Option T) → (locked c p o body fail).0.pending_ops ≡ c.pending_ops
  pending-locked true o = refl
  pending-locked false none = refl
  pending-locked false (some port) = refl

  -- A call under the mutex leaves the count alone.
  pub pending-with_session : (with_session c body fail).0.pending_ops ≡ c.pending_ops
  pending-with_session = pending-locked c.poisoned c.session
