-- ===== src/History/Refused.antt =====
-- What a call on a closed port of src/lib.rs does.
use node_serialport_rs.Prelude.{
  ℕ, ◌≡◌, refl, Bool, true, Option, none, some, List, if_cases, not, ◌==◌, leb, ◌&&◌, length,
  String,
}
use node_serialport_rs.Io.{ok, err}
use node_serialport_rs.Command.{Command, Operation}
use node_serialport_rs.Event.{JsResult, JsError}
use node_serialport_rs.Control.{Control, Mpsc, chunk_size, read_slots}
use node_serialport_rs.Serial.{Serial}
use node_serialport_rs.Port.{
  NativePort, enqueue, read_port, read_credit_port, request_operation, requested, request, closed,
}
use node_serialport_rs.Port.Write.{write_port, write_snapshot}

-- No port is open and `stop` is set.
abbrev pub IsClosed : {T : Type 0} → Control T → Type 0
IsClosed c = (c.session ≡ none) × (c.stopped ≡ true)

module _ {T C : Type 0} (serial : Serial T) (mpsc : Mpsc C) where
  -- A closed port refuses the call, and is left as it is.
  abbrev pub Refused : {A : Type 0} → NativePort T C → NativePort T C × JsResult A → Type 0
  Refused p r = (r.0 ≡ p) × (e : JsError) × (r.1 ≡ err e)

  enqueue-Refused :
      (p : NativePort T C) (command : Command)
      → IsClosed p.control
      → Refused p (enqueue mpsc p command)
  unfolding enqueue
  enqueue-Refused p command h = rw h.1 (refl, closed, refl)

  pub read_port-Refused :
      (p : NativePort T C) (id n : ℕ) → IsClosed p.control → Refused p (read_port mpsc p id n)
  unfolding read_port
  read_port-Refused p id n h =
      if_cases (Refused p) (not (n == 0) && leb n chunk_size) _ _ (λ _. enqueue-Refused p _ h)
        (λ _. (refl, _, refl))

  pub read_credit_port-Refused :
      (p : NativePort T C) (b n : ℕ) → IsClosed p.control → Refused p (read_credit_port mpsc p b n)
  unfolding read_credit_port
  read_credit_port-Refused p b n h =
      if_cases (Refused p)
        (not (b == 0) && (leb b chunk_size && (not (n == 0) && leb n read_slots))) _ _
        (λ _. enqueue-Refused p _ h) (λ _. (refl, _, refl))

  pub write_port-Refused :
      (p : NativePort T C) (id : ℕ) (bytes : List ℕ) (allow contended : Bool)
      → IsClosed p.control
      → Refused p (write_port serial mpsc p id bytes allow contended)
  unfolding write_port
  write_port-Refused p id bytes allow contended h =
      if_cases (Refused p) (leb (length bytes) chunk_size) _ _ (λ _. rw h.1 (refl, closed, refl))
        (λ _. (refl, _, refl))

  pub write_snapshot-Refused :
      (p : NativePort T C) (id : ℕ) (bytes : List ℕ) (allow contended : Bool)
      → IsClosed p.control
      → Refused p (write_snapshot serial mpsc id allow contended (p, ok bytes))
  unfolding write_snapshot
  write_snapshot-Refused p id bytes allow contended h = rw h.1 (refl, closed, refl)

  operation-Refused :
      (p : NativePort T C) (id : ℕ) (o : Option Operation)
      → IsClosed p.control
      → Refused p (request_operation mpsc p id o)
  operation-Refused p id none h = (refl, _, refl)
  operation-Refused p id (some operation) h = enqueue-Refused p _ h

  pub request-Refused :
      (p : NativePort T C) (id : ℕ) (op : String) (value : ℕ)
      → IsClosed p.control
      → Refused p (request mpsc p id op value)
  unfolding request
  request-Refused p id op value h = operation-Refused p id (requested op value) h
