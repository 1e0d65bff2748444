-- ===== src/Port.antt =====
-- src/lib.rs, `NativePort`: what JavaScript calls on a port. Each function returns the new state
-- beside its result. JavaScript runs on one thread; what the I/O worker does in the meantime shows
-- as the state that a call starts from.
pub mod Write
pub mod New
mod Tests
use node_serialport_rs.Prelude.{
  ℕ, ◌==◌, leb, ltb, if◌then◌else◌, String, Option, none, some, Bool, true, false, not, ◌&&◌,
}
use node_serialport_rs.Io.{ok, err}
use node_serialport_rs.Command.{
  Operation, read, read_credit, update, set_lines, get, get_baud_rate, flush, drain, Command,
  ordered,
}
use node_serialport_rs.Event.{JsError, JsResult, invalid_arg, from_reason}
use node_serialport_rs.Control.{
  Control, Mpsc, stop, chunk_size, read_slots, max_pending_ops, fetch_add_one, fetch_sub_one,
}
use text.Mathlib.Text.{◌==◌ as str_eq}

pub record NativePort (T C : Type 0) : Type 0 where
  pub control : Control T
  pub sender : C

-- The `Control` that `NativePort::new` makes.
abbrev pub fresh_control : {T : Type 0} → Control T
fresh_control = record {
  stopped = false;
  changed = false;
  pending_ops = 0;
  poisoned = false;
  session = none;
}

abbrev pub closed : JsError
closed = from_reason "Port is closed"

abbrev pub invalid_argument : String → JsError
invalid_argument reason = record { status = invalid_arg; reason = reason }

-- The `match` of `request` on the operation's name.
unfoldable pub requested : String → ℕ → Option Operation
requested op value =
    if str_eq op "update"
    then some (update value)
    else if str_eq op "set"
    then some (set_lines value)
    else if str_eq op "get"
    then some get
    else if str_eq op "getBaudRate"
    then some get_baud_rate
    else if str_eq op "flush"
    then some flush
    else if str_eq op "drain"
    then some drain
    else none

module _ {T C : Type 0} where
  abbrev pub set_pending : NativePort T C → ℕ → NativePort T C
  set_pending p n = record p { control = record p.control { pending_ops = n } }

  -- `Drop for NativePort` is the same call.
  unfoldable pub close : NativePort T C → NativePort T C
  close p = record p { control = stop p.control }

module _ {T C : Type 0} (mpsc : Mpsc C) where
  -- The end of `enqueue`: what follows `try_send`, with the reservation given back on failure.
  abbrev pub submitted :
      NativePort T C → Bool → C × Option String → NativePort T C × JsResult (Unit {0})
  submitted p is_ordered (ch, none) = (record p { sender = ch }, ok tt)
  submitted p is_ordered (ch, some e) =
      let p' = record p { sender = ch } in
      (
        if is_ordered then set_pending p' (fetch_sub_one p'.control.pending_ops) else p',
        err (from_reason e),
      )

  abbrev pub try_submit : NativePort T C → Command → NativePort T C × JsResult (Unit {0})
  try_submit p command = submitted p (ordered command) (mpsc.try_send p.sender command)

  unfoldable pub enqueue : NativePort T C → Command → NativePort T C × JsResult (Unit {0})
  enqueue p command =
      let reserved = set_pending p (fetch_add_one p.control.pending_ops) in
      if p.control.stopped
      then (p, err closed)
      else if ordered command
      then (if leb max_pending_ops p.control.pending_ops
          then (
            set_pending reserved (fetch_sub_one reserved.control.pending_ops),
            err (from_reason "Too many pending serial operations"),
          )
          else try_submit reserved command)
      else try_submit p command

  unfoldable pub read_port : NativePort T C → ℕ → ℕ → NativePort T C × JsResult (Unit {0})
  read_port p id length =
      if not (length == 0) && leb length chunk_size
      then enqueue p (record { id = id; operation = read length })
      else (p, err (invalid_argument "Invalid transfer size"))

  unfoldable pub read_credit_port : NativePort T C → ℕ → ℕ → NativePort T C × JsResult (Unit {0})
  read_credit_port p bytes events =
      if not (bytes == 0) && (leb bytes chunk_size && (not (events == 0) && leb events read_slots))
      then enqueue p (record { id = 0; operation = read_credit bytes events })
      else (p, err (invalid_argument "Invalid read credit"))

  abbrev pub request_operation :
      NativePort T C → ℕ → Option Operation → NativePort T C × JsResult (Unit {0})
  request_operation p id (some operation) = enqueue p (record { id = id; operation = operation })
  request_operation p id none = (p, err (invalid_argument "Unknown serial control operation"))

  unfoldable pub request : NativePort T C → ℕ → String → ℕ → NativePort T C × JsResult (Unit {0})
  request p id op value = request_operation p id (requested op value)
