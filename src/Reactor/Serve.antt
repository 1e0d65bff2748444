-- ===== src/Reactor/Serve.antt =====
-- src/reactor.rs, `run_open`: the inner loop, which serves the ordered commands from the front of
-- the queue.
pub mod Answers
mod Tests
use node_serialport_rs.Prelude.{
  ℕ, ◌==◌, ltb, if◌then◌else◌, Bool, true, false, String, Option, none, some, List, [], ◌∷◌, length,
}
use node_serialport_rs.Io.{ErrorKind, IoResult, io_error, ok, err}
use node_serialport_rs.Command.{Operation, write, drain, Command}
use node_serialport_rs.Event.{NativeEvent, new, error}
use node_serialport_rs.Control.{Control, fetch_sub_one, with_port}
use node_serialport_rs.Reactor.{Locals, Links, System, send}
use node_serialport_rs.Reactor.Operation.{operation}

-- How one round ends: the function returns, the loop breaks (with the value of `draining`), or the
-- next round follows.
pub data Round (S : Type 0) : Type 0 where
  return : S → IoResult (Unit {0}) → Round S
  break : S → Bool → Round S
  next : S → Round S

-- `Result::unwrap_or_else(|error| NativeEvent::error(id, error))`
abbrev pub event_of : ℕ → IoResult NativeEvent → NativeEvent
event_of id (ok e) = e
event_of id (err e) = error id e

abbrev pub done_event : ℕ → IoResult (Unit {0}) → NativeEvent
done_event id (ok u) = new id "ok"
done_event id (err e) = error id e

module _ {T C K : Type 0} where
  abbrev pub set_control : System T C K → Control T → System T C K
  set_control s c = record s { control = c }

  abbrev pub set_locals : System T C K → Locals → System T C K
  set_locals s l = record s { locals = l }

  -- `commands.pop_front()` and the decrement.
  abbrev pub release : System T C K → List Command → System T C K
  release s rest = record s {
    locals = record s.locals { commands = rest };
    control = record s.control { pending_ops = fetch_sub_one s.control.pending_ops };
  }

  -- The state after the send, and the round's end.
  abbrev pub answered : System T C K → K × Bool → Round (System T C K)
  answered s (k, true) = next (record s { callback = k })
  answered s (k, false) = return (record s { callback = k }) (ok tt)

module _ {T C K : Type 0} (links : Links T C K) where
  -- The end of a round: `event` answers the front command.
  unfoldable pub complete : System T C K → List Command → NativeEvent → Round (System T C K)
  complete s rest event = let s' = release s rest in answered s' (send links s'.callback event)

  -- The physical drain on the blocking pool; `lost` is the error of a task that could not be joined.
  abbrev pub drained : Control T → Option String → Control T × IoResult (Unit {0})
  drained c none = with_port c links.serial.drain_output
  drained c (some lost) = (c, err (io_error ErrorKind.other lost))

  abbrev pub serve_drain :
      System T C K
      → ℕ
      → List Command
      → Option String
      → Control T × IoResult ℕ
      → Round (System T C K)
  serve_drain s id rest lost (c, err e) = return (set_control s c) (err e)
  serve_drain s id rest lost (c, ok queued) =
      if queued == 0
      then (let (c', r) = drained c lost in complete (set_control s c') rest (done_event id r))
      else break (set_control s c) true

  abbrev pub serve_command :
      System T C K → Command → Operation → List Command → Option String → Round (System T C K)
  serve_command s command (write bytes) rest lost =
      if ltb s.locals.written (length bytes)
      then break s false
      else complete (set_locals s (record s.locals { written = 0 })) rest (new command.id "ok")
  serve_command s command drain rest lost =
      serve_drain s command.id rest lost (with_port s.control links.serial.bytes_to_write)
  serve_command s command op rest lost =
      let (c, r) = with_port s.control (operation links.serial command) in
      complete (set_control s c) rest (event_of command.id r)

  -- One round of the loop, from the queue.
  unfoldable pub serve_front : System T C K → List Command → Option String → Round (System T C K)
  serve_front s [] lost = break s false
  serve_front s (command ∷ rest) lost =
      if s.control.stopped
      then return s (ok tt)
      else serve_command s command command.operation rest lost

  unfoldable pub serve : System T C K → Option String → Round (System T C K)
  serve s lost = serve_front s s.locals.commands lost
