-- ===== src/Reactor/Receive.antt =====
-- src/reactor.rs, `run_open`: the branch of `select!` that receives a command.
use node_serialport_rs.Prelude.{
  ℕ, ◌+◌, ltb, if◌then◌else◌, ◌||◌, true, Option, none, some, [], ◌∷◌, ◌++◌,
}
use node_serialport_rs.Io.{ErrorKind, io_error, ok, err}
use node_serialport_rs.Command.{Operation, read, read_credit, Command}
use node_serialport_rs.Event.{error}
use node_serialport_rs.Control.{chunk_size, read_slots}
use node_serialport_rs.Reactor.{Links, System, send}
use node_serialport_rs.Reactor.Turn.{Turn, return, again, is_some, sent_or_return}

module _ {T C K : Type 0} where
  -- The `ReadCredit` arm.
  unfoldable pub take_credit : System T C K → ℕ → ℕ → Turn (System T C K)
  take_credit s bytes slots =
      let w = record s.locals.window {
        bytes = s.locals.window.bytes + bytes;
        slots = s.locals.window.slots + slots;
      } in
      let s' = record s { locals = record s.locals { window = w } } in
      if is_some s.locals.reading || (ltb chunk_size w.bytes || ltb read_slots w.slots)
      then return s' (err (io_error ErrorKind.invalid_input "Invalid read credit"))
      else again (record s { locals = record s.locals { window = w; streaming = true } })

  -- The arms that hand a command on.
  unfoldable pub push_back : System T C K → Command → Turn (System T C K)
  push_back s command =
      again
        (record s { locals = record s.locals { commands = s.locals.commands ++ (command ∷ []) } })

module _ {T C K : Type 0} (links : Links T C K) where
  -- The `Read` arm.
  unfoldable pub take_read : System T C K → ℕ → ℕ → Turn (System T C K)
  take_read s id wanted =
      if is_some s.locals.reading || s.locals.streaming
      then sent_or_return s (
          send links s.callback
            (error id (io_error ErrorKind.resource_busy "Read already pending")))
      else again (record s { locals = record s.locals { reading = some (id, wanted) } })

  unfoldable pub receive_operation : System T C K → Command → Operation → Turn (System T C K)
  receive_operation s command (read wanted) = take_read s command.id wanted
  receive_operation s command (read_credit bytes slots) = take_credit s bytes slots
  receive_operation s command op = push_back s command

  -- The `recv` branch; `none` is a closed channel.
  unfoldable pub receive : System T C K → Option Command → Turn (System T C K)
  receive s none = return s (ok tt)
  receive s (some command) = receive_operation s command command.operation
