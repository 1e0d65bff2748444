-- ===== src/Reactor/Operation.antt =====
-- src/reactor.rs, `operation`: the control operations on the port.
use Prim.Native.Nat.{bit_and}
use node_serialport_rs.Prelude.{ℕ, ◌==◌, not, some, Bool, if◌then◌else◌}
use node_serialport_rs.Io.{ErrorKind, io_error, err}
use node_serialport_rs.Command.{Operation, update, set_lines, get, get_baud_rate, flush, Command}
use node_serialport_rs.Event.{NativeEvent, new}
use node_serialport_rs.Serial.{Serial, PortCall, ◌>>=◌, ◌>>◌, pure}
use node_serialport_rs.Platform.{set_baud_rate, baud_rate}

-- `flags & mask != 0`
abbrev pub has_flag : ℕ → ℕ → Bool
has_flag flags mask = not (bit_and flags mask == 0)

module _ {T : Type 0} (serial : Serial T) where
  unfoldable pub perform : ℕ → Operation → PortCall T NativeEvent
  unfolding set_baud_rate baud_rate
  perform id (update baud) = do set_baud_rate serial baud; pure (new id "ok")
  perform id get_baud_rate = do
    baud ← baud_rate serial
    pure (record (new id "ok") { baud_rate = some baud })
  perform id (set_lines flags) = do
    serial.write_data_terminal_ready (has_flag flags 1)
    serial.write_request_to_send (has_flag flags 2)
    if has_flag flags 4 then serial.set_break else serial.clear_break
    pure (new id "ok")
  perform id get = do
    cts ← serial.read_clear_to_send
    dsr ← serial.read_data_set_ready
    dcd ← serial.read_carrier_detect
    pure (record (new id "ok") { cts = some cts; dsr = some dsr; dcd = some dcd })
  perform id flush = do serial.clear_all; pure (new id "ok")
  perform id other =
      λ port. (port, err (io_error ErrorKind.other "Unexpected transfer in control queue"))

  unfoldable pub operation : Command → PortCall T NativeEvent
  unfolding perform
  operation command = perform command.id command.operation
