-- ===== src/Error.antt =====
-- src/error.rs: how an `io::Error` becomes the details that JavaScript sees.
mod Tests
use node_serialport_rs.Prelude.{ℕ, String, Option}
use node_serialport_rs.Io.{
  ErrorKind, not_found, permission_denied, invalid_input, invalid_data, resource_busy, would_block,
  timed_out, unsupported, broken_pipe, not_connected, connection_aborted, connection_reset,
  unexpected_eof, write_zero, IoError, io_error,
}

pub record ErrorDetails : Type 0 where
  pub message : String
  pub code : String
  pub errno : Option ℕ

-- `code(error)`; the argument is `error.kind()`.
unfoldable pub code : ErrorKind → String
code not_found = "ERR_SERIALPORT_NOT_FOUND"
code permission_denied = "ERR_SERIALPORT_PERMISSION_DENIED"
code invalid_input = "ERR_SERIALPORT_INVALID_ARGUMENT"
code invalid_data = "ERR_SERIALPORT_INVALID_ARGUMENT"
code resource_busy = "ERR_SERIALPORT_BUSY"
code would_block = "ERR_SERIALPORT_BUSY"
code timed_out = "ERR_SERIALPORT_TIMED_OUT"
code unsupported = "ERR_SERIALPORT_UNSUPPORTED"
code broken_pipe = "ERR_SERIALPORT_DISCONNECTED"
code not_connected = "ERR_SERIALPORT_DISCONNECTED"
code connection_aborted = "ERR_SERIALPORT_DISCONNECTED"
code connection_reset = "ERR_SERIALPORT_DISCONNECTED"
code unexpected_eof = "ERR_SERIALPORT_DISCONNECTED"
code write_zero = "ERR_SERIALPORT_DISCONNECTED"
code _ = "ERR_SERIALPORT_IO"

-- `impl From<io::Error> for ErrorDetails`
unfoldable pub details : IoError → ErrorDetails
unfolding code
details e = record { message = e.message; code = code e.kind; errno = e.errno }

unfoldable pub invalid : String → IoError
invalid message = io_error ErrorKind.invalid_input message
