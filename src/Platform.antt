-- ===== src/Platform.antt =====
-- src/platform.rs: the baud rate, in the builds for Linux, Android and Windows.
pub mod Unix
pub mod Termios
pub mod Dcb
pub mod Windows
use node_serialport_rs.Prelude.{ℕ, ◌==◌, if◌then◌else◌}
use node_serialport_rs.Io.{err}
use node_serialport_rs.Error.{invalid}
use node_serialport_rs.Serial.{Serial, PortCall}

module _ {T : Type 0} (serial : Serial T) where
  unfoldable pub set_baud_rate : ℕ → PortCall T (Unit {0})
  set_baud_rate baud_rate port =
      if baud_rate == 0
      then (port, err (invalid "Baud rate must be positive"))
      else serial.set_baud_rate baud_rate port

  unfoldable pub baud_rate : PortCall T ℕ
  baud_rate port = serial.baud_rate port
