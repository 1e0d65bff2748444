-- ===== src/Platform/Windows.antt =====
-- src/platform/windows.rs: `SerialStream`, its `open` over the calls of Windows and of the crates,
-- and its other methods over Tokio's pipe and the `serialport` crate's `COMPort`.
pub mod Handles
mod Tests
use node_serialport_rs.Prelude.{
  ℕ, ◌==◌, ltb, if◌then◌else◌, Bool, true, false, Option, none, some, List, [], ◌∷◌, ◌++◌, String,
}
use node_serialport_rs.Io.{IoError, IoResult, Result, ok, err, Poll}
use node_serialport_rs.Transfer.{AsyncPort}
use node_serialport_rs.Serial.{Serial, PortCall}
use node_serialport_rs.Settings.{Builder}
use node_serialport_rs.Platform.Unix.{TtyPort}
use node_serialport_rs.Platform.Unix.Open.{PortError}

-- What `open` calls, on a system `W`: a `COMPort` `P`, a file handle `H`, a state `S` of a port and a
-- pipe `F`. `register` is `NamedPipeClient::from_raw_handle`, which closes the handle where it fails;
-- `set_timeouts` sets the timeout between bytes, with the others zero.
pub record WindowsCalls (W P H S F : Type 0) : Type 0 where
  pub open_com : Builder → W → W × Result P PortError
  pub name : P → Option (List ℕ)
  pub get_state : P → W → W × IoResult S
  pub close_com : P → W → W
  pub open_file : List ℕ → W → W × IoResult H
  pub set_state : H → S → W → W × IoResult (Unit {0})
  pub set_timeouts : H → ℕ → W → W × IoResult (Unit {0})
  pub clone : H → W → W × IoResult H
  pub close_file : H → W → W
  pub register : H → W → W × IoResult F
  pub port_error : IoError → PortError
  pub no_device : ℕ

-- `SerialStream`, with the pipe and the handle that the control port owns.
pub record SerialStream (F H : Type 0) : Type 0 where
  pub io : F
  pub control : H

-- `name.starts_with('\\')`
abbrev pub is_full_path : List ℕ → Bool
is_full_path [] = false
is_full_path (c ∷ cs) = c == b'\\'

abbrev pub device_path : List ℕ → List ℕ
device_path name = if is_full_path name then name else b'\\' ∷ b'\\' ∷ b'.' ∷ b'\\' ∷ name

module _ {W P H S F : Type 0} (calls : WindowsCalls W P H S F) where
  -- Where a call on the file fails, the file is closed as it goes out of scope.
  abbrev pub dropped : H → IoError → W → W × Result (SerialStream F H) PortError
  dropped file e w = (calls.close_file file w, err (calls.port_error e))

  abbrev pub registered : H → W × IoResult F → W × Result (SerialStream F H) PortError
  registered control (w, ok io) = (w, ok (record { io = io; control = control }))
  registered control (w, err e) = dropped control e w

  abbrev pub cloned : H → W × IoResult H → W × Result (SerialStream F H) PortError
  cloned file (w, ok control) = registered control (calls.register file w)
  cloned file (w, err e) = dropped file e w

  abbrev pub timed : H → W × IoResult (Unit {0}) → W × Result (SerialStream F H) PortError
  timed file (w, ok u) = cloned file (calls.clone file w)
  timed file (w, err e) = dropped file e w

  abbrev pub configured : H → W × IoResult (Unit {0}) → W × Result (SerialStream F H) PortError
  configured file (w, ok u) = timed file (calls.set_timeouts file 1 w)
  configured file (w, err e) = dropped file e w

  abbrev pub opened_file : S → W × IoResult H → W × Result (SerialStream F H) PortError
  opened_file settings (w, ok file) = configured file (calls.set_state file settings w)
  opened_file settings (w, err e) = (w, err (calls.port_error e))

  abbrev pub with_state : P → List ℕ → W × IoResult S → W × Result (SerialStream F H) PortError
  with_state port name (w, ok settings) =
      opened_file settings (calls.open_file (device_path name) (calls.close_com port w))
  with_state port name (w, err e) = (calls.close_com port w, err (calls.port_error e))

  abbrev pub with_name : P → Option (List ℕ) → W → W × Result (SerialStream F H) PortError
  with_name port (some name) w = with_state port name (calls.get_state port w)
  with_name port none w = (
    calls.close_com port w,
    err (record { kind = calls.no_device; description = "Empty device name" }),
  )

  abbrev pub opened_com : W × Result P PortError → W × Result (SerialStream F H) PortError
  opened_com (w, ok port) = with_name port (calls.name port) w
  opened_com (w, err e) = (w, err e)

  -- `SerialStream::open`
  unfoldable pub open_stream : Builder → W → W × Result (SerialStream F H) PortError
  open_stream b w = opened_com (calls.open_com b w)

-- The pipe of a stream that is open, as the program uses it.
pub record Pipe (T : Type 0) : Type 0 where
  pub poll_read : T → List ℕ → T × List ℕ × Poll (IoResult ℕ)
  pub poll_write : T → List ℕ → T × Poll (IoResult ℕ)
  pub try_read : T → List ℕ → T × List ℕ × IoResult ℕ
  pub try_write : List ℕ → PortCall T ℕ

module _ {T : Type 0} (pipe : Pipe T) (port : TtyPort T) (flush : PortCall T (Unit {0})) where
  unfoldable pub windows_io : AsyncPort T
  windows_io = record { poll_read = pipe.poll_read; poll_write = pipe.poll_write }

  -- Bytes go through the pipe, and everything else, flushing included, through the control port.
  unfoldable pub windows_serial : Serial T
  unfolding windows_io
  windows_serial = record {
    io = windows_io;
    try_read = pipe.try_read;
    try_write = pipe.try_write;
    drain_output = flush;
    bytes_to_write = port.bytes_to_write;
    set_baud_rate = port.set_baud_rate;
    baud_rate = port.baud_rate;
    write_data_terminal_ready = port.write_data_terminal_ready;
    write_request_to_send = port.write_request_to_send;
    set_break = port.set_break;
    clear_break = port.clear_break;
    read_clear_to_send = port.read_clear_to_send;
    read_data_set_ready = port.read_data_set_ready;
    read_carrier_detect = port.read_carrier_detect;
    clear_all = port.clear_all;
  }
