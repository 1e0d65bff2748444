-- ===== src/Settings.antt =====
-- src/settings.rs: the options are checked before the device is opened. The `serialport` crate's
-- builder is the record `Builder`, and `open` and `configure` of src/platform.rs are a parameter.
pub mod Checks
mod Tests
use node_serialport_rs.Prelude.{
  ℕ, ◌==◌, leb, if◌then◌else◌, String, Bool, true, false, not, ◌&&◌, ◌||◌, Option, none, some, List,
  [], ◌∷◌,
}
use node_serialport_rs.Io.{ErrorKind, IoError, IoResult, io_error, ok, err, ◌>>=◌, ◌>>◌}
use node_serialport_rs.Error.{invalid}
use node_serialport_rs.Serial.{Serial, PortCall}
use node_serialport_rs.Platform.{set_baud_rate}
use text.Mathlib.Text.{◌==◌ as str_eq}

-- The builds: `cfg(unix)` holds of the first three, `cfg(windows)` of the last. The build for macOS
-- is `other_unix` here, but for its `set_baud_rate`.
pub data Target : Type 0 where
  linux android other_unix windows : Target

abbrev pub is_unix : Target → Bool
is_unix windows = false
is_unix target = true

abbrev pub is_windows : Target → Bool
is_windows windows = true
is_windows target = false

-- `cfg(all(unix, not(any(target_os = "linux", target_os = "android"))))`
abbrev pub lacks_mark_space : Target → Bool
lacks_mark_space other_unix = true
lacks_mark_space target = false

-- The `f64` `stop_bits`, which is only compared with three literals.
pub data StopValue : Type 0 where
  one one_and_half two : StopValue
  unlisted : ℕ → StopValue

-- `path` is by its bytes, since its characters are looked at.
pub record NativeOptions : Type 0 where
  pub path : List ℕ
  pub baud_rate : ℕ
  pub data_bits : ℕ
  pub stop_bits : StopValue
  pub parity : String
  pub lock : Bool
  pub rtscts : Bool
  pub xon : Bool
  pub xoff : Bool
  pub xany : Bool
  pub hupcl : Bool

pub data DataBits : Type 0 where
  five six seven eight : DataBits

pub data StopBits : Type 0 where
  stop_one stop_two : StopBits

pub data Parity : Type 0 where
  no_parity odd even : Parity

pub data FlowControl : Type 0 where
  no_flow software hardware : FlowControl

-- `serialport::SerialPortBuilder`; `exclusive` is what was passed to the method, if it was called.
pub record Builder : Type 0 where
  pub path : List ℕ
  pub baud_rate : ℕ
  pub data_bits : DataBits
  pub stop_bits : StopBits
  pub parity : Parity
  pub flow_control : FlowControl
  pub exclusive : Option Bool

unfoldable pub data_bits_of : ℕ → IoResult DataBits
data_bits_of n =
    if n == 5
    then ok five
    else if n == 6
    then ok six
    else if n == 7
    then ok seven
    else if n == 8
    then ok eight
    else err (invalid "Invalid dataBits")

abbrev pub stop_bits_of : StopValue → IoResult StopBits
stop_bits_of one = ok stop_one
stop_bits_of one_and_half = ok stop_one
stop_bits_of two = ok stop_two
stop_bits_of (unlisted n) = err (invalid "Invalid stopBits")

-- `matches!(parity, "mark" | "space")`
abbrev pub is_mark_space : String → Bool
is_mark_space p = str_eq p "mark" || str_eq p "space"

unfoldable pub parity_of : String → IoResult Parity
parity_of p =
    if str_eq p "none" || is_mark_space p
    then ok no_parity
    else if str_eq p "odd"
    then ok odd
    else if str_eq p "even"
    then ok even
    else err (invalid "Invalid parity")

abbrev pub is_one_and_half : StopValue → Bool
is_one_and_half one_and_half = true
is_one_and_half value = false

-- An early return with this error.
abbrev pub refuse : Bool → IoError → IoResult (Unit {0})
refuse true e = err e
refuse false e = ok tt

abbrev pub unsupported : String → IoError
unsupported message = io_error ErrorKind.unsupported message

-- `path.contains('\0')`
abbrev pub has_zero : List ℕ → Bool
has_zero [] = false
has_zero (c ∷ cs) = c == 0 || has_zero cs

abbrev pub is_empty : List ℕ → Bool
is_empty [] = true
is_empty (c ∷ cs) = false

-- The checks that return early, from the first `#[cfg(unix)]` on.
unfoldable pub rejections : Target → NativeOptions → IoResult (Unit {0})
rejections target o = do
  refuse (is_unix target && is_one_and_half o.stop_bits)
      (unsupported "1.5 stop bits requires Windows")
  refuse (lacks_mark_space target && is_mark_space o.parity)
      (unsupported "Mark/space parity is not available on this platform")
  refuse (is_windows target && not o.lock) (unsupported "Windows requires exclusive serial access")
  refuse (is_empty o.path || has_zero o.path) (invalid "Invalid device path")
  refuse (o.baud_rate == 0) (invalid "Baud rate must be positive")

abbrev pub flow_of : NativeOptions → FlowControl
flow_of o = if o.rtscts then hardware else if o.xon then software else no_flow

abbrev pub builder_of : Target → NativeOptions → DataBits → StopBits → Parity → Builder
builder_of target o bits stops parity = record {
  path = o.path;
  baud_rate = o.baud_rate;
  data_bits = bits;
  stop_bits = stops;
  parity = parity;
  flow_control = flow_of o;
  exclusive = if is_unix target then some o.lock else none;
}

-- `open` up to the call of `platform::open`.
unfoldable pub prepared_builder : Target → NativeOptions → IoResult Builder
prepared_builder target o = do
  bits ← data_bits_of o.data_bits
  stops ← stop_bits_of o.stop_bits
  parity ← parity_of o.parity
  rejections target o
  ok (builder_of target o bits stops parity)

-- `open` and `configure` of src/platform.rs; `W` is the system that has the device.
pub record Opener (W T : Type 0) : Type 0 where
  pub open_device : Builder → W → W × IoResult T
  pub configure : NativeOptions → PortCall T (Unit {0})

module _ {W T : Type 0} (serial : Serial T) (opener : Opener W T) where
  -- The port, once its last call has succeeded.
  abbrev pub port_if : T × IoResult (Unit {0}) → IoResult T
  port_if (port, ok u) = ok port
  port_if (port, err e) = err e

  abbrev pub reapplied : NativeOptions → T × IoResult (Unit {0}) → IoResult T
  reapplied o (port, ok u) = port_if (set_baud_rate serial o.baud_rate port)
  reapplied o (port, err e) = err e

  abbrev pub configured : NativeOptions → W × IoResult T → W × IoResult T
  configured o (w, ok port) = (w, reapplied o (opener.configure o port))
  configured o (w, err e) = (w, err e)

  abbrev pub open_with : NativeOptions → W → IoResult Builder → W × IoResult T
  open_with o w (ok builder) = configured o (opener.open_device builder w)
  open_with o w (err e) = (w, err e)

  -- `open`
  unfoldable pub open_port : Target → NativeOptions → W → W × IoResult T
  open_port target o w = open_with o w (prepared_builder target o)
