-- ===== src/Platform/Termios.antt =====
-- src/platform.rs in the builds for Unix: `configure`, and the baud rate in the build for macOS.
pub mod Flags
pub mod Speed
mod Tests
use node_serialport_rs.Prelude.{ℕ, ◌==◌, ◌||◌, if◌then◌else◌, Bool, true, false}
use node_serialport_rs.Io.{IoError, IoResult, ok, err}
use node_serialport_rs.Error.{invalid}
use node_serialport_rs.Serial.{Serial, PortCall, after, pure}
use node_serialport_rs.Settings.{
  NativeOptions, Target, linux, android, other_unix, windows, is_mark_space,
}
use text.Mathlib.Text.{◌==◌ as str_eq}

-- `InputFlags` and `ControlFlags`, by the flags that the code names; the others by a number.
pub data InputFlag : Type 0 where
  ixon ixoff ixany : InputFlag
  other_input : ℕ → InputFlag

pub data ControlFlag : Type 0 where
  hupcl cmspar parenb parodd : ControlFlag
  other_control : ℕ → ControlFlag

abbrev pub same_input : InputFlag → InputFlag → Bool
same_input ixon ixon = true
same_input ixoff ixoff = true
same_input ixany ixany = true
same_input (other_input m) (other_input n) = m == n
same_input f g = false

abbrev pub same_control : ControlFlag → ControlFlag → Bool
same_control hupcl hupcl = true
same_control cmspar cmspar = true
same_control parenb parenb = true
same_control parodd parodd = true
same_control (other_control m) (other_control n) = m == n
same_control f g = false

-- `termios::Termios`; `rest` is what the code does not look at.
pub record Termios (R : Type 0) : Type 0 where
  pub input_flags : InputFlag → Bool
  pub control_flags : ControlFlag → Bool
  pub rest : R

-- The methods `set` of the two kinds of flags.
abbrev pub set_input : {R : Type 0} → InputFlag → Bool → Termios R → Termios R
set_input f value t = record t {
  input_flags = λ g. if same_input g f then value else t.input_flags g;
}

abbrev pub set_control : {R : Type 0} → ControlFlag → Bool → Termios R → Termios R
set_control f value t = record t {
  control_flags = λ g. if same_control g f then value else t.control_flags g;
}

-- `tcgetattr`, `tcsetattr` and the speeds of the settings.
pub record TermiosCalls (T R : Type 0) : Type 0 where
  pub tcgetattr : PortCall T (Termios R)
  pub tcsetattr : Termios R → PortCall T (Unit {0})
  pub cfsetspeed : ℕ → Termios R → IoResult (Termios R)
  pub cfgetospeed : Termios R → ℕ

abbrev pub with_parity : {R : Type 0} → Bool → Bool → Termios R → Termios R
with_parity sticky mark t =
    let t1 = set_control cmspar sticky t in
    let t2 = set_control parodd mark (set_control parenb true t1) in if sticky then t2 else t1

-- The block for Linux and Android.
abbrev pub with_sticky : {R : Type 0} → Target → NativeOptions → Termios R → Termios R
with_sticky linux o t = with_parity (is_mark_space o.parity) (str_eq o.parity "mark") t
with_sticky android o t = with_parity (is_mark_space o.parity) (str_eq o.parity "mark") t
with_sticky other_unix o t = t
with_sticky windows o t = t

-- The settings that `configure` writes.
abbrev pub changed : {R : Type 0} → Target → NativeOptions → Termios R → Termios R
changed target o t = with_sticky target o (
    set_control hupcl o.hupcl
      (set_input ixany o.xany (set_input ixoff o.xoff (set_input ixon o.xon t))))

module _ {T R : Type 0} (calls : TermiosCalls T R) where
  -- `configure`
  unfoldable pub configure : Target → NativeOptions → PortCall T (Unit {0})
  configure target o port = after (calls.tcgetattr port) (λ t. calls.tcsetattr (changed target o t))

module _ {T R : Type 0} (serial : Serial T) (calls : TermiosCalls T R) where
  abbrev pub with_speed : IoResult (Termios R) → PortCall T (Unit {0})
  with_speed (ok t) port = calls.tcsetattr t port
  with_speed (err e) port = (port, err e)

  abbrev pub set_speed : ℕ → ℕ → PortCall T (Unit {0})
  set_speed speed current port =
      if current == 0
      then after (calls.tcgetattr port) (λ t. with_speed (calls.cfsetspeed speed t))
      else serial.set_baud_rate speed port

  -- `set_baud_rate`
  unfoldable pub set_baud_rate : ℕ → PortCall T (Unit {0})
  set_baud_rate speed port =
      if speed == 0
      then (port, err (invalid "Baud rate must be positive"))
      else after (serial.baud_rate port) (set_speed speed)

  abbrev pub posix_speed : ℕ → PortCall T ℕ
  posix_speed speed port =
      if speed == 0
      then after (calls.tcgetattr port) (λ t. pure (calls.cfgetospeed t))
      else pure speed port

  -- `baud_rate`
  unfoldable pub baud_rate : PortCall T ℕ
  baud_rate port = after (serial.baud_rate port) posix_speed
