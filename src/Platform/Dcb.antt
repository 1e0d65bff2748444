-- ===== src/Platform/Dcb.antt =====
-- src/platform.rs, `configure` in the build for Windows, and the state of a port that it writes.
pub mod Flags
mod Tests
use node_serialport_rs.Prelude.{
  ℕ, ◌+◌, ◌-◌, ◌*◌, ◌%◌, ◌^◌, ◌==◌, not, if◌then◌else◌, Bool, true, false, String, List, [], ◌∷◌,
  bit_and, bit_or,
}
use node_serialport_rs.Io.{IoResult}
use node_serialport_rs.Serial.{PortCall, after}
use node_serialport_rs.Settings.{NativeOptions, StopValue, one, one_and_half, two, unlisted}
use text.Mathlib.Text.{◌==◌ as str_eq}

-- `DCB`; `rest` are the fields that the code does not name.
pub record Dcb (R : Type 0) : Type 0 where
  pub baud_rate : ℕ
  pub bitfield : ℕ
  pub byte_size : ℕ
  pub parity : ℕ
  pub stop_bits : ℕ
  pub rest : R

-- `GetCommState` and `SetCommState`, with the last error of the system where they fail.
pub record CommCalls (T R : Type 0) : Type 0 where
  pub get_comm_state : PortCall T (Dcb R)
  pub set_comm_state : Dcb R → PortCall T (Unit {0})

abbrev pub parity_code : String → ℕ
parity_code p =
    if str_eq p "odd"
    then 1
    else if str_eq p "even"
    then 2
    else if str_eq p "mark"
    then 3
    else if str_eq p "space"
    then 4
    else 0

abbrev pub stop_code : StopValue → ℕ
stop_code one_and_half = 1
stop_code two = 2
stop_code one = 0
stop_code (unlisted n) = 0

abbrev pub bit_of : Bool → ℕ
bit_of true = 1
bit_of false = 0

-- `(bits & !(1 << bit)) | (u32::from(value) << bit)`
unfoldable pub with_flag : ℕ → Bool → ℕ → ℕ
with_flag bit value bits = bit_or (bit_and bits (2 ^ 32 - 1 - 2 ^ bit)) (bit_of value * 2 ^ bit)

-- The loop over the flags.
unfoldable pub with_flags : List (ℕ × Bool) → ℕ → ℕ
unfolding with_flag
with_flags [] bits = bits
with_flags ((bit, value) ∷ flags) bits = with_flags flags (with_flag bit value bits)

abbrev pub flags_of : NativeOptions → List (ℕ × Bool)
flags_of o =
    (1, not (parity_code o.parity == 0))
    ∷ (2, o.rtscts)
    ∷ (4, o.hupcl)
    ∷ (5, false)
    ∷ (8, o.xon)
    ∷ (9, o.xoff)
    ∷ []

-- The state that is written.
abbrev pub changed : {R : Type 0} → NativeOptions → Dcb R → Dcb R
changed o state = record state {
  baud_rate = o.baud_rate;
  byte_size = o.data_bits % 256;
  parity = parity_code o.parity;
  stop_bits = stop_code o.stop_bits;
  bitfield = with_flags (flags_of o) state.bitfield;
}

module _ {T R : Type 0} (calls : CommCalls T R) where
  -- `configure`
  unfoldable pub configure : NativeOptions → PortCall T (Unit {0})
  unfolding with_flags
  configure o port =
      after (calls.get_comm_state port) (λ state. calls.set_comm_state (changed o state))
