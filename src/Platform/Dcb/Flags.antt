-- ===== src/Platform/Dcb/Flags.antt =====
-- Which state `configure` of src/platform.rs writes in the build for Windows, flag by flag.
use node_serialport_rs.Prelude.{
  String, ℕ, zero, suc, ◌-◌, ◌*◌, ◌/◌, ◌%◌, ◌^◌, ◌<◌, ◌≡◌, refl, ap, ap₂, ◌∙◌, ◌==◌, not, ◌||◌,
  if◌then◌else◌, Bool, true, false, List, [], ◌∷◌, All, arith, bit_and, min, max,
}
use node_serialport_rs.Io.{IoResult, ok, err}
use node_serialport_rs.Serial.{after}
use node_serialport_rs.Settings.{NativeOptions, StopValue, one, one_and_half, two}
use node_serialport_rs.Bits.{digit, digit_zero, digit_bound, digit-bit_and, digit-bit_or}
use node_serialport_rs.Platform.Dcb.{
  Dcb, CommCalls, parity_code, stop_code, bit_of, with_flag, with_flags, flags_of, changed,
  configure,
}
use native.Mathlib.Nat.{pow-suc}
use text.Mathlib.Text.{◌==◌ as str_eq}

power_positive : (w : ℕ) → 0 < 2 ^ w
power_positive zero = omega arith
power_positive (suc w) = omega (arith, pow-suc 2 w, power_positive w)

power_less : (b w : ℕ) → b < w → 2 ^ b < 2 ^ w
power_less b zero h = absurd (omega arith)
power_less zero (suc w) h = omega (arith, pow-suc 2 w, power_positive w)
power_less (suc b) (suc w) h = omega (arith, pow-suc 2 w, pow-suc 2 b, power_less b w (omega arith))

digit_ones : (w i : ℕ) → i < w → digit i (2 ^ w - 1) ≡ 1
digit_ones zero i h = absurd (omega arith)
digit_ones (suc w) zero h = omega (arith, pow-suc 2 w, power_positive w)
digit_ones (suc w) (suc i) h =
    ap (digit i) {x = (2 ^ suc w - 1) / 2} {y = 2 ^ w - 1} (omega (arith, pow-suc 2 w))
    ∙ digit_ones w i (omega arith)

-- The digits of a power of two, and of all ones but one.
digit_power : (b i : ℕ) → digit i (2 ^ b) ≡ bit_of (i == b)
digit_power zero zero = refl
digit_power zero (suc i) = digit_zero i ∙ ap bit_of {x = false} {y = suc i == 0} (ground arith)
digit_power (suc b) zero =
    omega (arith, pow-suc 2 b) ∙ ap bit_of {x = false} {y = 0 == suc b} (ground arith)
digit_power (suc b) (suc i) =
    ap (digit i) {x = 2 ^ suc b / 2} {y = 2 ^ b} (omega (arith, pow-suc 2 b))
    ∙ digit_power b i
    ∙ ap bit_of {x = i == b} {y = suc i == suc b} (ground arith)

digit_mask : (w b i : ℕ) → b < w → i < w → digit i (2 ^ w - 1 - 2 ^ b) ≡ bit_of (not (i == b))
digit_mask zero b i h k = absurd (omega arith)
digit_mask (suc w) zero zero h k = omega (arith, pow-suc 2 w, power_positive w)
digit_mask (suc w) zero (suc i) h k =
    ap (digit i) {x = (2 ^ suc w - 1 - 2 ^ 0) / 2} {y = 2 ^ w - 1} (omega (arith, pow-suc 2 w))
    ∙ digit_ones w i (omega arith)
    ∙ ap bit_of {x = true} {y = not (suc i == 0)} (ground arith)
digit_mask (suc w) (suc b) zero h k =
    omega (arith, pow-suc 2 w, pow-suc 2 b, power_less b w (omega arith))
    ∙ ap bit_of {x = true} {y = not (0 == suc b)} (ground arith)
digit_mask (suc w) (suc b) (suc i) h k =
    ap (digit i) {x = (2 ^ suc w - 1 - 2 ^ suc b) / 2} {y = 2 ^ w - 1 - 2 ^ b}
      (omega (arith, pow-suc 2 w, pow-suc 2 b))
    ∙ digit_mask w b i (omega arith) (omega arith)
    ∙ ap bit_of {x = not (i == b)} {y = not (suc i == suc b)} (ground arith)

digit_value :
    (value : Bool) (b i : ℕ) → digit i (bit_of value * 2 ^ b) ≡ min (bit_of value) (bit_of (i == b))
digit_value true b i =
    ap (digit i) {x = 1 * 2 ^ b} {y = 2 ^ b} (omega arith) ∙ digit_power b i ∙ ground arith
digit_value false b i =
    ap (digit i) {x = 0 * 2 ^ b} {y = 0} (omega arith) ∙ digit_zero i ∙ omega arith

chosen :
    (here value : Bool) (d : ℕ)
    → d < 2
    → max (min d (bit_of (not here))) (min (bit_of value) (bit_of here))
      ≡ (if here then bit_of value else d)
chosen true true d h = omega arith
chosen true false d h = omega arith
chosen false true d h = omega arith
chosen false false d h = omega arith

-- One flag is set, and no other digit is touched.
digit-with_flag :
    (bit : ℕ) (value : Bool) (bits i : ℕ)
    → bit < 32
    → i < 32
    → digit i (with_flag bit value bits) ≡ (if i == bit then bit_of value else digit i bits)
unfolding with_flag
digit-with_flag bit value bits i h k =
    digit-bit_or i (bit_and bits (2 ^ 32 - 1 - 2 ^ bit)) (bit_of value * 2 ^ bit)
    ∙ ap₂ max
        (digit-bit_and i bits (2 ^ 32 - 1 - 2 ^ bit)
          ∙ ap (min (digit i bits)) (digit_mask 32 bit i h k))
        (digit_value value bit i)
    ∙ chosen (i == bit) value (digit i bits) (digit_bound i bits)

abbrev last_of : ℕ → List (ℕ × Bool) → ℕ → ℕ
last_of i [] d = d
last_of i ((bit, value) ∷ flags) d = last_of i flags (if i == bit then bit_of value else d)

abbrev InRange : List (ℕ × Bool) → Type 0
InRange = All (λ (f : ℕ × Bool). f.0 < 32)

digit-with_flags :
    (flags : List (ℕ × Bool)) (bits i : ℕ)
    → InRange flags
    → i < 32
    → digit i (with_flags flags bits) ≡ last_of i flags (digit i bits)
unfolding with_flags
digit-with_flags [] bits i h k = refl
digit-with_flags ((bit, value) ∷ flags) bits i h k =
    digit-with_flags flags (with_flag bit value bits) i h.1 k
    ∙ ap (last_of i flags) (digit-with_flag bit value bits i h.0 k)

-- Whether `configure` is about this digit.
abbrev pub is_set_by_options : ℕ → Bool
is_set_by_options i = i == 1 || (i == 2 || (i == 4 || (i == 5 || (i == 8 || i == 9))))

last_of-other :
    (o : NativeOptions) (i d : ℕ) → is_set_by_options i ≡ false → last_of i (flags_of o) d ≡ d
last_of-other o i d h = ground arith

-- The values of the fields `Parity` and `StopBits` in the documentation of `DCB`.
pub record HasParity (name : String) (parity : ℕ) : Type 0 where
  pub odd : name ≡ "odd" → parity ≡ 1
  pub even : name ≡ "even" → parity ≡ 2
  pub mark : name ≡ "mark" → parity ≡ 3
  pub space : name ≡ "space" → parity ≡ 4
  pub none :
      str_eq name "odd" ≡ false
      → str_eq name "even" ≡ false
      → str_eq name "mark" ≡ false
      → str_eq name "space" ≡ false
      → parity ≡ 0

pub record HasStopBits (bits : StopValue) (code : ℕ) : Type 0 where
  pub for_one : bits ≡ one → code ≡ 0
  pub for_one_and_half : bits ≡ one_and_half → code ≡ 1
  pub for_two : bits ≡ two → code ≡ 2

parity_code-HasParity : (name : String) → HasParity name (parity_code name)
parity_code-HasParity name = record {
  odd = λ e. ap parity_code e;
  even = λ e. ap parity_code e;
  mark = λ e. ap parity_code e;
  space = λ e. ap parity_code e;
  none = λ a b c d. ground arith;
}

stop_code-HasStopBits : (bits : StopValue) → HasStopBits bits (stop_code bits)
stop_code-HasStopBits bits = record {
  for_one = λ e. ap stop_code e;
  for_one_and_half = λ e. ap stop_code e;
  for_two = λ e. ap stop_code e;
}

module _ {R : Type 0} where
  -- The state has the settings of the options, flag by flag, and nothing else is changed.
  pub record HasState (o : NativeOptions) (old new : Dcb R) : Type 0 where
    pub baud_rate_lem : new.baud_rate ≡ o.baud_rate
    pub byte_size_lem : new.byte_size ≡ o.data_bits % 256
    pub parity_lem : HasParity o.parity new.parity
    pub stop_bits_lem : HasStopBits o.stop_bits new.stop_bits
    pub parity_flag_lem : digit 1 new.bitfield ≡ bit_of (not (new.parity == 0))
    pub rts_cts_lem : digit 2 new.bitfield ≡ bit_of o.rtscts
    pub dtr_lem : digit 4 new.bitfield ≡ bit_of o.hupcl
    pub dtr_handshake_lem : digit 5 new.bitfield ≡ 0
    pub out_x_lem : digit 8 new.bitfield ≡ bit_of o.xon
    pub in_x_lem : digit 9 new.bitfield ≡ bit_of o.xoff
    pub others_lem :
        (i : ℕ) → i < 32 → is_set_by_options i ≡ false → digit i new.bitfield ≡ digit i old.bitfield
    pub rest_lem : new.rest ≡ old.rest

  listed :
      (o : NativeOptions) (old : Dcb R) (i : ℕ)
      → i < 32
      → digit i (changed o old).bitfield ≡ last_of i (flags_of o) (digit i old.bitfield)
  listed o old i h =
      digit-with_flags (flags_of o) old.bitfield i
        (omega arith, (omega arith, (omega arith, (omega arith, (omega arith, (omega arith, tt))))))
        h

  changed-HasState : (o : NativeOptions) (old : Dcb R) → HasState o old (changed o old)
  changed-HasState o old = record {
    baud_rate_lem = refl;
    byte_size_lem = refl;
    parity_lem = parity_code-HasParity o.parity;
    stop_bits_lem = stop_code-HasStopBits o.stop_bits;
    parity_flag_lem = listed o old 1 (omega arith);
    rts_cts_lem = listed o old 2 (omega arith);
    dtr_lem = listed o old 4 (omega arith);
    dtr_handshake_lem = listed o old 5 (omega arith);
    out_x_lem = listed o old 8 (omega arith);
    in_x_lem = listed o old 9 (omega arith);
    others_lem = λ i h k. listed o old i h ∙ last_of-other o i (digit i old.bitfield) k;
    rest_lem = refl;
  }

module _ {T R : Type 0} (calls : CommCalls T R) where
  abbrev pub WritesState : NativeOptions → T × IoResult (Dcb R) → T × IoResult (Unit {0}) → Type 0
  WritesState o (p, ok old) r =
      (new : Dcb R) × HasState o old new × (r ≡ calls.set_comm_state new p)
  WritesState o (p, err e) r = r ≡ (p, err e)

  written-WritesState :
      (o : NativeOptions) (a : T × IoResult (Dcb R))
      → WritesState o a (after a (λ state. calls.set_comm_state (changed o state)))
  written-WritesState o (p, ok old) = (changed o old, changed-HasState o old, refl)
  written-WritesState o (p, err e) = refl

  -- Where the state of a port can be read, it is written back once, with the rate, the data bits, the
  -- parity, the stop bits and the six flags of the options, and with every other flag and field as
  -- they were; where it cannot, that error is the result and nothing is written.
  pub configure-WritesState :
      (o : NativeOptions) (port : T)
      → WritesState o (calls.get_comm_state port) (configure calls o port)
  unfolding configure
  configure-WritesState o port = written-WritesState o (calls.get_comm_state port)
