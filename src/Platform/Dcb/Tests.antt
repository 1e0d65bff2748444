-- ===== src/Platform/Dcb/Tests.antt =====
-- A port that is its state, and an instance of the theorem on `configure` of src/platform.rs.
use node_serialport_rs.Prelude.{ℕ, ◌≡◌, refl, true, false, [], ◌∷◌}
use node_serialport_rs.Io.{ok}
use node_serialport_rs.Settings.{NativeOptions, two}
use node_serialport_rs.Platform.Dcb.{Dcb, CommCalls, configure, with_flags}
use node_serialport_rs.Platform.Dcb.Flags.{WritesState, configure-WritesState}

abbrev state_calls : CommCalls (Dcb ℕ) ℕ
state_calls = record { get_comm_state = λ p. (p, ok p); set_comm_state = λ new p. (new, ok tt) }

-- All flags of the state are set.
abbrev full : Dcb ℕ
full = record {
  baud_rate = 1200;
  bitfield = 4294967295;
  byte_size = 7;
  parity = 0;
  stop_bits = 0;
  rest = 5;
}

abbrev spaced : NativeOptions
spaced = record {
  path = 67 ∷ [];
  baud_rate = 9600;
  data_bits = 8;
  stop_bits = two;
  parity = "space";
  lock = true;
  rtscts = false;
  xon = true;
  xoff = false;
  xany = false;
  hupcl = true;
}

-- The flags 2, 5 and 9 are cleared.
configure_run : configure state_calls spaced full ≡ (
  record {
    baud_rate = 9600;
    bitfield = 4294966747;
    byte_size = 8;
    parity = 4;
    stop_bits = 2;
    rest = 5;
  },
  ok tt,
)
unfolding configure with_flags
configure_run = refl

configure-WritesState_example :
    WritesState state_calls spaced
      (state_calls.get_comm_state full)
      (configure state_calls spaced full)
configure-WritesState_example = configure-WritesState state_calls spaced full
