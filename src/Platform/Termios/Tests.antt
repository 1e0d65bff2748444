-- ===== src/Platform/Termios/Tests.antt =====
-- A terminal with settings of its own, and instances of the theorems on src/platform.rs.
use node_serialport_rs.Prelude.{ℕ, ◌≡◌, refl, true, false, [], ◌∷◌}
use node_serialport_rs.Io.{ok, pending}
use node_serialport_rs.Serial.{Serial, pure}
use node_serialport_rs.Settings.{NativeOptions, one, linux}
use node_serialport_rs.Platform.Termios.{Termios, TermiosCalls, configure, set_baud_rate, baud_rate}
use node_serialport_rs.Platform.Termios.Flags.{Configures, configure-Configures}
use node_serialport_rs.Platform.Termios.Speed.{HasSpeeds, KeepsKind, set_baud_rate-KeepsKind}

-- The speed that the crate set, and the settings, of which `rest` is the speed.
record Terminal : Type 0 where
  own : ℕ
  settings : Termios ℕ

abbrev terminal : Terminal
terminal = record {
  own = 0;
  settings = record { input_flags = λ f. false; control_flags = λ f. false; rest = 9600 };
}

abbrev terminal_serial : Serial Terminal
terminal_serial = record {
  io = record { poll_read = λ p b. (p, b, pending); poll_write = λ p b. (p, pending) };
  try_read = λ p b. (p, b, ok 0);
  try_write = λ b p. (p, ok 0);
  drain_output = pure tt;
  bytes_to_write = pure 0;
  set_baud_rate = λ n p. (record p { own = n }, ok tt);
  baud_rate = λ p. (p, ok p.own);
  write_data_terminal_ready = λ b. pure tt;
  write_request_to_send = λ b. pure tt;
  set_break = pure tt;
  clear_break = pure tt;
  read_clear_to_send = pure true;
  read_data_set_ready = pure true;
  read_carrier_detect = pure true;
  clear_all = pure tt;
}

abbrev terminal_calls : TermiosCalls Terminal ℕ
terminal_calls = record {
  tcgetattr = λ p. (p, ok p.settings);
  tcsetattr = λ t p. (record p { settings = t }, ok tt);
  cfsetspeed = λ n t. ok (record t { rest = n });
  cfgetospeed = λ t. t.rest;
}

terminal_speeds : HasSpeeds terminal_serial terminal_calls (λ p. p.own)
terminal_speeds = record {
  baud_rate_keeps = λ p. refl;
  baud_rate_lem = λ p h. cc;
  set_baud_rate_lem = λ n p h. refl;
  tcgetattr_keeps = λ p. refl;
  tcsetattr_keeps = λ t p. refl;
}

-- The speed of a terminal that was opened with its speed left alone.
set_run :
    set_baud_rate terminal_serial terminal_calls 115200 terminal
    ≡ (record terminal { settings = record terminal.settings { rest = 115200 } }, ok tt)
unfolding set_baud_rate
set_run = refl

read_ok :
    (baud_rate terminal_serial terminal_calls
      (set_baud_rate terminal_serial terminal_calls 115200 terminal).0).1
    ≡ ok 115200
unfolding set_baud_rate baud_rate
read_ok = refl

set_baud_rate-KeepsKind_example :
    KeepsKind terminal_speeds 9600 115200
      (record terminal { own = 9600 })
      (set_baud_rate terminal_serial terminal_calls 115200 (record terminal { own = 9600 }))
set_baud_rate-KeepsKind_example =
    set_baud_rate-KeepsKind terminal_speeds 115200 (record terminal { own = 9600 })

abbrev marked : NativeOptions
marked = record {
  path = 47 ∷ [];
  baud_rate = 9600;
  data_bits = 8;
  stop_bits = one;
  parity = "mark";
  lock = true;
  rtscts = false;
  xon = true;
  xoff = false;
  xany = false;
  hupcl = true;
}

configure-Configures_example :
    Configures terminal_calls linux marked
      (terminal_calls.tcgetattr terminal)
      (configure terminal_calls linux marked terminal)
configure-Configures_example = configure-Configures terminal_calls linux marked terminal
