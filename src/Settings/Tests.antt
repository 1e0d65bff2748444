-- ===== src/Settings/Tests.antt =====
-- Runs of src/settings.rs and an instance of its theorem.
use node_serialport_rs.Prelude.{ℕ, ◌+◌, ◌≡◌, refl, [], ◌∷◌, true, false}
use node_serialport_rs.Io.{ok}
use node_serialport_rs.Error.{invalid}
use node_serialport_rs.Serial.{pure}
use node_serialport_rs.Settings.{
  linux, windows, one, NativeOptions, Opener, data_bits_of, parity_of, rejections, prepared_builder,
  open_port,
}
use node_serialport_rs.Settings.Checks.{Opens, open_port-Opens}
use node_serialport_rs.Platform.{set_baud_rate}
use node_serialport_rs.Wire.{Wire}
use node_serialport_rs.Wire.Device.{wire_serial}

abbrev options : NativeOptions
options = record {
  path = 47 ∷ 100 ∷ [];
  baud_rate = 9600;
  data_bits = 8;
  stop_bits = one;
  parity = "even";
  lock = false;
  rtscts = true;
  xon = false;
  xoff = false;
  xany = false;
  hupcl = true;
}

-- A system that counts how often it was asked for the device.
abbrev counting : Opener ℕ Wire
counting = record {
  open_device = λ b n. (n + 1, ok (record { input = []; taken = []; output = [] }));
  configure = λ o. pure tt;
}

opens_once : (open_port wire_serial counting linux options 0).0 ≡ 1
unfolding open_port prepared_builder data_bits_of parity_of rejections set_baud_rate invalid
opens_once = refl

-- Windows has no ports that are not locked.
rejects_shared : (open_port wire_serial counting windows options 0).0 ≡ 0
unfolding open_port prepared_builder data_bits_of parity_of rejections set_baud_rate invalid
rejects_shared = refl

open_port-Opens_example : Opens wire_serial counting linux options 0
open_port-Opens_example = open_port-Opens wire_serial counting linux options 0
