-- ===== src/Platform/Windows/Tests.antt =====
-- A system that counts its handles, and an instance of the theorem on src/platform/windows.rs.
use node_serialport_rs.Prelude.{
  ℕ, ◌+◌, ◌-◌, ◌==◌, ◌≡◌, refl, if◌then◌else◌, some, true, List, [], ◌∷◌,
}
use node_serialport_rs.Io.{ErrorKind, io_error, ok, err}
use node_serialport_rs.Settings.{Builder, eight, stop_one, no_parity, no_flow}
use node_serialport_rs.Platform.Windows.{WindowsCalls, open_stream}
use node_serialport_rs.Platform.Windows.Handles.{CountsHandles, Holds, open_stream-Holds}

-- The state is the number of handles; setting the timeouts fails where `n` are open.
abbrev counter : ℕ → WindowsCalls ℕ (List ℕ) ℕ ℕ ℕ
counter n = record {
  open_com = λ b w. (w + 1, ok b.path);
  name = λ p. some p;
  get_state = λ p w. (w, ok 5);
  close_com = λ p w. w - 1;
  open_file = λ path w. (w + 1, ok w);
  set_state = λ h s w. (w, ok tt);
  set_timeouts = λ h t w. (w, if w == n then err (io_error ErrorKind.other "timeouts") else ok tt);
  clone = λ h w. (w + 1, ok w);
  close_file = λ h w. w - 1;
  register = λ h w. (w, ok h);
  port_error = λ e. record { kind = 1; description = e.message };
  no_device = 0;
}

abbrev builder : Builder
builder = record {
  path = b'C' ∷ [];
  baud_rate = 9600;
  data_bits = eight;
  stop_bits = stop_one;
  parity = no_parity;
  flow_control = no_flow;
  exclusive = some true;
}

open_run : open_stream (counter 9) builder 0 ≡ (2, ok (record { io = 0; control = 1 }))
unfolding open_stream
open_run = refl

fail_run :
    open_stream (counter 1) builder 0 ≡ (0, err (record { kind = 1; description = "timeouts" }))
unfolding open_stream
fail_run = refl

counter-counts : (n : ℕ) → CountsHandles (counter n) (λ w. w)
counter-counts n = record {
  open_com_ok = λ b w h. refl;
  open_com_err = λ b w h. absurd cc;
  get_state_keeps = λ p w. refl;
  close_com_lem = λ p w. refl;
  open_file_ok = λ path w h. refl;
  open_file_err = λ path w h. absurd cc;
  set_state_keeps = λ h s w. refl;
  set_timeouts_keeps = λ h t w. refl;
  clone_ok = λ h w k. refl;
  clone_err = λ h w k. absurd cc;
  close_file_lem = λ h w. refl;
  register_ok = λ h w k. refl;
  register_err = λ h w k. absurd cc;
}

open_stream-Holds_example :
    Holds (counter 1) (counter-counts 1) 0 (open_stream (counter 1) builder 0)
open_stream-Holds_example = open_stream-Holds (counter 1) (counter-counts 1) builder 0
