-- ===== src/Platform/Unix/Tests.antt =====
-- Runs of src/platform/unix.rs and instances of its theorems.
use node_serialport_rs.Prelude.{ℕ, ◌+◌, ◌==◌, if◌then◌else◌, ◌≡◌, refl, [], ◌∷◌, some, true, arith}
use node_serialport_rs.Io.{ErrorKind, io_error, ok, err, pending}
use node_serialport_rs.Serial.Laws.{IsSerial}
use node_serialport_rs.Settings.{Builder, eight, stop_one, no_parity, no_flow}
use node_serialport_rs.Platform.Unix.{io_loop, poll_read, poll_write, drain_loop, unix_serial}
use node_serialport_rs.Platform.Unix.Stream.{unix_serial-IsSerial}
use node_serialport_rs.Platform.Unix.Total.{loops_total}
use node_serialport_rs.Platform.Unix.Open.{
  TtyOpener, IsFcntl, open_stream, platform_open, OpensFrom, open_stream-OpensFrom,
}
use node_serialport_rs.Platform.Unix.Line.{
  Line, line_fd, line_calls, line_tty, line_fd_lawful, line_calls_lawful, line_tty_lawful, taken_of,
  output_of, noted_of, signals_of,
}

-- Two events are noted, and nothing is there to be read.
abbrev idle : Line
idle = record { input = []; taken = []; output = []; noted = 2; signals = 3 }

-- The loop clears both and then waits.
waits :
    (poll_read line_fd line_calls 3 idle (0 ∷ []))
    ≡ some (record idle { noted = 0 }, 0 ∷ [], pending)
unfolding poll_read io_loop
waits = refl

drains : drain_loop line_calls 4 idle ≡ some (record idle { signals = 0 }, ok tt)
unfolding drain_loop
drains = refl

unix_serial-IsSerial_example :
    IsSerial (unix_serial line_fd line_calls line_tty noted_of signals_of) taken_of output_of
unix_serial-IsSerial_example =
    unix_serial-IsSerial line_fd line_calls line_tty line_fd_lawful line_calls_lawful
      line_tty_lawful

loops_total_example :
    let stream = unix_serial line_fd line_calls line_tty noted_of signals_of in
    (poll_read line_fd line_calls 4 idle (0 ∷ []) ≡ some (stream.io.poll_read idle (0 ∷ [])))
    × (let w = stream.io.poll_write idle (0 ∷ []) in
        poll_write line_fd line_calls 4 idle (0 ∷ []) ≡ some (w.0, 0 ∷ [], w.1))
    × (drain_loop line_calls 4 idle ≡ some (stream.drain_output idle))
loops_total_example =
    loops_total line_fd line_calls line_tty line_fd_lawful line_calls_lawful line_tty_lawful 4 idle
      (0 ∷ []) (omega arith) (omega arith)

-- A system whose ports are their flags; a speed of its own is refused.
abbrev flags_only : TtyOpener ℕ ℕ ℕ
flags_only = record {
  open_tty = λ b w.
      (w + 1, if b.baud_rate == 0 then ok 2 else err (record { kind = 0; description = "ENOTTY" }));
  get_flags = λ p. (p, ok p);
  set_flags = λ n p. (n, ok tt);
  register = λ p. ok p;
  nonblock = 2048;
  port_error = λ e. record { kind = 1; description = e.message };
  io_error_of = λ e. io_error ErrorKind.other e.description;
}

abbrev posix : Builder
posix = record {
  path = 47 ∷ [];
  baud_rate = 0;
  data_bits = eight;
  stop_bits = stop_one;
  parity = no_parity;
  flow_control = no_flow;
  exclusive = some true;
}

-- On macOS the open is tried again with the speed left alone.
retries :
    platform_open flags_only true "ENOTTY" (record posix { baud_rate = 9600 }) 0 ≡ (2, ok 2050)
unfolding platform_open open_stream
retries = refl

flags_lawful : IsFcntl flags_only (λ i. true) (λ p. p) (λ x. x)
flags_lawful = record {
  get_flags_lem = λ p h. cc;
  get_flags_keeps = λ p. refl;
  set_flags_lem = λ n p h i. refl;
  nonblock_settable = λ i h. absurd cc;
  register_keeps = λ p h. cc;
}

open_stream-OpensFrom_example :
    OpensFrom flags_only flags_lawful (ok 2) (open_stream flags_only posix 0).1
open_stream-OpensFrom_example = open_stream-OpensFrom flags_only flags_lawful posix 0
