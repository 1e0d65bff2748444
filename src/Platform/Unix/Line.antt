-- ===== src/Platform/Unix/Line.antt =====
-- A concrete descriptor: the one-byte device, with readiness events and interrupting signals.
use node_serialport_rs.Prelude.{
  ℕ, zero, suc, ◌-◌, ◌<◌, ◌≡◌, refl, sym, ◌==◌, not, false, List, [], ◌∷◌, ◌++◌, append-nil, length,
  arith, if◌then◌else◌,
}
use node_serialport_rs.Io.{
  ErrorKind, IoError, IoResult, Result, io_error, ok, err, Poll, pending, ready,
}
use node_serialport_rs.Serial.{pure}
use node_serialport_rs.Transfer.Bytes.{moved, Fits}
use node_serialport_rs.Platform.Unix.{AsyncFd, SystemCalls, TtyPort, Errno, eintr}
use node_serialport_rs.Platform.Unix.Laws.{guarded, attempted, IsAsyncFd, AreSystemCalls, IsTtyPort}

pub record Line : Type 0 where
  pub input : List ℕ
  pub taken : List ℕ
  pub output : List ℕ
  pub noted : ℕ
  pub signals : ℕ

abbrev pub taken_of : Line → List ℕ
taken_of x = x.taken

abbrev pub output_of : Line → List ℕ
output_of x = x.output

abbrev pub noted_of : Line → ℕ
noted_of x = x.noted

abbrev pub signals_of : Line → ℕ
signals_of x = x.signals

abbrev blocked : IoError
blocked = io_error ErrorKind.would_block "would block"

abbrev ready_at : ℕ → Line → Line × Poll (IoResult (Unit {0}))
ready_at zero x = (x, pending)
ready_at (suc n) x = (x, ready (ok tt))

abbrev clear : Line → Line
clear x = record x { noted = x.noted - 1 }

abbrev line_read : List ℕ → Line → List ℕ → Line × List ℕ × IoResult ℕ
line_read [] x b = (x, b, err blocked)
line_read (c ∷ i) x [] = (x, [], ok 0)
line_read (c ∷ i) x (d ∷ b) = (record x { input = i; taken = x.taken ++ (c ∷ []) }, c ∷ b, ok 1)

abbrev line_write : Line → List ℕ → Line × List ℕ × IoResult ℕ
line_write x [] = (x, [], ok 0)
line_write x (c ∷ b) = (record x { output = x.output ++ (c ∷ []) }, c ∷ b, ok 1)

abbrev line_drain : ℕ → Line → Line × Result (Unit {0}) Errno
line_drain zero x = (x, ok tt)
line_drain (suc n) x = (record x { signals = n }, err eintr)

abbrev pub line_fd : AsyncFd Line
line_fd = record {
  poll_read_ready = λ x. ready_at x.noted x;
  poll_write_ready = λ x. ready_at x.noted x;
  guard_io = λ f x b. guarded clear (f x b);
  try_io = λ f x b. if not (x.noted == 0) then attempted clear (f x b) else (x, b, err blocked);
}

abbrev pub line_calls : SystemCalls Line
line_calls = record {
  read = λ x b. line_read x.input x b;
  write = line_write;
  tcdrain = λ x. line_drain x.signals x;
  error_of = λ e. io_error ErrorKind.other "system call";
}

abbrev pub line_tty : TtyPort Line
line_tty = record {
  bytes_to_write = pure 0;
  set_baud_rate = λ n. pure tt;
  baud_rate = pure 9600;
  write_data_terminal_ready = λ b. pure tt;
  write_request_to_send = λ b. pure tt;
  set_break = pure tt;
  clear_break = pure tt;
  read_clear_to_send = pure false;
  read_data_set_ready = pure false;
  read_carrier_detect = pure false;
  clear_all = pure tt;
}

ready_law :
    (n : ℕ) (x : Line)
    → n ≡ x.noted
    → ((ready_at n x).0 ≡ x) × ((ready_at n x).1 ≡ ready (ok tt) → 0 < x.noted)
ready_law zero x e = (refl, λ h. cc)
ready_law (suc n) x e = (refl, λ h. omega arith)

pub line_fd_lawful : IsAsyncFd line_fd taken_of output_of noted_of
line_fd_lawful = record {
  clear_ready = clear;
  is_ready = λ x. not (x.noted == 0);
  blocked = blocked;
  read_ready_received = λ x. rw ((ready_law x.noted x refl).0);
  read_ready_sent = λ x. rw ((ready_law x.noted x refl).0);
  read_ready_events = λ x. rw ((ready_law x.noted x refl).0) (omega arith);
  read_ready_some = λ x h. rw ((ready_law x.noted x refl).0) ((ready_law x.noted x refl).1 h);
  write_ready_received = λ x. rw ((ready_law x.noted x refl).0);
  write_ready_sent = λ x. rw ((ready_law x.noted x refl).0);
  write_ready_events = λ x. rw ((ready_law x.noted x refl).0) (omega arith);
  write_ready_some = λ x h. rw ((ready_law x.noted x refl).0) ((ready_law x.noted x refl).1 h);
  clear_received = λ x. refl;
  clear_sent = λ x. refl;
  clear_events = λ x. refl;
  guard_io_lem = λ f x b. refl;
  try_io_lem = λ f x b. refl;
}

read_law :
    (i : List ℕ) (x : Line) (b : List ℕ)
    → let r = line_read i x b in
      (r.0.taken ≡ x.taken ++ moved (ready r.2) r.1)
      × (r.0.output ≡ x.output)
      × (r.0.noted ≡ x.noted)
      × Fits (ready r.2) (length b)
      × (length r.1 ≡ length b)
read_law [] x b = (sym (append-nil x.taken), refl, refl, tt, refl)
read_law (c ∷ i) x [] = (sym (append-nil x.taken), refl, refl, omega arith, refl)
read_law (c ∷ i) x (d ∷ b) = (refl, refl, refl, omega arith, refl)

write_law :
    (x : Line) (b : List ℕ)
    → let r = line_write x b in
      (r.0.output ≡ x.output ++ moved (ready r.2) b)
      × (r.0.taken ≡ x.taken)
      × (r.0.noted ≡ x.noted)
      × Fits (ready r.2) (length b)
      × (r.1 ≡ b)
write_law x [] = (sym (append-nil x.output), refl, refl, omega arith, refl)
write_law x (c ∷ b) = (refl, refl, refl, omega arith, refl)

drain_law :
    (n : ℕ) (x : Line)
    → n ≡ x.signals
    → let r = line_drain n x in
      (r.0.taken ≡ x.taken) × (r.0.output ≡ x.output) × (r.1 ≡ err eintr → r.0.signals < x.signals)
drain_law zero x e = (refl, refl, λ h. cc)
drain_law (suc n) x e = (refl, refl, λ h. omega arith)

pub line_calls_lawful : AreSystemCalls line_calls taken_of output_of noted_of signals_of
line_calls_lawful = record {
  read_received = λ x b. (read_law x.input x b).0;
  read_sent = λ x b. (read_law x.input x b).1;
  read_events = λ x b. (read_law x.input x b).2;
  read_fits = λ x b. (read_law x.input x b).3;
  read_length = λ x b. (read_law x.input x b).4;
  write_sent = λ x b. (write_law x b).0;
  write_received = λ x b. (write_law x b).1;
  write_events = λ x b. (write_law x b).2;
  write_fits = λ x b. (write_law x b).3;
  write_slice = λ x b. (write_law x b).4;
  tcdrain_received = λ x. (drain_law x.signals x refl).0;
  tcdrain_sent = λ x. (drain_law x.signals x refl).1;
  tcdrain_signals = λ x. (drain_law x.signals x refl).2;
}

pub line_tty_lawful : IsTtyPort line_tty taken_of output_of
line_tty_lawful = record {
  bytes_to_write_quiet = λ p. (refl, refl);
  set_baud_rate_quiet = λ n p. (refl, refl);
  baud_rate_quiet = λ p. (refl, refl);
  dtr_quiet = λ b p. (refl, refl);
  rts_quiet = λ b p. (refl, refl);
  set_break_quiet = λ p. (refl, refl);
  clear_break_quiet = λ p. (refl, refl);
  cts_quiet = λ p. (refl, refl);
  dsr_quiet = λ p. (refl, refl);
  dcd_quiet = λ p. (refl, refl);
  clear_quiet = λ p. (refl, refl);
}
