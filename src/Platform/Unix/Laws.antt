-- ===== src/Platform/Unix/Laws.antt =====
-- What src/platform/unix.rs relies on: the documented behaviour of `AsyncFd`, of the system calls
-- and of `TTYPort`.
use node_serialport_rs.Prelude.{
  ℕ, ◌-◌, ◌≤◌, ◌<◌, ◌≡◌, List, ◌++◌, Bool, true, false, Option, none, some, if◌then◌else◌, length,
}
use node_serialport_rs.Io.{IoError, IoResult, ok, err, ready, would_block}
use node_serialport_rs.Transfer.Bytes.{moved, Fits}
use node_serialport_rs.Serial.Laws.{IsQuiet}
use node_serialport_rs.Platform.Unix.{Attempt, AsyncFd, eintr, SystemCalls, TtyPort}

abbrev pub is_would_block : IoResult ℕ → Bool
is_would_block (ok n) = false
is_would_block (err e) = elim e.kind [ would_block ↦ true | _ ↦ false ]

module _ {F : Type 0} (clear_ready : F → F) where
  -- The answer of the guard: an attempt that would block clears the readiness.
  abbrev pub guarded : F × List ℕ × IoResult ℕ → F × List ℕ × Option (IoResult ℕ)
  guarded (x, b, r) = if is_would_block r then (clear_ready x, b, none) else (x, b, some r)

  -- The same of the descriptor's own `try_io`, which passes the error on.
  abbrev pub attempted : F × List ℕ × IoResult ℕ → F × List ℕ × IoResult ℕ
  attempted (x, b, r) = if is_would_block r then (clear_ready x, b, r) else (x, b, r)

-- `events` counts the readiness events that are noted or still to come while a poll runs: clearing
-- takes one away, and there is one whenever a poll says that the descriptor is ready.
pub record IsAsyncFd {F : Type 0} (fd : AsyncFd F) (received sent : F → List ℕ) (events : F → ℕ)
    : Type 0 where
  pub clear_ready : F → F
  pub is_ready : F → Bool
  pub blocked : IoError
  pub read_ready_received : (x : F) → received (fd.poll_read_ready x).0 ≡ received x
  pub read_ready_sent : (x : F) → sent (fd.poll_read_ready x).0 ≡ sent x
  pub read_ready_events : (x : F) → events (fd.poll_read_ready x).0 ≤ events x
  pub read_ready_some :
      (x : F) → (fd.poll_read_ready x).1 ≡ ready (ok tt) → 0 < events (fd.poll_read_ready x).0
  pub write_ready_received : (x : F) → received (fd.poll_write_ready x).0 ≡ received x
  pub write_ready_sent : (x : F) → sent (fd.poll_write_ready x).0 ≡ sent x
  pub write_ready_events : (x : F) → events (fd.poll_write_ready x).0 ≤ events x
  pub write_ready_some :
      (x : F) → (fd.poll_write_ready x).1 ≡ ready (ok tt) → 0 < events (fd.poll_write_ready x).0
  pub clear_received : (x : F) → received (clear_ready x) ≡ received x
  pub clear_sent : (x : F) → sent (clear_ready x) ≡ sent x
  pub clear_events : (x : F) → events (clear_ready x) ≡ events x - 1
  pub guard_io_lem :
      (f : Attempt F) (x : F) (b : List ℕ) → fd.guard_io f x b ≡ guarded clear_ready (f x b)
  pub try_io_lem :
      (f : Attempt F) (x : F) (b : List ℕ)
      → fd.try_io f x b
        ≡ (if is_ready x then attempted clear_ready (f x b) else (x, b, err blocked))

-- A system call moves the bytes that it reports, and none where it fails. `signals` counts the
-- signals that still interrupt a drain.
pub record AreSystemCalls {F : Type 0} (calls : SystemCalls F) (received sent : F → List ℕ)
    (events signals : F → ℕ) : Type 0 where
  pub read_received :
      (x : F) (b : List ℕ)
      → received (calls.read x b).0
        ≡ received x ++ moved (ready (calls.read x b).2) (calls.read x b).1
  pub read_sent : (x : F) (b : List ℕ) → sent (calls.read x b).0 ≡ sent x
  pub read_events : (x : F) (b : List ℕ) → events (calls.read x b).0 ≡ events x
  pub read_fits : (x : F) (b : List ℕ) → Fits (ready (calls.read x b).2) (length b)
  pub read_length : (x : F) (b : List ℕ) → length (calls.read x b).1 ≡ length b
  pub write_sent :
      (x : F) (b : List ℕ)
      → sent (calls.write x b).0 ≡ sent x ++ moved (ready (calls.write x b).2) b
  pub write_received : (x : F) (b : List ℕ) → received (calls.write x b).0 ≡ received x
  pub write_events : (x : F) (b : List ℕ) → events (calls.write x b).0 ≡ events x
  pub write_fits : (x : F) (b : List ℕ) → Fits (ready (calls.write x b).2) (length b)
  pub write_slice : (x : F) (b : List ℕ) → (calls.write x b).1 ≡ b
  pub tcdrain_received : (x : F) → received (calls.tcdrain x).0 ≡ received x
  pub tcdrain_sent : (x : F) → sent (calls.tcdrain x).0 ≡ sent x
  pub tcdrain_signals :
      (x : F) → (calls.tcdrain x).1 ≡ err eintr → signals (calls.tcdrain x).0 < signals x

-- No control call moves bytes between the program and the driver.
pub record IsTtyPort {F : Type 0} (tty : TtyPort F) (received sent : F → List ℕ) : Type 0 where
  pub bytes_to_write_quiet : IsQuiet received sent tty.bytes_to_write
  pub set_baud_rate_quiet : (n : ℕ) → IsQuiet received sent (tty.set_baud_rate n)
  pub baud_rate_quiet : IsQuiet received sent tty.baud_rate
  pub dtr_quiet : (b : Bool) → IsQuiet received sent (tty.write_data_terminal_ready b)
  pub rts_quiet : (b : Bool) → IsQuiet received sent (tty.write_request_to_send b)
  pub set_break_quiet : IsQuiet received sent tty.set_break
  pub clear_break_quiet : IsQuiet received sent tty.clear_break
  pub cts_quiet : IsQuiet received sent tty.read_clear_to_send
  pub dsr_quiet : IsQuiet received sent tty.read_data_set_ready
  pub dcd_quiet : IsQuiet received sent tty.read_carrier_detect
  pub clear_quiet : IsQuiet received sent tty.clear_all
