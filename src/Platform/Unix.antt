-- ===== src/Platform/Unix.antt =====
-- src/platform/unix.rs: `SerialStream` over the parameters that it is built from: Tokio's `AsyncFd`,
-- the system calls of `nix`, and the control calls of the `serialport` crate's `TTYPort`.
pub mod Laws
pub mod Loops
pub mod Drain
pub mod Stream
pub mod Open
mod Line
pub mod Total
mod Tests
use node_serialport_rs.Prelude.{ℕ, zero, suc, Option, none, some, List, [], ◌∷◌, Bool}
use node_serialport_rs.Io.{IoError, IoResult, Result, ok, err, Poll, pending, ready}
use node_serialport_rs.Transfer.{AsyncPort}
use node_serialport_rs.Serial.{Serial, PortCall}

-- A call on the descriptor with a slice, which may fill a prefix of the slice.
abbrev pub Attempt : Type 0 → Type 0
Attempt F = F → List ℕ → F × List ℕ × IoResult ℕ

-- `AsyncFd`. `guard_io` is `try_io` of the guard that a readiness poll gives; `none` is its
-- `TryIoError`. `try_io` is the method of `AsyncFd` itself, for reading.
pub record AsyncFd (F : Type 0) : Type 0 where
  pub poll_read_ready : F → F × Poll (IoResult (Unit {0}))
  pub poll_write_ready : F → F × Poll (IoResult (Unit {0}))
  pub guard_io : Attempt F → F → List ℕ → F × List ℕ × Option (IoResult ℕ)
  pub try_io : Attempt F → F → List ℕ → F × List ℕ × IoResult ℕ

-- `nix::errno::Errno`, by the one value that the code names.
pub data Errno : Type 0 where
  eintr : Errno
  another : ℕ → Errno

-- `unistd::read`, `unistd::write` and `termios::tcdrain`, with the conversion of their errors.
pub record SystemCalls (F : Type 0) : Type 0 where
  pub read : Attempt F
  pub write : Attempt F
  pub tcdrain : F → F × Result (Unit {0}) Errno
  pub error_of : Errno → IoError

-- What the program calls on a `TTYPort`.
pub record TtyPort (F : Type 0) : Type 0 where
  pub bytes_to_write : PortCall F ℕ
  pub set_baud_rate : ℕ → PortCall F (Unit {0})
  pub baud_rate : PortCall F ℕ
  pub write_data_terminal_ready : Bool → PortCall F (Unit {0})
  pub write_request_to_send : Bool → PortCall F (Unit {0})
  pub set_break : PortCall F (Unit {0})
  pub clear_break : PortCall F (Unit {0})
  pub read_clear_to_send : PortCall F Bool
  pub read_data_set_ready : PortCall F Bool
  pub read_carrier_detect : PortCall F Bool
  pub clear_all : PortCall F (Unit {0})

-- How a poll ends; `none` means that the fuel ran out.
abbrev pub Ended : Type 0 → Type 0
Ended F = Option (F × List ℕ × Poll (IoResult ℕ))

module _ {F : Type 0} (fd : AsyncFd F) (call : Attempt F) where
  -- What a round does with the guard's answer; `next` is the next round.
  abbrev pub guarded_round : (F → List ℕ → Ended F) → F × List ℕ × Option (IoResult ℕ) → Ended F
  guarded_round next (x, b, some r) = some (x, b, ready r)
  guarded_round next (x, b, none) = next x b

  -- `ready!(..)?` on the readiness, and the round that follows.
  abbrev pub ready_round :
      (F → List ℕ → Ended F) → List ℕ → F × Poll (IoResult (Unit {0})) → Ended F
  ready_round next b (x, pending) = some (x, b, pending)
  ready_round next b (x, ready (err e)) = some (x, b, ready (err e))
  ready_round next b (x, ready (ok u)) = guarded_round next (fd.guard_io call x b)

  -- The loop of `poll_read` and of `poll_write`, with fuel.
  unfoldable pub io_loop : (F → F × Poll (IoResult (Unit {0}))) → ℕ → F → List ℕ → Ended F
  io_loop readiness zero x b = none
  io_loop readiness (suc fuel) x b =
      ready_round (λ x' b'. io_loop readiness fuel x' b') b (readiness x)

module _ {F : Type 0} (fd : AsyncFd F) (calls : SystemCalls F) where
  unfoldable pub poll_read : ℕ → F → List ℕ → Ended F
  unfolding io_loop
  poll_read fuel x [] = some (x, [], ready (ok 0))
  poll_read fuel x (c ∷ b) = io_loop fd calls.read fd.poll_read_ready fuel x (c ∷ b)

  unfoldable pub poll_write : ℕ → F → List ℕ → Ended F
  unfolding io_loop
  poll_write fuel x [] = some (x, [], ready (ok 0))
  poll_write fuel x (c ∷ b) = io_loop fd calls.write fd.poll_write_ready fuel x (c ∷ b)

  unfoldable pub try_read : F → List ℕ → F × List ℕ × IoResult ℕ
  try_read x b = fd.try_io calls.read x b

module _ {F : Type 0} (calls : SystemCalls F) where
  unfoldable pub try_write : List ℕ → PortCall F ℕ
  try_write b x = let r = calls.write x b in (r.0, r.2)

  -- `result.map_err(Into::into)`
  abbrev pub drain_result : Result (Unit {0}) Errno → IoResult (Unit {0})
  drain_result (ok u) = ok u
  drain_result (err e) = err (calls.error_of e)

  abbrev pub drain_round :
      (F → Option (F × IoResult (Unit {0})))
      → F × Result (Unit {0}) Errno
      → Option (F × IoResult (Unit {0}))
  drain_round next (x, err eintr) = next x
  drain_round next (x, r) = some (x, drain_result r)

  -- The loop of `drain_output`, with fuel.
  unfoldable pub drain_loop : ℕ → F → Option (F × IoResult (Unit {0}))
  drain_loop zero x = none
  drain_loop (suc fuel) x = drain_round (λ x'. drain_loop fuel x') (calls.tcdrain x)

-- The stream as the rest of the program uses it. `budget` and `signals` bound the rounds of a
-- descriptor's loops; `Loops` shows that the default is never taken.
abbrev pub ended_or :
    {F : Type 0} → F × List ℕ × Poll (IoResult ℕ) → Ended F → F × List ℕ × Poll (IoResult ℕ)
ended_or default none = default
ended_or default (some r) = r

abbrev pub drained_or : {A : Type 0} → A → Option A → A
drained_or default none = default
drained_or default (some r) = r

module _ {F : Type 0} (fd : AsyncFd F) (calls : SystemCalls F) (tty : TtyPort F)
    (budget signals : F → ℕ) where
  unfoldable pub unix_io : AsyncPort F
  unfolding poll_read poll_write
  unix_io = record {
    poll_read = λ x b. ended_or (x, b, pending) (poll_read fd calls (suc (budget x)) x b);
    poll_write = λ x b.
        (let r = ended_or (x, b, pending) (poll_write fd calls (suc (budget x)) x b) in (r.0, r.2));
  }

  unfoldable pub unix_serial : Serial F
  unfolding unix_io try_read try_write drain_loop
  unix_serial = record {
    io = unix_io;
    try_read = try_read fd calls;
    try_write = try_write calls;
    drain_output = λ x. drained_or (x, ok tt) (drain_loop calls (suc (signals x)) x);
    bytes_to_write = tty.bytes_to_write;
    set_baud_rate = tty.set_baud_rate;
    baud_rate = tty.baud_rate;
    write_data_terminal_ready = tty.write_data_terminal_ready;
    write_request_to_send = tty.write_request_to_send;
    set_break = tty.set_break;
    clear_break = tty.clear_break;
    read_clear_to_send = tty.read_clear_to_send;
    read_data_set_ready = tty.read_data_set_ready;
    read_carrier_detect = tty.read_carrier_detect;
    clear_all = tty.clear_all;
  }
