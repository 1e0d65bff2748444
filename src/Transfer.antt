-- ===== src/Transfer.antt =====
-- src/transfer.rs: `TransferPoller`, which shares one port between a reader and a writer.
-- The port is any `AsyncRead + AsyncWrite`: an argument of the section, with the contract that the
-- traits document as `IsAsyncPort`.
pub mod Progress
pub mod Fairness
pub mod Bytes
mod Tests
use node_serialport_rs.Prelude.{
  ℕ, ◌+◌, ◌≤◌, ◌≡◌, Bool, true, false, List, Option, none, some, if◌then◌else◌, length,
}
use node_serialport_rs.Io.{IoError, IoResult, Poll, pending, ready, ok, err, is_interrupted}

pub data Transfer : Type 0 where
  read : ℕ → Transfer
  write : ℕ → Transfer

pub record TransferPoller : Type 0 where
  pub write_first : Bool

-- `TransferPoller::default()`
abbrev pub default : TransferPoller
default = record { write_first = false }

-- `poll_read` fills a prefix of the buffer and answers with its length; on any path it may have
-- written to the buffer. `poll_write` answers with the number of bytes taken.
pub record AsyncPort (T : Type 0) : Type 0 where
  pub poll_read : T → List ℕ → T × List ℕ × Poll (IoResult ℕ)
  pub poll_write : T → List ℕ → T × Poll (IoResult ℕ)

-- The port, the number of times that the task's own waker was called, and the slice for reading
-- (`none` where the caller passes no slice).
pub record Polled (T : Type 0) : Type 0 where
  pub port : T
  pub wakes : ℕ
  pub buffer : Option (List ℕ)
  pub result : Poll (IoResult Transfer)

-- The waker is called once for an interrupted transfer, which is then pending.
abbrev pub retry_wakes : Poll (IoResult Transfer) → ℕ → ℕ
retry_wakes (ready (err e)) wakes = if is_interrupted e.kind then wakes + 1 else wakes
retry_wakes r wakes = wakes

abbrev pub retry_result : Poll (IoResult Transfer) → Poll (IoResult Transfer)
retry_result (ready (err e)) = if is_interrupted e.kind then pending else ready (err e)
retry_result r = r

-- `map_ok` on a poll
abbrev pub map_ok : (ℕ → Transfer) → Poll (IoResult ℕ) → Poll (IoResult Transfer)
map_ok f pending = pending
map_ok f (ready (ok n)) = ready (ok (f n))
map_ok f (ready (err e)) = ready (err e)

module _ {T : Type 0} where
  -- `retry_interrupted(result, cx)`
  unfoldable pub retry_interrupted : T → Option (List ℕ) → ℕ → Poll (IoResult Transfer) → Polled T
  retry_interrupted port buffer wakes result = record {
    port = port;
    wakes = retry_wakes result wakes;
    buffer = buffer;
    result = retry_result result;
  }

module _ {T : Type 0} (io : AsyncPort T) where
  unfoldable pub poll_read : T → ℕ → Option (List ℕ) → Polled T
  unfolding retry_interrupted
  poll_read port wakes none = record { port = port; wakes = wakes; buffer = none; result = pending }
  poll_read port wakes (some bytes) =
      let (port', bytes', result) = io.poll_read port bytes in
      retry_interrupted port' (some bytes') wakes (map_ok read result)

  unfoldable pub poll_write : T → ℕ → Option (List ℕ) → Option (List ℕ) → Polled T
  unfolding retry_interrupted
  poll_write port wakes buffer none = record {
    port = port;
    wakes = wakes;
    buffer = buffer;
    result = pending;
  }
  poll_write port wakes buffer (some bytes) =
      let (port', result) = io.poll_write port bytes in
      retry_interrupted port' buffer wakes (map_ok write result)

  -- The first direction's answer, or the second direction's poll where the first is pending.
  unfoldable pub or_read : Polled T → Polled T
  unfolding poll_read
  or_read p = elim p.result [ pending ↦ poll_read p.port p.wakes p.buffer | ready r ↦ p ]

  unfoldable pub or_write : Option (List ℕ) → Polled T → Polled T
  unfolding poll_write
  or_write bytes p = elim p.result [
    | pending ↦ poll_write p.port p.wakes p.buffer bytes
    | ready r ↦ p
  ]

  -- The two `match`es of `TransferPoller::poll`.
  unfoldable pub poll_both : Bool → T → ℕ → Option (List ℕ) → Option (List ℕ) → Polled T
  unfolding or_read or_write
  poll_both write_first port wakes r w =
      if write_first
      then or_read (poll_write port wakes r w)
      else or_write w (poll_read port wakes r)

  -- `self.write_first = matches!(transfer, Transfer::Read(_))` after a completed transfer.
  abbrev pub turn : TransferPoller → Poll (IoResult Transfer) → TransferPoller
  turn self (ready (ok (read n))) = record { write_first = true }
  turn self (ready (ok (write n))) = record { write_first = false }
  turn self r = self

  unfoldable pub poll :
      TransferPoller → T → ℕ → Option (List ℕ) → Option (List ℕ) → TransferPoller × Polled T
  unfolding poll_both
  poll self port wakes r w =
      let polled = poll_both self.write_first port wakes r w in (turn self polled.result, polled)
