-- ===== src/Transfer/Bytes.antt =====
-- The bytes that src/transfer.rs moves, over a port that keeps the contract of its traits.
use node_serialport_rs.Prelude.{
  ℕ, ◌≤◌, ◌≡◌, List, [], ◌++◌, Option, none, some, arith, length, take, append-nil,
}
use node_serialport_rs.Io.{IoResult, Poll, ready, ok}
use node_serialport_rs.Transfer.{AsyncPort, Transfer, read, write, TransferPoller, poll}

-- What a completed call moved.
abbrev pub moved : Poll (IoResult ℕ) → List ℕ → List ℕ
moved (ready (ok n)) bytes = take n bytes
moved r bytes = []

abbrev pub Fits : Poll (IoResult ℕ) → ℕ → Type 0
Fits (ready (ok n)) k = n ≤ k
Fits r k = Unit {0}

-- The contract of `AsyncRead` and `AsyncWrite`, over the bytes that have gone through the port.
pub record IsAsyncPort {T : Type 0} (io : AsyncPort T) (received sent : T → List ℕ) : Type 0 where
  pub read_received :
      (p : T) (b : List ℕ)
      → received (io.poll_read p b).0
        ≡ received p ++ moved (io.poll_read p b).2 (io.poll_read p b).1
  pub read_sent : (p : T) (b : List ℕ) → sent (io.poll_read p b).0 ≡ sent p
  pub read_fits : (p : T) (b : List ℕ) → Fits (io.poll_read p b).2 (length b)
  pub read_length : (p : T) (b : List ℕ) → length (io.poll_read p b).1 ≡ length b
  pub write_sent :
      (p : T) (b : List ℕ) → sent (io.poll_write p b).0 ≡ sent p ++ moved (io.poll_write p b).1 b
  pub write_received : (p : T) (b : List ℕ) → received (io.poll_write p b).0 ≡ received p
  pub write_fits : (p : T) (b : List ℕ) → Fits (io.poll_write p b).1 (length b)

abbrev pub read_part : Poll (IoResult Transfer) → Option (List ℕ) → List ℕ
read_part (ready (ok (read n))) (some b) = take n b
read_part r b = []

abbrev pub write_part : Poll (IoResult Transfer) → Option (List ℕ) → List ℕ
write_part (ready (ok (write n))) (some b) = take n b
write_part r b = []

abbrev pub size : Option (List ℕ) → ℕ
size none = 0
size (some b) = length b

abbrev pub TransferFits : Poll (IoResult Transfer) → Option (List ℕ) → Option (List ℕ) → Type 0
TransferFits (ready (ok (read n))) r w = n ≤ size r
TransferFits (ready (ok (write n))) r w = n ≤ size w
TransferFits p r w = Unit {0}

module _ {T : Type 0} (io : AsyncPort T) (received sent : T → List ℕ)
    (law : IsAsyncPort io received sent) (self : TransferPoller) (port : T) (wakes : ℕ) where
  pub poll-received :
      (r w : Option (List ℕ))
      → let p = (poll io self port wakes r w).1 in
        received p.port ≡ received port ++ read_part p.result p.buffer
  unfolding poll
  poll-received none none = ground (arith, append-nil (received port))
  poll-received none (some w) =
      ground (arith, append-nil (received port), law.write_received port w)
  poll-received (some r) none = ground (arith, append-nil (received port), law.read_received port r)
  poll-received (some r) (some w) = ground (
    arith,
    append-nil (received port),
    law.read_received port r,
    law.write_received port w,
    law.write_received (io.poll_read port r).0 w,
    law.read_received (io.poll_write port w).0 r,
  )

  pub poll-sent :
      (r w : Option (List ℕ))
      → let p = (poll io self port wakes r w).1 in sent p.port ≡ sent port ++ write_part p.result w
  unfolding poll
  poll-sent none none = ground (arith, append-nil (sent port))
  poll-sent none (some w) = ground (arith, append-nil (sent port), law.write_sent port w)
  poll-sent (some r) none = ground (arith, append-nil (sent port), law.read_sent port r)
  poll-sent (some r) (some w) = ground (
    arith,
    append-nil (sent port),
    law.read_sent port r,
    law.write_sent port w,
    law.write_sent (io.poll_read port r).0 w,
    law.read_sent (io.poll_write port w).0 r,
  )

  pub poll-TransferFits :
      (r w : Option (List ℕ)) → TransferFits (poll io self port wakes r w).1.result r w
  unfolding poll
  poll-TransferFits none none = ground arith
  poll-TransferFits none (some w) = ground (arith, law.write_fits port w)
  poll-TransferFits (some r) none = ground (arith, law.read_fits port r)
  poll-TransferFits (some r) (some w) = ground (
    arith,
    law.read_fits port r,
    law.write_fits port w,
    law.write_fits (io.poll_read port r).0 w,
    law.read_fits (io.poll_write port w).0 r,
  )

  pub poll-size : (r w : Option (List ℕ)) → size (poll io self port wakes r w).1.buffer ≡ size r
  unfolding poll
  poll-size none none = ground arith
  poll-size none (some w) = ground arith
  poll-size (some r) none = ground (arith, law.read_length port r)
  poll-size (some r) (some w) =
      ground (arith, law.read_length port r, law.read_length (io.poll_write port w).0 r)

  -- Over a port that keeps its contract, a poll takes from the port exactly the bytes that it
  -- reports as read, which stand at the front of the slice, and hands to the port exactly the
  -- prefix of the write slice that it reports as written, neither more than its slice holds.
  -- Where it reports an error or is pending it moves nothing.
  pub poll_moves :
      (r w : Option (List ℕ))
      → let p = (poll io self port wakes r w).1 in
        (received p.port ≡ received port ++ read_part p.result p.buffer)
        × (sent p.port ≡ sent port ++ write_part p.result w)
        × TransferFits p.result r w
        × (size p.buffer ≡ size r)
  poll_moves r w = (poll-received r w, poll-sent r w, poll-TransferFits r w, poll-size r w)
