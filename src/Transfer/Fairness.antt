-- ===== src/Transfer/Fairness.antt =====
-- Neither direction of src/transfer.rs starves the other.
use node_serialport_rs.Prelude.{ℕ, ◌≡◌, List, Option, some, arith}
use node_serialport_rs.Io.{ready, ok}
use node_serialport_rs.Transfer.{AsyncPort, TransferPoller, read, write, poll}

module _ {T : Type 0} (io : AsyncPort T) where
  -- After a completed read, the next poll completes the offered write if the port can take it,
  -- however ready the port is for reading.
  pub poll-write_after_read :
      (self : TransferPoller) (port port' : T) (wakes wakes' n m : ℕ) (r w r' : Option (List ℕ))
      (bytes : List ℕ)
      → (poll io self port wakes r w).1.result ≡ ready (ok (read n))
      → (io.poll_write port' bytes).1 ≡ ready (ok m)
      → (poll io (poll io self port wakes r w).0 port' wakes' r' (some bytes)).1.result
        ≡ ready (ok (write m))
  unfolding poll
  poll-write_after_read self port port' wakes wakes' n m r w r' bytes h k = ground arith

  -- After a completed write, the next poll completes the offered read if the port can serve it.
  pub poll-read_after_write :
      (self : TransferPoller) (port port' : T) (wakes wakes' n m : ℕ) (r w w' : Option (List ℕ))
      (bytes : List ℕ)
      → (poll io self port wakes r w).1.result ≡ ready (ok (write n))
      → (io.poll_read port' bytes).2 ≡ ready (ok m)
      → (poll io (poll io self port wakes r w).0 port' wakes' (some bytes) w').1.result
        ≡ ready (ok (read m))
  unfolding poll
  poll-read_after_write self port port' wakes wakes' n m r w w' bytes h k = ground arith
