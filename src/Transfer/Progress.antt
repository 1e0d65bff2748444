-- ===== src/Transfer/Progress.antt =====
-- What a poll of src/transfer.rs reports: retries and errors.
use node_serialport_rs.Prelude.{ℕ, ◌≡◌, Bool, true, false, List, Option, none, some, arith}
use node_serialport_rs.Io.{IoError, pending, ready, err, is_interrupted}
use node_serialport_rs.Transfer.{AsyncPort, TransferPoller, poll, poll_both}

module _ {T : Type 0} (io : AsyncPort T) where
  -- A poll never reports an interrupted transfer, and an error that it does report leaves the
  -- direction that goes first as it was.
  pub poll-error :
      (self : TransferPoller) (port : T) (wakes : ℕ) (r w : Option (List ℕ)) (e : IoError)
      → (poll io self port wakes r w).1.result ≡ ready (err e)
      → (is_interrupted e.kind ≡ false) × ((poll io self port wakes r w).0 ≡ self)
  unfolding poll
  poll-error self port wakes none none e h = ground arith
  poll-error self port wakes none (some w) e h = ground arith
  poll-error self port wakes (some r) none e h = ground arith
  poll-error self port wakes (some r) (some w) e h = ground arith

  -- Both directions answered that they are pending, asked in the order that the poller uses.
  abbrev pub Parked : Bool → T → List ℕ → List ℕ → Type 0
  Parked false port r w =
      ((io.poll_read port r).2 ≡ pending) × ((io.poll_write (io.poll_read port r).0 w).1 ≡ pending)
  Parked true port r w =
      ((io.poll_write port w).1 ≡ pending) × ((io.poll_read (io.poll_write port w).0 r).2 ≡ pending)

  parked :
      (first : Bool) (port : T) (wakes : ℕ) (r w : List ℕ)
      → (poll_both io first port wakes (some r) (some w)).result ≡ pending
      → (poll_both io first port wakes (some r) (some w)).wakes ≡ wakes
      → Parked first port r w
  unfolding poll_both
  parked true port wakes r w h k = ground arith
  parked false port wakes r w h k = ground arith

  -- When a poll with both slices is pending and has not called the waker itself, both directions
  -- answered that they are pending, so the port has the waker of each.
  pub poll-Parked :
      (self : TransferPoller) (port : T) (wakes : ℕ) (r w : List ℕ)
      → (poll io self port wakes (some r) (some w)).1.result ≡ pending
      → (poll io self port wakes (some r) (some w)).1.wakes ≡ wakes
      → Parked self.write_first port r w
  unfolding poll
  poll-Parked self port wakes r w h k = parked self.write_first port wakes r w h k
