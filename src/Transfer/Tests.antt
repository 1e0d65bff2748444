-- ===== src/Transfer/Tests.antt =====
-- Runs of src/transfer.rs and instances of its theorems.
use node_serialport_rs.Prelude.{ℕ, ◌≡◌, refl, true, false, [], ◌∷◌, ◌++◌, none, some}
use node_serialport_rs.Io.{
  is_interrupted, IoResult, ErrorKind, IoError, io_error, Poll, pending, ready, ok, err,
}
use node_serialport_rs.Transfer.{AsyncPort, TransferPoller, default, read, write, poll}
use node_serialport_rs.Transfer.Progress.{poll-error, poll-Parked}
use node_serialport_rs.Transfer.Fairness.{poll-write_after_read, poll-read_after_write}
use node_serialport_rs.Transfer.Bytes.{read_part, write_part, TransferFits, size, poll_moves}
use node_serialport_rs.Wire.{Wire, wire, taken, output, wire_lawful}

-- A port that answers the same each time.
abbrev constant : Poll (IoResult ℕ) → Poll (IoResult ℕ) → AsyncPort (Unit {0})
constant r w = record { poll_read = λ p b. (p, b, r); poll_write = λ p b. (p, w) }

abbrev eager : AsyncPort (Unit {0})
eager = constant (ready (ok 1)) (ready (ok 1))

abbrev broken : IoError
broken = io_error ErrorKind.broken_pipe "broken pipe"

poll_reads_first :
    (poll eager default tt 0 (some (0 ∷ [])) (some (7 ∷ []))).1.result ≡ ready (ok (read 1))
unfolding poll
poll_reads_first = refl

interrupted_read_wakes :
    (poll
      (constant (ready (err (io_error ErrorKind.interrupted "EINTR"))) pending)
      default
      tt
      0
      (some (0 ∷ []))
      none).1.wakes
    ≡ 1
unfolding poll
interrupted_read_wakes = refl

poll-error_example :
    (is_interrupted broken.kind ≡ false)
    × ((poll (constant (ready (err broken)) pending) default tt 0 (some (0 ∷ [])) none).0 ≡ default)
unfolding poll
poll-error_example =
    poll-error (constant (ready (err broken)) pending) default tt 0 (some (0 ∷ [])) none broken refl

poll-Parked_example :
    (◌≡◌ {A = Poll (IoResult ℕ)} pending pending) × (◌≡◌ {A = Poll (IoResult ℕ)} pending pending)
unfolding poll
poll-Parked_example =
    poll-Parked (constant pending pending) default tt 0 (0 ∷ []) (7 ∷ []) refl refl

abbrev after_read : TransferPoller
after_read = record { write_first = true }

poll-write_after_read_example :
    (poll eager
      (poll eager default tt 0 (some (0 ∷ [])) (some (7 ∷ []))).0
      tt
      0
      (some (0 ∷ []))
      (some (8 ∷ []))).1.result
    ≡ ready (ok (write 1))
unfolding poll
poll-write_after_read_example =
    poll-write_after_read eager default tt tt 0 0 1 1 (some (0 ∷ [])) (some (7 ∷ []))
      (some (0 ∷ [])) (8 ∷ []) refl refl

poll-read_after_write_example :
    (poll eager
      (poll eager after_read tt 0 (some (0 ∷ [])) (some (7 ∷ []))).0
      tt
      0
      (some (8 ∷ []))
      (some (7 ∷ []))).1.result
    ≡ ready (ok (read 1))
unfolding poll
poll-read_after_write_example =
    poll-read_after_write eager after_read tt tt 0 0 1 1 (some (0 ∷ [])) (some (7 ∷ []))
      (some (7 ∷ [])) (8 ∷ []) refl refl

abbrev start : Wire
start = record { input = 65 ∷ 66 ∷ []; taken = []; output = [] }

poll_moves_example :
    let p = (poll wire default start 0 (some (0 ∷ 0 ∷ [])) (some (7 ∷ []))).1 in
    (taken p.port ≡ [] ++ read_part p.result p.buffer)
    × (output p.port ≡ [] ++ write_part p.result (some (7 ∷ [])))
    × TransferFits p.result (some (0 ∷ 0 ∷ [])) (some (7 ∷ []))
    × (size p.buffer ≡ 2)
poll_moves_example =
    poll_moves wire taken output wire_lawful default start 0 (some (0 ∷ 0 ∷ [])) (some (7 ∷ []))
