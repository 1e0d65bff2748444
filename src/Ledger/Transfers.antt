-- ===== src/Ledger/Transfers.antt =====
-- The transfer branch of the `select!` of src/reactor.rs keeps the books.
use node_serialport_rs.Prelude.{
  ℕ, ◌+◌, ◌≤◌, ◌≡◌, Bool, true, false, ◌&&◌, Option, none, some, List, [], ◌∷◌, arith, length-drop,
}
use node_serialport_rs.Io.{IoResult, Poll, pending, ready, ok, err}
use node_serialport_rs.Command.{Operation, write, Command}
use node_serialport_rs.Transfer.{Transfer}
use node_serialport_rs.Transfer.Bytes.{size, TransferFits, poll-TransferFits}
use node_serialport_rs.Serial.Laws.{IsSerial}
use node_serialport_rs.Control.{Control, IsMpsc, unreceived}
use node_serialport_rs.Reactor.{Links, System, ReadWindow}
use node_serialport_rs.Reactor.Burst.{
  Observation, Burst, gather, send_read, finish_burst, send_ready_reads,
}
use node_serialport_rs.Reactor.Turn.{write_slice, slice, is_some, or_zero}
use node_serialport_rs.Reactor.Deliver.{after_burst, streamed, single, transferred}
use node_serialport_rs.Reactor.Window.{charge}
use node_serialport_rs.Reactor.Receive.{receive}
use node_serialport_rs.Ledger.{WithinOperation, WithinFront}
use node_serialport_rs.Ledger.Serve.{Books}
use node_serialport_rs.Control.Session.{pending-with_session, with_session_result}
use node_serialport_rs.Reactor.Select.{
  Moved, poll_transfer, moved_system, capacity_of, writing, after_poll, transfer_branch,
  io_branches, command_branch, prepare, select,
}
use node_serialport_rs.Ledger.Select.{TurnAll, receive-Books}

-- A write of what fits the slice stays within the front command.
operation_fits :
    (rest : List Command) (id : ℕ) (op : Operation) (w n : ℕ)
    → WithinOperation op w
    → n ≤ size (write_slice (record { id = id; operation = op } ∷ rest) w)
    → WithinOperation op (w + n)
operation_fits rest id (write bytes) w n h k = omega (arith, length-drop w bytes)
operation_fits rest id _ w n h k = omega arith

front_fits :
    (commands : List Command) (w n : ℕ)
    → WithinFront commands w
    → n ≤ size (write_slice commands w)
    → WithinFront commands (w + n)
front_fits [] w n h k = omega arith
front_fits (c ∷ rest) w n h k = operation_fits rest c.id c.operation w n h k

-- What a completed write must satisfy for the books.
abbrev WriteFits : List Command → ℕ → IoResult Transfer → Type 0
WriteFits commands w (ok (Transfer.write n)) = WithinFront commands (w + n)
WriteFits commands w r = Unit {0}

module _ {T C K : Type 0} (links : Links T C K) where
  pending-gather :
      (c : Control T) (buffer : List ℕ) (w : ReadWindow) (seen : ℕ → Observation)
      → (gather links c buffer w seen).0.pending_ops ≡ c.pending_ops
  unfolding gather
  pending-gather c buffer w seen = pending-with_session c _ _

  -- A burst leaves the count alone.
  pub pending-burst :
      (c : Control T) (k : K) (buffer : List ℕ) (n : ℕ) (w : ReadWindow) (seen : ℕ → Observation)
      → (send_ready_reads links c k buffer n w seen).control.pending_ops ≡ c.pending_ops
  unfolding send_ready_reads finish_burst
  pending-burst c k buffer n w seen =
      ground (arith, pending-gather c (send_read links k buffer n).1 w seen)

module _ {T C K : Type 0} (queue : C → List Command) (links : Links T C K) where
  burst-Books :
      (s : System T C K) (b : Burst T K)
      → b.control.pending_ops ≡ s.control.pending_ops
      → Books queue s
      → TurnAll (Books queue) (after_burst links s b)
  burst-Books s b p h = ground arith

  streamed-Books :
      (s : System T C K) (is_writing : Bool) (capacity n : ℕ) (seen : ℕ → Observation)
      → Books queue s
      → TurnAll (Books queue) (streamed links s is_writing capacity n seen)
  unfolding streamed
  streamed-Books s is_writing capacity n seen h = ground (
    arith,
    pending-burst links s.control s.callback s.locals.read_buffer n
        (charge s.locals.window capacity n) seen,
  )

  single-Books :
      (s : System T C K) (capacity n : ℕ) (reading : Option (ℕ × ℕ))
      → Books queue s
      → TurnAll (Books queue) (single links s capacity n reading)
  unfolding single
  single-Books s capacity n none h = h
  single-Books s capacity n (some (id, wanted)) h = ground arith

  transferred-Books :
      (s : System T C K) (is_writing : Bool) (capacity : Option ℕ) (r : IoResult Transfer)
      (seen : ℕ → Observation)
      → WriteFits s.locals.commands s.locals.written r
      → Books queue s
      → TurnAll (Books queue) (transferred links s is_writing capacity r seen)
  unfolding transferred
  transferred-Books s is_writing capacity (err e) seen f h = h
  transferred-Books s is_writing capacity (ok (Transfer.read n)) seen f h = ground (
    arith,
    streamed-Books s is_writing (or_zero capacity) n seen h,
    single-Books s (or_zero capacity) n s.locals.reading h,
  )
  transferred-Books s is_writing capacity (ok (Transfer.write n)) seen f h = ground arith

module _ {T C K : Type 0} (queue : C → List Command) (links : Links T C K)
    {received sent : T → List ℕ} (law : IsSerial links.serial received sent) where
  pub poll_transfer-TransferFits :
      (s : System T C K) (front w : Option (List ℕ))
      → TransferFits (poll_transfer links s front w).1.result front w
  unfolding poll_transfer
  poll_transfer-TransferFits s front w =
      with_session_result {B = Moved} (λ m. TransferFits m.result front w) s.control _ _
        (λ port.
          poll-TransferFits links.serial.io received sent law.async s.locals.transfers port s.wakes
            front w)
        (λ e. tt)

  pending-poll_transfer :
      (s : System T C K) (front w : Option (List ℕ))
      → (poll_transfer links s front w).0.pending_ops ≡ s.control.pending_ops
  unfolding poll_transfer
  pending-poll_transfer s front w = pending-with_session s.control _ _

  after_poll-Books :
      (s : System T C K) (is_writing : Bool) (capacity : Option ℕ) (timer : Bool)
      (seen : ℕ → Observation) (r : Poll (IoResult Transfer)) (front : Option (List ℕ))
      → TransferFits r front (write_slice s.locals.commands s.locals.written)
      → Books queue s
      → TurnAll (Books queue) (after_poll links s is_writing capacity timer seen r)
  after_poll-Books s is_writing capacity true seen pending front f h = h
  after_poll-Books s is_writing capacity false seen pending front f h = h
  after_poll-Books s is_writing capacity timer seen (ready (err e)) front f h =
      transferred-Books queue links s is_writing capacity (err e) seen tt h
  after_poll-Books s is_writing capacity timer seen (ready (ok (Transfer.read n))) front f h =
      transferred-Books queue links s is_writing capacity (ok (Transfer.read n)) seen tt h
  after_poll-Books s is_writing capacity timer seen (ready (ok (Transfer.write n))) front f h =
      transferred-Books queue links s is_writing capacity (ok (Transfer.write n)) seen
        (front_fits s.locals.commands s.locals.written n h.within f) h

  transfer_branch-Books :
      (s : System T C K) (timer : Bool) (seen : ℕ → Observation)
      → Books queue s
      → TurnAll (Books queue) (transfer_branch links s timer seen)
  unfolding transfer_branch
  transfer_branch-Books s timer seen h =
      let front = slice (capacity_of links s) s.locals.read_buffer in
      let r = poll_transfer links s front (writing links s) in
      after_poll-Books (moved_system links s (capacity_of links s) s.locals.read_buffer r)
        (is_some (writing links s)) (capacity_of links s) timer seen r.1.result front
        (poll_transfer-TransferFits s front (writing links s))
        (rw (pending-poll_transfer s front (writing links s)) h)

  io_branches-Books :
      (s : System T C K) (timer : Bool) (seen : ℕ → Observation)
      → Books queue s
      → TurnAll (Books queue) (io_branches links s timer seen)
  unfolding io_branches
  io_branches-Books s timer seen h = ground (arith, transfer_branch-Books s timer seen h)

module _ {T C K : Type 0} (queue : C → List Command) (links : Links T C K)
    {received sent : T → List ℕ} (law : IsSerial links.serial received sent)
    (fifo : IsMpsc links.mpsc queue) where
  command_branch-Books :
      (s : System T C K) (timer : Bool) (seen : ℕ → Observation) (r : C × Poll (Option Command))
      → queue s.channel ≡ unreceived r.1 (queue r.0)
      → Books queue s
      → TurnAll (Books queue) (command_branch links s timer seen r)
  unfolding receive
  command_branch-Books s timer seen (ch, pending) q h =
      io_branches-Books queue links law (record s { channel = ch }) timer seen (rw (← q) h)
  command_branch-Books s timer seen (ch, ready none) q h = rw (← q) h
  command_branch-Books s timer seen (ch, ready (some c)) q h =
      receive-Books queue links (record s { channel = ch }) c (rw (← q) h)

  -- However a poll of the `select!` ends, the books are right after it.
  pub select-Books :
      (s : System T C K) (draining elapsed : Bool) (seen : ℕ → Observation)
      → Books queue s
      → TurnAll (Books queue) (select links s draining elapsed seen)
  unfolding select
  select-Books s draining elapsed seen h = ground (
    arith,
    command_branch-Books (prepare links s) (draining && elapsed) seen (links.mpsc.recv s.channel)
        (fifo.recv_queue s.channel) h,
  )
