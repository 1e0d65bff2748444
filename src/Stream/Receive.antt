-- ===== src/Stream/Receive.antt =====
-- The `recv` branch of src/reactor.rs, and the whole `select!`, keep the stream of bytes.
use node_serialport_rs.Prelude.{
  ℕ, ◌≡◌, refl, sym, ap, ◌∙◌, ◌&&◌, Bool, Option, none, some, List, [], ◌++◌, arith, append_assoc,
}
use node_serialport_rs.Io.{ErrorKind, io_error, Poll, pending, ready}
use node_serialport_rs.Command.{Operation, read, read_credit, Command}
use node_serialport_rs.Event.{error}
use node_serialport_rs.Serial.Laws.{IsSerial}
use node_serialport_rs.Control.{IsMpsc, unreceived}
use node_serialport_rs.Reactor.{Links, System, send}
use node_serialport_rs.Reactor.Burst.{Observation}
use node_serialport_rs.Reactor.Receive.{
  take_read, take_credit, push_back, receive_operation, receive,
}
use node_serialport_rs.Reactor.Select.{command_branch, prepare, select}
use node_serialport_rs.Ledger.{WithinFront}
use node_serialport_rs.Ledger.Select.{TurnAll}
use node_serialport_rs.Stream.{bytes_of, backlog, outstanding, sent_of, outstanding-append}
use node_serialport_rs.Stream.Select.{S, sent-Streams, io_branches-Streams}

module _ {T C K : Type 0} (queue : C → List Command) (links : Links T C K)
    {received sent : T → List ℕ} (law : IsSerial links.serial received sent) (x : List ℕ) where
  abbrev Good : System T C K → Type 0
  Good = S queue links law x

  -- The stream while the command is in neither queue.
  abbrev Between : System T C K → Command → Type 0
  Between s c =
      sent_of sent s.control.session
        ++ (outstanding s.locals.commands s.locals.written
            ++ (bytes_of c.operation ++ backlog (queue s.channel)))
      ≡ x

  dropped : (s : System T C K) (c : Command) → bytes_of c.operation ≡ [] → Between s c → Good s
  dropped s c e h =
      ap
        (λ b.
          sent_of sent s.control.session
          ++ (outstanding s.locals.commands s.locals.written ++ (b ++ backlog (queue s.channel))))
        (sym e)
      ∙ h

  pushed :
      (s : System T C K) (c : Command)
      → WithinFront s.locals.commands s.locals.written
      → Between s c
      → TurnAll Good (push_back s c)
  unfolding push_back
  pushed s c k h =
      ap (λ b. sent_of sent s.control.session ++ (b ++ backlog (queue s.channel)))
        (outstanding-append s.locals.commands c s.locals.written k)
      ∙ ap (◌++◌ (sent_of sent s.control.session)) (append_assoc _ (bytes_of c.operation) _)
      ∙ h

  took_read : (s : System T C K) (id n : ℕ) → Good s → TurnAll Good (take_read links s id n)
  unfolding take_read
  took_read s id n h = ground (
    arith,
    sent-Streams queue links law x s
        (send links s.callback (error id (io_error ErrorKind.resource_busy "Read already pending")))
        h,
  )

  took_credit : (s : System T C K) (b n : ℕ) → Good s → TurnAll Good (take_credit s b n)
  unfolding take_credit
  took_credit s b n h = ground arith

  received_operation :
      (s : System T C K) (c : Command) (op : Operation)
      → c.operation ≡ op
      → WithinFront s.locals.commands s.locals.written
      → Between s c
      → TurnAll Good (receive_operation links s c op)
  unfolding receive_operation
  received_operation s c (read n) o k h = took_read s c.id n (dropped s c (ap bytes_of o) h)
  received_operation s c (read_credit b n) o k h = took_credit s b n (dropped s c (ap bytes_of o) h)
  received_operation s c op o k h = pushed s c k h

module _ {T C K : Type 0} (queue : C → List Command) (links : Links T C K)
    {received sent : T → List ℕ} (law : IsSerial links.serial received sent) (x : List ℕ)
    (fifo : IsMpsc links.mpsc queue) where
  command_branch-Streams :
      (s : System T C K) (timer : Bool) (seen : ℕ → Observation) (r : C × Poll (Option Command))
      → queue s.channel ≡ unreceived r.1 (queue r.0)
      → WithinFront s.locals.commands s.locals.written
      → S queue links law x s
      → TurnAll (S queue links law x) (command_branch links s timer seen r)
  unfolding receive
  command_branch-Streams s timer seen (ch, pending) q k h =
      io_branches-Streams queue links law x (record s { channel = ch }) timer seen k (rw (← q) h)
  command_branch-Streams s timer seen (ch, ready none) q k h = rw (← q) h
  command_branch-Streams s timer seen (ch, ready (some c)) q k h =
      received_operation queue links law x (record s { channel = ch }) c c.operation refl k
        (ap
            (λ b.
              sent_of sent s.control.session
              ++ (outstanding s.locals.commands s.locals.written ++ b))
            (ap backlog (sym q))
          ∙ h)

  -- However a poll of the `select!` ends, no byte is lost, doubled or moved.
  pub select-Streams :
      (s : System T C K) (draining elapsed : Bool) (seen : ℕ → Observation)
      → WithinFront s.locals.commands s.locals.written
      → S queue links law x s
      → TurnAll (S queue links law x) (select links s draining elapsed seen)
  unfolding select
  select-Streams s draining elapsed seen k h = ground (
    arith,
    command_branch-Streams (prepare links s) (draining && elapsed) seen (links.mpsc.recv s.channel)
        (fifo.recv_queue s.channel) k h,
  )
