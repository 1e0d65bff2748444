-- ===== src/Stream/Select.antt =====
-- The `select!` of src/reactor.rs keeps the stream of bytes.
use node_serialport_rs.Prelude.{
  ℕ, ◌+◌, ◌≤◌, ◌≡◌, refl, sym, ap, ◌∙◌, ◌==◌, Bool, true, false, if_cases, Option, none, some, List,
  [], ◌++◌, arith, append_assoc, append-nil,
}
use node_serialport_rs.Io.{IoResult, ok, err, Poll, pending, ready}
use node_serialport_rs.Command.{Command}
use node_serialport_rs.Transfer.{Transfer}
use node_serialport_rs.Transfer.Bytes.{size, TransferFits, write_part, poll-sent}
use node_serialport_rs.Serial.Laws.{IsSerial}
use node_serialport_rs.Control.{Control}
use node_serialport_rs.Reactor.{Links, System}
use node_serialport_rs.Reactor.Burst.{Observation, send_ready_reads}
use node_serialport_rs.Reactor.Turn.{slice, is_some, or_zero, sent_or_return}
use node_serialport_rs.Ledger.{WithinFront}
use node_serialport_rs.Ledger.Select.{TurnAll}
use node_serialport_rs.Stream.{backlog, outstanding, sent_of, sent-with_session_result}
use node_serialport_rs.Stream.Serve.{Streams}
use node_serialport_rs.Reactor.Deliver.{streamed, single, transferred}
use node_serialport_rs.Reactor.Window.{charge}
use node_serialport_rs.Reactor.Select.{
  Moved, poll_transfer, moved_system, capacity_of, writing, after_poll, transfer_branch,
  io_branches,
}
use node_serialport_rs.Stream.Transfers.{slice_take, front-taken, sent-burst}
use node_serialport_rs.Ledger.Transfers.{poll_transfer-TransferFits}

module _ {T C K : Type 0} (queue : C → List Command) (links : Links T C K)
    {received sent : T → List ℕ} (law : IsSerial links.serial received sent) (x : List ℕ) where
  abbrev pub S : System T C K → Type 0
  S = Streams queue links law x

  pub sent-Streams : (s : System T C K) (r : K × Bool) → S s → TurnAll S (sent_or_return s r)
  sent-Streams s (k, true) h = h
  sent-Streams s (k, false) h = h

  -- The stream, with the port's part replaced by an equal one.
  replaced :
      (s : System T C K) (c : Control T)
      → sent_of sent c.session ≡ sent_of sent s.control.session
      → S s
      → S (record s { control = c })
  replaced s c p h =
      ap (λ b. b ++ (outstanding s.locals.commands s.locals.written ++ backlog (queue s.channel))) p
      ∙ h

  rewound :
      (s : System T C K) (w : ℕ)
      → w ≡ s.locals.written
      → S (record s { locals = record s.locals { written = w } })
      → S s
  rewound s w e h =
      ap
        (λ w.
          sent_of sent s.control.session
          ++ (outstanding s.locals.commands w ++ backlog (queue s.channel)))
        (sym e)
      ∙ h

  streamed-Streams :
      (s : System T C K) (is_writing : Bool) (capacity n : ℕ) (seen : ℕ → Observation)
      → S s
      → TurnAll S (streamed links s is_writing capacity n seen)
  unfolding streamed
  streamed-Streams s is_writing capacity n seen h =
      let b =
        send_ready_reads links s.control s.callback s.locals.read_buffer n
          (charge s.locals.window capacity n) seen in
      ground (
        arith,
        replaced s b.control
            (sent-burst links law s.control s.callback s.locals.read_buffer n
              (charge s.locals.window capacity n) seen)
            h,
      )

  single-Streams :
      (s : System T C K) (capacity n : ℕ) (reading : Option (ℕ × ℕ))
      → S s
      → TurnAll S (single links s capacity n reading)
  unfolding single
  single-Streams s capacity n none h = h
  single-Streams s capacity n (some (id, wanted)) h = ground arith

  -- The stream before the transfer's result is taken into the locals.
  abbrev Before : System T C K → Poll (IoResult Transfer) → Type 0
  Before s (ready (ok (Transfer.write n))) =
      S (record s { locals = record s.locals { written = s.locals.written + n } })
  Before s r = S s

  after_poll-Streams :
      (s : System T C K) (is_writing : Bool) (capacity : Option ℕ) (timer : Bool)
      (seen : ℕ → Observation) (r : Poll (IoResult Transfer))
      → Before s r
      → TurnAll S (after_poll links s is_writing capacity timer seen r)
  unfolding transferred
  after_poll-Streams s is_writing capacity true seen pending b = b
  after_poll-Streams s is_writing capacity false seen pending b = b
  after_poll-Streams s is_writing capacity timer seen (ready (err e)) b = b
  after_poll-Streams s is_writing capacity timer seen (ready (ok (Transfer.read n))) b = ground (
    arith,
    streamed-Streams s is_writing (or_zero capacity) n seen b,
    single-Streams s (or_zero capacity) n s.locals.reading b,
  )
  after_poll-Streams s is_writing capacity timer seen (ready (ok (Transfer.write n))) b =
      if_cases (TurnAll S) (n == 0) _ _ (λ e. rewound s _ (ground arith) b) (λ _. b)

  unmoved :
      (s : System T C K) (old : List ℕ)
      → sent_of sent s.control.session ≡ old ++ []
      → old ++ (outstanding s.locals.commands s.locals.written ++ backlog (queue s.channel)) ≡ x
      → S s
  unmoved s old e h =
      ap (λ b. b ++ (outstanding s.locals.commands s.locals.written ++ backlog (queue s.channel)))
        (e ∙ append-nil old)
      ∙ h

  wrote :
      (s : System T C K) (old : List ℕ) (n : ℕ)
      → sent_of sent s.control.session ≡ old ++ slice_take n (writing links s)
      → n ≤ size (writing links s)
      → WithinFront s.locals.commands s.locals.written
      → old ++ (outstanding s.locals.commands s.locals.written ++ backlog (queue s.channel)) ≡ x
      → S (record s { locals = record s.locals { written = s.locals.written + n } })
  wrote s old n e f k h =
      let cs = s.locals.commands in
      let w = s.locals.written in
      let q = backlog (queue s.channel) in
      ap (λ b. b ++ (outstanding cs (w + n) ++ q)) e
      ∙ append_assoc old (slice_take n (writing links s)) (outstanding cs (w + n) ++ q)
      ∙ ap (◌++◌ old) (
          sym (append_assoc (slice_take n (writing links s)) (outstanding cs (w + n)) q)
          ∙ ap (λ b. b ++ q) (front-taken cs w n k f))
      ∙ h

  write_part-taken :
      (n : ℕ) (w : Option (List ℕ)) → write_part (ready (ok (Transfer.write n))) w ≡ slice_take n w
  write_part-taken n none = refl
  write_part-taken n (some b) = refl

  -- What the poll has handed the driver is what its result says.
  Before-poll :
      (s : System T C K) (old : List ℕ) (r : Poll (IoResult Transfer)) (front : Option (List ℕ))
      → sent_of sent s.control.session ≡ old ++ write_part r (writing links s)
      → TransferFits r front (writing links s)
      → WithinFront s.locals.commands s.locals.written
      → old ++ (outstanding s.locals.commands s.locals.written ++ backlog (queue s.channel)) ≡ x
      → Before s r
  Before-poll s old pending front e f k h = unmoved s old e h
  Before-poll s old (ready (err y)) front e f k h = unmoved s old e h
  Before-poll s old (ready (ok (Transfer.read n))) front e f k h = unmoved s old e h
  Before-poll s old (ready (ok (Transfer.write n))) front e f k h =
      wrote s old n (e ∙ ap (◌++◌ old) (write_part-taken n (writing links s))) f k h

  sent-poll_transfer :
      (s : System T C K) (front w : Option (List ℕ))
      → let r = poll_transfer links s front w in
        sent_of sent r.0.session ≡ sent_of sent s.control.session ++ write_part r.1.result w
  unfolding poll_transfer
  sent-poll_transfer s front w =
      sent-with_session_result sent {B = Moved} s.control _ _ (λ m. write_part m.result w)
        (λ port.
          poll-sent links.serial.io received sent law.async s.locals.transfers port s.wakes front w)
        (λ e. refl)

  transfer_branch-Streams :
      (s : System T C K) (timer : Bool) (seen : ℕ → Observation)
      → WithinFront s.locals.commands s.locals.written
      → S s
      → TurnAll S (transfer_branch links s timer seen)
  unfolding transfer_branch
  transfer_branch-Streams s timer seen k h =
      let front = slice (capacity_of links s) s.locals.read_buffer in
      let r = poll_transfer links s front (writing links s) in
      let s' = moved_system links s (capacity_of links s) s.locals.read_buffer r in
      after_poll-Streams s' (is_some (writing links s)) (capacity_of links s) timer seen r.1.result
        (Before-poll s' (sent_of sent s.control.session) r.1.result front
          (sent-poll_transfer s front (writing links s))
          (poll_transfer-TransferFits queue links law s front (writing links s)) k h)

  pub io_branches-Streams :
      (s : System T C K) (timer : Bool) (seen : ℕ → Observation)
      → WithinFront s.locals.commands s.locals.written
      → S s
      → TurnAll S (io_branches links s timer seen)
  unfolding io_branches
  io_branches-Streams s timer seen k h = ground (arith, transfer_branch-Streams s timer seen k h)
