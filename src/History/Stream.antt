-- ===== src/History/Stream.antt =====
-- The stream of bytes in every history of src/lib.rs and src/reactor.rs.
use node_serialport_rs.Prelude.{
  ℕ, zero, suc, ◌≡◌, refl, sym, ap, ◌∙◌, Bool, true, false, List, [], ◌∷◌, ◌++◌, arith, take,
  append-nil, append_assoc, length, ◌≤◌,
}
use node_serialport_rs.Io.{ok, err}
use node_serialport_rs.Command.{Command}
use node_serialport_rs.Event.{JsResult}
use node_serialport_rs.Serial.Laws.{IsSerial}
use node_serialport_rs.Control.{IsMpsc}
use node_serialport_rs.Port.{NativePort}
use node_serialport_rs.Port.Write.{write_port}
use node_serialport_rs.Reactor.{Links, System}
use node_serialport_rs.Reactor.Serve
use node_serialport_rs.Reactor.Serve.{serve}
use node_serialport_rs.Reactor.Turn
use node_serialport_rs.Reactor.Task.{
  Task, Choice, Phase, opening, head, serving, selecting, closing, gone, served, selected, step_at,
  step,
}
use node_serialport_rs.Ledger.Serve.{Books, RoundAll}
use node_serialport_rs.Ledger.Select.{TurnAll}
use node_serialport_rs.Stream.{stream}
use node_serialport_rs.Stream.Serve.{Streams, serve-Streams}
use node_serialport_rs.Stream.Receive.{select-Streams}
use node_serialport_rs.Stream.Write.{Writes, write_port-Wrote, write_snapshot-Wrote}
use node_serialport_rs.Stream.Submit.{
  read_port-stream, read_credit_port-stream, request-stream, close-stream,
}
use node_serialport_rs.History.{
  Move, reads, credits, writes, calls_writev, gives, finishes, requests, closes, works, port_of,
  with_port_of, act, history, Frame, World, written_frame, finish_at, finish_frame,
}
use node_serialport_rs.History.Books.{act-Books}
use node_serialport_rs.History.Running.{IsRunning, act-started, IsRunning-back, running-started}

module _ {T C K : Type 0} (queue : C → List Command) (links : Links T C K)
    {received sent : T → List ℕ} (law : IsSerial links.serial received sent)
    (fifo : IsMpsc links.mpsc queue) where
  abbrev pub task_stream : Task T C K → List ℕ
  task_stream t = stream sent queue t.system

  served-stream :
      (x : List ℕ) (r : Serve.Round (System T C K))
      → RoundAll (Streams queue links law x) r
      → task_stream (served r) ≡ x
  served-stream x (Serve.return s r) h = h
  served-stream x (Serve.break s d) h = h
  served-stream x (Serve.next s) h = h

  selected-stream :
      (x : List ℕ) (d : Bool) (r : Turn.Turn (System T C K))
      → TurnAll (Streams queue links law x) r
      → task_stream (selected d r) ≡ x
  selected-stream x d (Turn.return s r) h = h
  selected-stream x d (Turn.again s) h = h
  selected-stream x d (Turn.parked s) h = h

  -- No step of the running task loses, doubles or moves a byte on its way to the device.
  step-stream :
      (choice : Choice T) (s : System T C K) (phase : Phase)
      → IsRunning phase
      → Books queue s
      → task_stream (step_at links choice s phase) ≡ stream sent queue s
  unfolding step_at
  step-stream choice s opening r b = absurd r
  step-stream choice s head r b = ground arith
  step-stream choice s serving r b =
      served-stream _ _ (serve-Streams queue links law _ s choice.lost b.within refl)
  step-stream choice s (selecting d) r b =
      selected-stream _ d _
        (select-Streams queue links law _ fifo s d choice.elapsed choice.seen b.within refl)
  step-stream choice s (closing e) r b = absurd r
  step-stream choice s gone r b = absurd r

  -- What a call adds to the stream: a write that is accepted, all its bytes; a write that is
  -- refused, a prefix of them; the end of a `writev` likewise; any other move, nothing.
  abbrev pub AddsWrite : JsResult Bool → List ℕ → List ℕ → Type 0
  AddsWrite (ok b) bytes x = x ≡ bytes
  AddsWrite (err e) bytes x = (n : ℕ) × (n ≤ length bytes) × (x ≡ take n bytes)

  abbrev AddsFrame : ℕ → Bool → Frame → Task T C K → List ℕ → Type 0
  AddsFrame zero contended f t x = AddsWrite (written_frame links contended f t).1 f.bytes x
  AddsFrame (suc n) contended f t x = x ≡ []

  abbrev pub AddsTop : Bool → List Frame → Task T C K → List ℕ → Type 0
  AddsTop contended [] t x = x ≡ []
  AddsTop contended (f ∷ frames) t x = AddsFrame f.remaining contended f t x

  abbrev pub Adds : Move T → World T C K → List ℕ → Type 0
  Adds (writes id bytes allow contended) w x =
      AddsWrite (write_port links.serial links.mpsc (port_of w.task) id bytes allow contended).1
        bytes x
  Adds (finishes contended) w x = AddsTop contended w.frames w.task x
  Adds m w x = x ≡ []

  -- The bytes that the moves of a history add, one after the other.
  abbrev pub Added : List (Move T) → World T C K → List ℕ → Type 0
  Added [] w b = b ≡ []
  Added (m ∷ ms) w b =
      (x : List ℕ) × (y : List ℕ) × (b ≡ x ++ y) × Adds m w x × Added ms (act links m w) y

  write-adds :
      (t : Task T C K) (bytes : List ℕ) (r : NativePort T C × JsResult Bool)
      → Writes links.serial links.mpsc queue fifo law t.system.locals.commands
          t.system.locals.written
          (port_of t)
          bytes
          r
      → (x : List ℕ) × AddsWrite r.1 bytes x
        × (task_stream (with_port_of t r.0) ≡ task_stream t ++ x)
  write-adds t bytes (p, ok true) w = (bytes, refl, w.1)
  write-adds t bytes (p, ok false) w = (bytes, refl, w)
  write-adds t bytes (p, err e) w = (take w.0 bytes, (w.0, w.1, refl), w.2)

  finish_at-adds :
      (n : ℕ) (contended : Bool) (f : Frame) (frames : List Frame) (w : World T C K)
      → Books queue w.task.system
      → (x : List ℕ) × AddsFrame n contended f w.task x
        × (task_stream (finish_at links n contended f frames w).task ≡ task_stream w.task ++ x)
  finish_at-adds zero contended f frames w b =
      write-adds w.task f.bytes (written_frame links contended f w.task) (
        write_snapshot-Wrote links.serial links.mpsc queue fifo law w.task.system.locals.commands
          w.task.system.locals.written (port_of w.task) f.id f.bytes f.allow_inline contended b)
  finish_at-adds (suc n) contended f frames w b = ([], refl, sym (append-nil (task_stream w.task)))

  finish_frame-adds :
      (contended : Bool) (frames : List Frame) (w : World T C K)
      → Books queue w.task.system
      → (x : List ℕ) × AddsTop contended frames w.task x
        × (task_stream (finish_frame links contended frames w).task ≡ task_stream w.task ++ x)
  finish_frame-adds contended [] w b = ([], refl, sym (append-nil (task_stream w.task)))
  finish_frame-adds contended (f ∷ frames) w b = finish_at-adds f.remaining contended f frames w b

  act-stream :
      (m : Move T) (w : World T C K)
      → IsRunning w.task.phase
      → Books queue w.task.system
      → (x : List ℕ) × Adds m w x × (task_stream (act links m w).task ≡ task_stream w.task ++ x)
  unfolding act step
  act-stream (reads id n) w r b = (
    [],
    refl,
    read_port-stream links.mpsc queue fifo sent w.task.system.locals.commands
          w.task.system.locals.written (port_of w.task) id n
        ∙ sym (append-nil (task_stream w.task)),
  )
  act-stream (credits n m) w r b = (
    [],
    refl,
    read_credit_port-stream links.mpsc queue fifo sent w.task.system.locals.commands
          w.task.system.locals.written (port_of w.task) n m
        ∙ sym (append-nil (task_stream w.task)),
  )
  act-stream (writes id bytes allow contended) w r b =
      write-adds w.task bytes
        (write_port links.serial links.mpsc (port_of w.task) id bytes allow contended)
        (write_port-Wrote links.serial links.mpsc queue fifo law w.task.system.locals.commands
          w.task.system.locals.written (port_of w.task) id bytes allow contended b)
  act-stream (calls_writev id count hint allow) w r b =
      ([], refl, sym (append-nil (task_stream w.task)))
  act-stream (gives g) w r b = ([], refl, sym (append-nil (task_stream w.task)))
  act-stream (finishes contended) w r b = finish_frame-adds contended w.frames w b
  act-stream (requests id op value) w r b = (
    [],
    refl,
    request-stream links.mpsc queue fifo sent w.task.system.locals.commands
          w.task.system.locals.written (port_of w.task) id op value
        ∙ sym (append-nil (task_stream w.task)),
  )
  act-stream closes w r b = (
    [],
    refl,
    close-stream links.mpsc queue fifo sent w.task.system.locals.commands
          w.task.system.locals.written (port_of w.task)
        ∙ sym (append-nil (task_stream w.task)),
  )
  act-stream (works choice) w r b = (
    [],
    refl,
    step-stream choice w.task.system w.task.phase r b ∙ sym (append-nil (task_stream w.task)),
  )

  -- In every interleaving of JavaScript's calls with the steps of a running task that still runs
  -- at its end, the bytes sent to the device and the bytes still queued are, in order, those of the
  -- start followed by those that the history's calls add: all bytes of each accepted `write`, a
  -- prefix of those of each refused one, the same of the bytes that a `writev` has read where it
  -- ends, nothing for any other call or step.
  pub history_stream :
      (ms : List (Move T)) (w : World T C K)
      → IsRunning w.task.phase
      → Books queue w.task.system
      → IsRunning (history links ms w).task.phase
      → (b : List ℕ) × Added ms w b
        × (task_stream (history links ms w).task ≡ task_stream w.task ++ b)
  unfolding history
  history_stream [] w r b e = ([], refl, sym (append-nil (task_stream w.task)))
  history_stream (m ∷ ms) w r b e =
      let started = act-started links m w (running-started links w.task.phase r) in
      let now = IsRunning-back links ms (act links m w) started.0 e in
      let (x, adds, p) = act-stream m w r b in
      let (y, added, q) =
        history_stream ms (act links m w) now (act-Books queue links law fifo m w b) e in
      (
        x ++ y,
        (x, y, refl, adds, added),
        q ∙ ap (λ z. z ++ y) p ∙ append_assoc (task_stream w.task) x y,
      )
