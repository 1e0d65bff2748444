-- ===== src/Stream/Write.antt =====
-- `write` and `writev` of src/lib.rs append to the stream of bytes.
use node_serialport_rs.Prelude.{
  ℕ, ◌+◌, ◌≤◌, ◌≡◌, refl, sym, ap, ◌∙◌, ◌==◌, Bool, true, false, if_cases, Option, none, some, List,
  [], ◌∷◌, ◌++◌, arith, length, take, drop, take-append-drop, append_assoc, append-nil, leb, not,
  ◌&&◌, take-all,
}
use node_serialport_rs.Io.{IoResult, ok, err, ready}
use node_serialport_rs.Command.{write, Command}
use node_serialport_rs.Event.{JsError, JsResult}
use node_serialport_rs.Transfer.Bytes.{moved, Fits}
use node_serialport_rs.Serial.{Serial}
use node_serialport_rs.Serial.Laws.{IsSerial}
use node_serialport_rs.Control.{Control, Mpsc, IsMpsc, chunk_size}
use node_serialport_rs.Port.{NativePort, closed, invalid_argument, enqueue}
use node_serialport_rs.Port.Write.{
  count_of, inline_locked, inline_write, queued, enqueue_rest, finish_write, attempt_write,
  write_port, write_snapshot,
}
use node_serialport_rs.Ledger.{Ledger, ordered_count}
use node_serialport_rs.Stream.{backlog, outstanding, sent_of, bytes_of-unordered}
use node_serialport_rs.Stream.Enqueue.{port_stream, added, enqueue-stream}

-- With no reservation held, neither queue holds bytes.
backlog-unordered : (q : List Command) → ordered_count q ≡ 0 → backlog q ≡ []
backlog-unordered [] h = refl
backlog-unordered (c ∷ cs) h =
    rw (bytes_of-unordered c.operation (ground arith)) (backlog-unordered cs (ground arith))

idle_lists :
    (cs : List Command) (w : ℕ) (q : List Command)
    → ordered_count q + length cs ≡ 0
    → outstanding cs w ++ backlog q ≡ []
idle_lists [] w q h = backlog-unordered q (omega arith)
idle_lists (c ∷ cs) w q h = absurd (omega arith)

module _ {T C : Type 0} (mpsc : Mpsc C) (queue : C → List Command) (fifo : IsMpsc mpsc queue)
    (sent : T → List ℕ) (commands : List Command) (written : ℕ) where
  -- What a `write` of the bytes has done to the port. If it reports `true` the driver has all of
  -- them; if it reports success they are all at the end of the stream; if it reports an error a
  -- prefix of them is, which the driver has.
  abbrev pub Wrote : NativePort T C → List ℕ → NativePort T C × JsResult Bool → Type 0
  Wrote p bytes (p', ok true) =
      (sent_of sent p'.control.session ≡ sent_of sent p.control.session ++ bytes)
      × (port_stream mpsc queue fifo sent commands written p'
          ≡ port_stream mpsc queue fifo sent commands written p ++ bytes)
  Wrote p bytes (p', ok false) =
      port_stream mpsc queue fifo sent commands written p'
      ≡ port_stream mpsc queue fifo sent commands written p ++ bytes
  Wrote p bytes (p', err e) =
      (n : ℕ) × (n ≤ length bytes)
      × (port_stream mpsc queue fifo sent commands written p'
          ≡ port_stream mpsc queue fifo sent commands written p ++ take n bytes)

  queued-Wrote :
      (p p' : NativePort T C) (bytes : List ℕ) (n : ℕ) (r : NativePort T C × JsResult (Unit {0}))
      → n ≤ length bytes
      → port_stream mpsc queue fifo sent commands written p'
        ≡ port_stream mpsc queue fifo sent commands written p ++ take n bytes
      → port_stream mpsc queue fifo sent commands written r.0
        ≡ port_stream mpsc queue fifo sent commands written p'
          ++ added mpsc queue fifo sent commands written r.1 (drop n bytes)
      → Wrote p bytes (queued mpsc r)
  queued-Wrote p p' bytes n (q, ok u) l h e =
      e
      ∙ ap (λ b. b ++ drop n bytes) h
      ∙ append_assoc (port_stream mpsc queue fifo sent commands written p) (take n bytes)
          (drop n bytes)
      ∙ ap (◌++◌ (port_stream mpsc queue fifo sent commands written p)) (take-append-drop n bytes)
  queued-Wrote p p' bytes n (q, err x) l h e =
      (n, l, e ∙ append-nil (port_stream mpsc queue fifo sent commands written p') ∙ h)

  -- The rest of a write whose first `n` bytes the driver has taken.
  rest-Wrote :
      (p p' : NativePort T C) (id : ℕ) (bytes : List ℕ) (n : ℕ)
      → n ≤ length bytes
      → port_stream mpsc queue fifo sent commands written p'
        ≡ port_stream mpsc queue fifo sent commands written p ++ take n bytes
      → Wrote p bytes (enqueue_rest mpsc p' id (drop n bytes))
  unfolding enqueue_rest
  rest-Wrote p p' id bytes n l h =
      let c : Command = record { id = id; operation = write (drop n bytes) } in
      queued-Wrote p p' bytes n (enqueue mpsc p' c) l h
        (enqueue-stream mpsc queue fifo sent commands written p' c)

  -- What the inline attempt has done: it wrote nothing, or it wrote a prefix and nothing was
  -- queued before it.
  abbrev Inlined : NativePort T C → List ℕ → Control T × Option ℕ → Type 0
  Inlined p bytes (c, none) = sent_of sent c.session ≡ sent_of sent p.control.session
  Inlined p bytes (c, some n) =
      (n ≤ length bytes)
      × (sent_of sent c.session ≡ sent_of sent p.control.session ++ take n bytes)
      × (outstanding commands written ++ backlog (queue p.sender) ≡ [])

  inlined_stream :
      (p : NativePort T C) (c : Control T) (b : List ℕ)
      → sent_of sent c.session ≡ sent_of sent p.control.session ++ b
      → outstanding commands written ++ backlog (queue p.sender) ≡ []
      → port_stream mpsc queue fifo sent commands written (record p { control = c })
        ≡ port_stream mpsc queue fifo sent commands written p ++ b
  inlined_stream p c b e z =
      ap (◌++◌ (sent_of sent c.session)) z
      ∙ append-nil (sent_of sent c.session)
      ∙ e
      ∙ ap (λ a. a ++ b)
          (sym (append-nil (sent_of sent p.control.session))
            ∙ ap (◌++◌ (sent_of sent p.control.session)) (sym z))

  finish-Wrote :
      (p : NativePort T C) (id : ℕ) (bytes : List ℕ) (r : Control T × Option ℕ)
      → Inlined p bytes r
      → Wrote p bytes (finish_write mpsc (record p { control = r.0 }) id bytes r.1)
  finish-Wrote p id bytes (c, none) i =
      rest-Wrote p (record p { control = c }) id bytes 0 (omega arith)
        (ap (λ b. b ++ (outstanding commands written ++ backlog (queue p.sender))) i
          ∙ sym (append-nil (port_stream mpsc queue fifo sent commands written p)))
  finish-Wrote p id bytes (c, some n) (l, e, z) =
      if_cases (Wrote p bytes) (n == length bytes) _ _
        (λ t.
          let all = take-all n bytes (ground arith) in
          (
            e ∙ ap (◌++◌ (sent_of sent p.control.session)) all,
            inlined_stream p c (take n bytes) e z
                ∙ ap (◌++◌ (port_stream mpsc queue fifo sent commands written p)) all,
          ))
        (λ _.
          rest-Wrote p (record p { control = c }) id bytes n l
            (inlined_stream p c (take n bytes) e z))

module _ {T C : Type 0} (serial : Serial T) (mpsc : Mpsc C) (queue : C → List Command)
    (fifo : IsMpsc mpsc queue) {received sent : T → List ℕ} (law : IsSerial serial received sent)
    (commands : List Command) (written : ℕ) where
  abbrev Good : NativePort T C → List ℕ → Control T × Option ℕ → Type 0
  Good = Inlined mpsc queue fifo sent commands written

  -- No reservation is held.
  abbrev IsIdle : NativePort T C → Type 0
  IsIdle p = outstanding commands written ++ backlog (queue p.sender) ≡ []

  tried-Inlined :
      (p : NativePort T C) (bytes : List ℕ) (port port' : T) (r : IoResult ℕ)
      → sent port ≡ sent_of sent p.control.session
      → IsIdle p
      → sent port' ≡ sent port ++ moved (ready r) bytes
      → Fits (ready r) (length bytes)
      → Good p bytes (record p.control { session = some port' }, count_of r)
  tried-Inlined p bytes port port' (ok n) e z q f = (f, q ∙ ap (λ b. b ++ take n bytes) e, z)
  tried-Inlined p bytes port port' (err x) e z q f = q ∙ append-nil (sent port) ∙ e

  locked-Inlined :
      (p : NativePort T C) (bytes : List ℕ) (b : Bool) (o : Option T)
      → o ≡ p.control.session
      → IsIdle p
      → Good p bytes (inline_locked serial p.control b o bytes)
  locked-Inlined p bytes true o e z = refl
  locked-Inlined p bytes false none e z = refl
  locked-Inlined p bytes false (some port) e z =
      tried-Inlined p bytes port (serial.try_write bytes port).0 (serial.try_write bytes port).1
        (ap (sent_of sent) e) z (law.try_write_sent port bytes) (law.try_write_fits port bytes)

  inline_write-Inlined :
      (p : NativePort T C) (bytes : List ℕ) (allow contended : Bool)
      → Ledger p.control.pending_ops (queue p.sender) commands written
      → Good p bytes (inline_write serial p.control allow contended bytes)
  unfolding inline_write
  inline_write-Inlined p bytes allow contended l =
      if_cases (Good p bytes) (allow && (p.control.pending_ops == 0 && not contended)) _ _
        (λ e.
          locked-Inlined p bytes p.control.poisoned p.control.session refl
            (idle_lists commands written (queue p.sender) (ground arith)))
        (λ _. refl)

  abbrev pub Writes : NativePort T C → List ℕ → NativePort T C × JsResult Bool → Type 0
  Writes = Wrote mpsc queue fifo sent commands written

  attempt-Wrote :
      (p : NativePort T C) (id : ℕ) (bytes : List ℕ) (allow contended : Bool)
      → Ledger p.control.pending_ops (queue p.sender) commands written
      → Writes p bytes (attempt_write serial mpsc p id bytes allow contended)
  unfolding attempt_write
  attempt-Wrote p id bytes allow contended l =
      finish-Wrote mpsc queue fifo sent commands written p id bytes
        (inline_write serial p.control allow contended bytes)
        (inline_write-Inlined p bytes allow contended l)

  refused : (p : NativePort T C) (bytes : List ℕ) (e : JsError) → Writes p bytes (p, err e)
  refused p bytes e =
      (0, omega arith, sym (append-nil (port_stream mpsc queue fifo sent commands written p)))

  -- With the books right, a `write` that reports `true` has handed the driver all its bytes behind
  -- every earlier byte; one that reports success has put them at the end of the stream of bytes;
  -- and one that reports an error has put a prefix of them there, and moved nothing else.
  pub write_port-Wrote :
      (p : NativePort T C) (id : ℕ) (bytes : List ℕ) (allow_inline contended : Bool)
      → Ledger p.control.pending_ops (queue p.sender) commands written
      → Writes p bytes (write_port serial mpsc p id bytes allow_inline contended)
  unfolding write_port
  write_port-Wrote p id bytes allow_inline contended l =
      if_cases (Writes p bytes) (leb (length bytes) chunk_size) _ _
        (λ _.
          if_cases (Writes p bytes) p.control.stopped _ _ (λ _. refused p bytes closed)
            (λ _. attempt-Wrote p id bytes allow_inline contended l))
        (λ _. refused p bytes (invalid_argument "Invalid transfer size"))

  -- The part of `writev` after its loop does the same with the bytes that the loop has read.
  pub write_snapshot-Wrote :
      (p : NativePort T C) (id : ℕ) (bytes : List ℕ) (allow_inline contended : Bool)
      → Ledger p.control.pending_ops (queue p.sender) commands written
      → Writes p bytes (write_snapshot serial mpsc id allow_inline contended (p, ok bytes))
  unfolding write_snapshot
  write_snapshot-Wrote p id bytes allow_inline contended l =
      if_cases (Writes p bytes) p.control.stopped _ _ (λ _. refused p bytes closed)
        (λ _. attempt-Wrote p id bytes allow_inline contended l)
