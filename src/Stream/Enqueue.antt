-- ===== src/Stream/Enqueue.antt =====
-- `enqueue` of src/lib.rs puts the bytes of a command at the end of the stream of bytes.
use node_serialport_rs.Prelude.{
  ℕ, ◌≡◌, sym, ap, ◌∙◌, Bool, true, false, Option, none, some, List, [], ◌∷◌, ◌++◌, arith,
  append_assoc, append-nil, String,
}
use node_serialport_rs.Io.{ok, err}
use node_serialport_rs.Command.{Command, ordered}
use node_serialport_rs.Event.{JsResult}
use node_serialport_rs.Control.{Mpsc, IsMpsc, sent_to, fetch_add_one}
use node_serialport_rs.Port.{NativePort, enqueue, submitted, set_pending}
use node_serialport_rs.Stream.{bytes_of, backlog, outstanding, sent_of, backlog-append}

-- Bytes at the end of the channel are at the end of the stream.
at_end : (a b q q' x : List ℕ) → q' ≡ q ++ x → a ++ (b ++ q') ≡ (a ++ (b ++ q)) ++ x
at_end a b q q' x e =
    ap (λ t. a ++ (b ++ t)) e
    ∙ ap (◌++◌ a) (sym (append_assoc b q x))
    ∙ sym (append_assoc a (b ++ q) x)

module _ {T C : Type 0} (mpsc : Mpsc C) (queue : C → List Command) (fifo : IsMpsc mpsc queue)
    (sent : T → List ℕ) (commands : List Command) (written : ℕ) where
  -- The stream, with the reactor's queue and its `written` as they are.
  abbrev pub port_stream : NativePort T C → List ℕ
  port_stream p =
      sent_of sent p.control.session ++ (outstanding commands written ++ backlog (queue p.sender))

  -- The bytes that a submission adds.
  abbrev pub added : JsResult (Unit {0}) → List ℕ → List ℕ
  added (ok u) bytes = bytes
  added (err e) bytes = []

  submitted-stream :
      (p : NativePort T C) (o : Bool) (c : Command) (r : C × Option String)
      → queue r.0 ≡ sent_to r.1 (queue p.sender) c
      → port_stream (submitted mpsc p o r).0
        ≡ port_stream p ++ added (submitted mpsc p o r).1 (bytes_of c.operation)
  submitted-stream p o c (ch, none) q =
      at_end (sent_of sent p.control.session) (outstanding commands written)
        (backlog (queue p.sender)) (backlog (queue ch)) (bytes_of c.operation)
        (ap backlog q
          ∙ backlog-append (queue p.sender) (c ∷ [])
          ∙ ap (◌++◌ (backlog (queue p.sender))) (append-nil (bytes_of c.operation)))
  submitted-stream p true c (ch, some e) q =
      at_end (sent_of sent p.control.session) (outstanding commands written)
        (backlog (queue p.sender)) (backlog (queue ch)) []
        (ap backlog q ∙ sym (append-nil (backlog (queue p.sender))))
  submitted-stream p false c (ch, some e) q =
      at_end (sent_of sent p.control.session) (outstanding commands written)
        (backlog (queue p.sender)) (backlog (queue ch)) []
        (ap backlog q ∙ sym (append-nil (backlog (queue p.sender))))

  -- An accepted command adds its bytes at the end, a refused one adds nothing.
  pub enqueue-stream :
      (p : NativePort T C) (c : Command)
      → port_stream (enqueue mpsc p c).0
        ≡ port_stream p ++ added (enqueue mpsc p c).1 (bytes_of c.operation)
  unfolding enqueue
  enqueue-stream p c =
      let reserved = set_pending p (fetch_add_one p.control.pending_ops) in
      ground (
        arith,
        append-nil (port_stream p),
        submitted-stream p (ordered c) c (mpsc.try_send p.sender c) (fifo.send_queue p.sender c),
        submitted-stream reserved (ordered c) c (mpsc.try_send p.sender c)
            (fifo.send_queue p.sender c),
      )
