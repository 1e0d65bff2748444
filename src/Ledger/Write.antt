-- ===== src/Ledger/Write.antt =====
-- `write` and `writev` of src/lib.rs keep the books.
use node_serialport_rs.Prelude.{
  ℕ, ◌≡◌, refl, Bool, true, false, Option, none, some, List, [], ◌∷◌, ◌++◌, arith, drop, All,
}
use node_serialport_rs.Io.{ok, err}
use node_serialport_rs.Command.{write, Command}
use node_serialport_rs.Event.{JsResult}
use node_serialport_rs.Serial.{Serial}
use node_serialport_rs.Control.{Control, Mpsc, IsMpsc}
use node_serialport_rs.Port.{NativePort, enqueue}
use node_serialport_rs.Port.Write.{
  Element, inline_locked, inline_write, queued, enqueue_rest, finish_write, attempt_write,
  write_port, add_segment, snapshot, write_snapshot, writev_port, allowed,
}
use node_serialport_rs.Ledger.Submit.{PortBooks, enqueue-PortBooks}

module _ {T : Type 0} (serial : Serial T) where
  pending-inline_locked :
      (c : Control T) (b : Bool) (o : Option T) (bytes : List ℕ)
      → (inline_locked serial c b o bytes).0.pending_ops ≡ c.pending_ops
  pending-inline_locked c true o bytes = refl
  pending-inline_locked c false none bytes = refl
  pending-inline_locked c false (some port) bytes = refl

  pending-inline_write :
      (c : Control T) (allow contended : Bool) (bytes : List ℕ)
      → (inline_write serial c allow contended bytes).0.pending_ops ≡ c.pending_ops
  unfolding inline_write
  pending-inline_write c allow contended bytes =
      ground (arith, pending-inline_locked c c.poisoned c.session bytes)

module _ {T C : Type 0} (mpsc : Mpsc C) (queue : C → List Command) (fifo : IsMpsc mpsc queue)
    (commands : List Command) (written : ℕ) where
  abbrev Keeps : NativePort T C → Type 0
  Keeps p = PortBooks mpsc queue fifo commands written p

  queued-Keeps : (r : NativePort T C × JsResult (Unit {0})) → Keeps r.0 → Keeps (queued mpsc r).0
  queued-Keeps (p, ok u) h = h
  queued-Keeps (p, err e) h = h

  rest-Keeps :
      (p : NativePort T C) (id : ℕ) (bytes : List ℕ)
      → Keeps p
      → Keeps (enqueue_rest mpsc p id bytes).0
  unfolding enqueue_rest
  rest-Keeps p id bytes h =
      queued-Keeps (enqueue mpsc p (record { id = id; operation = write bytes })) (
        enqueue-PortBooks mpsc queue fifo commands written p
          (record { id = id; operation = write bytes }) h)

  finish-Keeps :
      (p : NativePort T C) (id : ℕ) (bytes : List ℕ) (count : Option ℕ)
      → Keeps p
      → Keeps (finish_write mpsc p id bytes count).0
  finish-Keeps p id bytes none h = rest-Keeps p id bytes h
  finish-Keeps p id bytes (some n) h = ground (arith, rest-Keeps p id (drop n bytes) h)

  attempt-Keeps :
      (serial : Serial T) (p : NativePort T C) (id : ℕ) (bytes : List ℕ) (allow contended : Bool)
      → Keeps p
      → Keeps (attempt_write serial mpsc p id bytes allow contended).0
  unfolding attempt_write
  attempt-Keeps serial p id bytes allow contended h =
      let r = inline_write serial p.control allow contended bytes in
      finish-Keeps (record p { control = r.0 }) id bytes r.1
        (rw (pending-inline_write serial p.control allow contended bytes) h)

  pub write_port-Keeps :
      (serial : Serial T) (p : NativePort T C) (id : ℕ) (bytes : List ℕ) (allow contended : Bool)
      → Keeps p
      → Keeps (write_port serial mpsc p id bytes allow contended).0
  unfolding write_port
  write_port-Keeps serial p id bytes allow contended h =
      ground (arith, attempt-Keeps serial p id bytes allow contended h)

  -- Reading an element may run JavaScript, which itself only calls the port.
  abbrev pub ElementKeeps : Element T C → Type 0
  ElementKeeps element = (p : NativePort T C) → Keeps p → Keeps (element p).0

  segment-Keeps :
      (bytes : List ℕ) (r : NativePort T C × JsResult (Option (List ℕ)))
      (next : NativePort T C → List ℕ → NativePort T C × JsResult (List ℕ))
      → Keeps r.0
      → ((p : NativePort T C) (b : List ℕ) → Keeps p → Keeps (next p b).0)
      → Keeps (add_segment bytes r next).0
  segment-Keeps bytes (p, err e) next h k = h
  segment-Keeps bytes (p, ok none) next h k = h
  segment-Keeps bytes (p, ok (some buffer)) next h k = ground (arith, k p (bytes ++ buffer) h)

  snapshot-Keeps :
      (elements : List (Element T C)) (p : NativePort T C) (bytes : List ℕ)
      → All ElementKeeps elements
      → Keeps p
      → Keeps (snapshot p bytes elements).0
  unfolding snapshot
  snapshot-Keeps [] p bytes k h = h
  snapshot-Keeps (element ∷ rest) p bytes k h =
      segment-Keeps bytes (element p) _ (k.0 p h) (λ p' b. snapshot-Keeps rest p' b k.1)

  pub write_snapshot-Keeps :
      (serial : Serial T) (id : ℕ) (allow contended : Bool) (r : NativePort T C × JsResult (List ℕ))
      → Keeps r.0
      → Keeps (write_snapshot serial mpsc id allow contended r).0
  unfolding write_snapshot
  write_snapshot-Keeps serial id allow contended (p, err e) h = h
  write_snapshot-Keeps serial id allow contended (p, ok bytes) h =
      ground (arith, attempt-Keeps serial p id bytes allow contended h)

  pub writev_port-Keeps :
      (serial : Serial T) (p : NativePort T C) (id : ℕ) (elements : List (Element T C))
      (hint : Option ℕ) (allow : Option Bool) (contended : Bool)
      → All ElementKeeps elements
      → Keeps p
      → Keeps (writev_port serial mpsc p id elements hint allow contended).0
  unfolding writev_port
  writev_port-Keeps serial p id elements hint allow contended k h = ground (
    arith,
    write_snapshot-Keeps serial id (allowed allow) contended (snapshot p [] elements)
        (snapshot-Keeps elements p [] k h),
  )
