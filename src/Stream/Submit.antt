-- ===== src/Stream/Submit.antt =====
-- The calls of src/lib.rs other than writes leave the stream of bytes as it is.
use node_serialport_rs.Prelude.{
  ℕ, ◌≡◌, refl, String, Option, none, some, List, [], arith, append-nil,
}
use node_serialport_rs.Command.{Operation, read, read_credit, Command}
use node_serialport_rs.Control.{Mpsc, IsMpsc, stop}
use node_serialport_rs.Port.{
  NativePort, enqueue, read_port, read_credit_port, requested, request_operation, request, close,
}
use node_serialport_rs.Stream.{bytes_of}
use node_serialport_rs.Stream.Enqueue.{port_stream, enqueue-stream}

requested-bytes :
    (op : String) (value : ℕ) {o : Operation} → requested op value ≡ some o → bytes_of o ≡ []
unfolding requested
requested-bytes op value h = ground arith

module _ {T C : Type 0} (mpsc : Mpsc C) (queue : C → List Command) (fifo : IsMpsc mpsc queue)
    (sent : T → List ℕ) (commands : List Command) (written : ℕ) where
  abbrev stream_of : NativePort T C → List ℕ
  stream_of = port_stream mpsc queue fifo sent commands written

  -- A command without bytes adds none, accepted or not.
  enqueue_empty :
      (p : NativePort T C) (c : Command)
      → bytes_of c.operation ≡ []
      → stream_of (enqueue mpsc p c).0 ≡ stream_of p
  enqueue_empty p c e =
      ground
        (arith, enqueue-stream mpsc queue fifo sent commands written p c, append-nil (stream_of p))

  pub read_port-stream :
      (p : NativePort T C) (id n : ℕ) → stream_of (read_port mpsc p id n).0 ≡ stream_of p
  unfolding read_port
  read_port-stream p id n =
      ground (arith, enqueue_empty p (record { id = id; operation = read n }) refl)

  pub read_credit_port-stream :
      (p : NativePort T C) (bytes events : ℕ)
      → stream_of (read_credit_port mpsc p bytes events).0 ≡ stream_of p
  unfolding read_credit_port
  read_credit_port-stream p bytes events =
      ground (arith, enqueue_empty p (record { id = 0; operation = read_credit bytes events }) refl)

  requested-stream :
      (p : NativePort T C) (id : ℕ) (o : Option Operation)
      → ((op : Operation) → o ≡ some op → bytes_of op ≡ [])
      → stream_of (request_operation mpsc p id o).0 ≡ stream_of p
  requested-stream p id none h = refl
  requested-stream p id (some op) h =
      enqueue_empty p (record { id = id; operation = op }) (h op refl)

  pub request-stream :
      (p : NativePort T C) (id : ℕ) (op : String) (value : ℕ)
      → stream_of (request mpsc p id op value).0 ≡ stream_of p
  unfolding request
  request-stream p id op value =
      requested-stream p id (requested op value) (λ o e. requested-bytes op value e)

  pub close-stream : (p : NativePort T C) → stream_of (close p) ≡ stream_of p
  unfolding close stop
  close-stream p = refl
