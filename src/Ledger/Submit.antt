-- ===== src/Ledger/Submit.antt =====
-- What JavaScript calls in src/lib.rs keeps the books.
use node_serialport_rs.Prelude.{ℕ, String, Option, none, some, List, [], ◌∷◌, arith}
use node_serialport_rs.Command.{Operation, read, read_credit, Command}
use node_serialport_rs.Control.{Mpsc, IsMpsc, stop}
use node_serialport_rs.Port.{
  NativePort, enqueue, read_port, read_credit_port, request, request_operation, requested, close,
}
use node_serialport_rs.Ledger.{Ledger, ordered_count-append}

module _ {T C : Type 0} (mpsc : Mpsc C) (queue : C → List Command) (fifo : IsMpsc mpsc queue)
    (commands : List Command) (written : ℕ) where
  -- The books, with the reactor's queue and its `written` as they are.
  abbrev pub PortBooks : NativePort T C → Type 0
  PortBooks p = Ledger p.control.pending_ops (queue p.sender) commands written

  pub enqueue-PortBooks :
      (p : NativePort T C) (c : Command) → PortBooks p → PortBooks (enqueue mpsc p c).0
  unfolding enqueue
  enqueue-PortBooks p c h =
      ground (arith, fifo.send_queue p.sender c, ordered_count-append (queue p.sender) (c ∷ []))

  pub read_port-PortBooks :
      (p : NativePort T C) (id n : ℕ) → PortBooks p → PortBooks (read_port mpsc p id n).0
  unfolding read_port
  read_port-PortBooks p id n h =
      ground (arith, enqueue-PortBooks p (record { id = id; operation = read n }) h)

  pub read_credit_port-PortBooks :
      (p : NativePort T C) (bytes events : ℕ)
      → PortBooks p
      → PortBooks (read_credit_port mpsc p bytes events).0
  unfolding read_credit_port
  read_credit_port-PortBooks p bytes events h =
      ground
        (arith, enqueue-PortBooks p (record { id = 0; operation = read_credit bytes events }) h)

  requested-PortBooks :
      (p : NativePort T C) (id : ℕ) (o : Option Operation)
      → PortBooks p
      → PortBooks (request_operation mpsc p id o).0
  requested-PortBooks p id none h = h
  requested-PortBooks p id (some op) h = enqueue-PortBooks p (record { id = id; operation = op }) h

  pub request-PortBooks :
      (p : NativePort T C) (id : ℕ) (op : String) (value : ℕ)
      → PortBooks p
      → PortBooks (request mpsc p id op value).0
  unfolding request
  request-PortBooks p id op value h = requested-PortBooks p id (requested op value) h

  pub close-PortBooks : (p : NativePort T C) → PortBooks p → PortBooks (close p)
  unfolding close stop
  close-PortBooks p h = h
