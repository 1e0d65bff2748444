-- ===== src/Ledger/Select.antt =====
-- The `select!` of src/reactor.rs keeps the books.
use node_serialport_rs.Prelude.{ℕ, ◌≡◌, refl, ap, Bool, true, false, some, List, ◌∷◌, arith}
use node_serialport_rs.Io.{io_error, ErrorKind}
use node_serialport_rs.Command.{Operation, read, read_credit, Command, ordered, ordered_operation}
use node_serialport_rs.Event.{error}
use node_serialport_rs.Reactor.{Links, System, send}
use node_serialport_rs.Reactor.Turn.{Turn, return, again, parked, sent_or_return}
use node_serialport_rs.Reactor.Receive.{
  take_credit, take_read, push_back, receive_operation, receive,
}
use node_serialport_rs.Ledger.{Ledger, Ledger-receive, Ledger-receive_unordered}
use node_serialport_rs.Ledger.Serve.{Books}

-- The predicate holds of the state however the poll ends.
abbrev pub TurnAll : {S : Type 0} → (S → Type 0) → Turn S → Type 0
TurnAll P (return s r) = P s
TurnAll P (again s) = P s
TurnAll P (parked s) = P s

module _ {T C K : Type 0} (queue : C → List Command) where
  -- The books while the command is in neither queue.
  abbrev pub Between : System T C K → Command → Type 0
  Between s c =
      Ledger s.control.pending_ops (c ∷ queue s.channel) s.locals.commands s.locals.written

  pub sent-Books :
      (s : System T C K) (r : K × Bool) → Books queue s → TurnAll (Books queue) (sent_or_return s r)
  sent-Books s (k, true) h = h
  sent-Books s (k, false) h = h

  take_credit-Books :
      (s : System T C K) (bytes slots : ℕ)
      → Books queue s
      → TurnAll (Books queue) (take_credit s bytes slots)
  unfolding take_credit
  take_credit-Books s bytes slots h = ground arith

  push_back-Books :
      (s : System T C K) (c : Command)
      → ordered c ≡ true
      → Between s c
      → TurnAll (Books queue) (push_back s c)
  unfolding push_back
  push_back-Books s c o h = Ledger-receive c o h

module _ {T C K : Type 0} (queue : C → List Command) (links : Links T C K) where
  take_read-Books :
      (s : System T C K) (id wanted : ℕ)
      → Books queue s
      → TurnAll (Books queue) (take_read links s id wanted)
  unfolding take_read
  take_read-Books s id wanted h = ground (
    arith,
    sent-Books queue s
        (send links s.callback (error id (io_error ErrorKind.resource_busy "Read already pending")))
        h,
  )

  operation-Books :
      (s : System T C K) (c : Command) (op : Operation)
      → c.operation ≡ op
      → Between queue s c
      → TurnAll (Books queue) (receive_operation links s c op)
  unfolding receive_operation
  operation-Books s c (read wanted) o h =
      take_read-Books s c.id wanted (Ledger-receive_unordered c (ap ordered_operation o) h)
  operation-Books s c (read_credit bytes slots) o h =
      take_credit-Books queue s bytes slots (Ledger-receive_unordered c (ap ordered_operation o) h)
  operation-Books s c op o h = push_back-Books queue s c (ap ordered_operation o) h

  -- What the `recv` branch does with a command that has just left the channel.
  pub receive-Books :
      (s : System T C K) (c : Command)
      → Between queue s c
      → TurnAll (Books queue) (receive links s (some c))
  unfolding receive
  receive-Books s c h = operation-Books s c c.operation refl h
