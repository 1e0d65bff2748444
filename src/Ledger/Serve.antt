-- ===== src/Ledger/Serve.antt =====
-- The inner loop of src/reactor.rs keeps the books.
use node_serialport_rs.Prelude.{
  ℕ, ◌≡◌, refl, sym, subst, ◌∙◌, ◌==◌, Bool, true, false, if_cases, Bool-cases, inl, inr, Option,
  none, some, List, [], ◌∷◌, ltb, length, String,
}
use node_serialport_rs.Io.{IoResult, ok, err}
use node_serialport_rs.Command.{Operation, write, drain, Command}
use node_serialport_rs.Event.{NativeEvent, event}
use node_serialport_rs.Reactor.Operation.{operation}
use node_serialport_rs.Control.{Control, with_port}
use node_serialport_rs.Control.Session.{pending-with_session}
use node_serialport_rs.Reactor.{Links, System}
use node_serialport_rs.Reactor.Serve.{
  Round, return, break, next, complete, serve_front, serve, serve_command, serve_drain, drained,
  answered, set_control, set_locals, release, event_of,
}
use node_serialport_rs.Ledger.{Ledger, Ledger-release, WithinOperation, WithinFront}

-- The predicate holds of the state however the round ends.
abbrev pub RoundAll : {S : Type 0} → (S → Type 0) → Round S → Type 0
RoundAll P (return s r) = P s
RoundAll P (break s d) = P s
RoundAll P (next s) = P s

module _ {T C K : Type 0} (queue : C → List Command) where
  abbrev pub Books : System T C K → Type 0
  Books s = Ledger s.control.pending_ops (queue s.channel) s.locals.commands s.locals.written

module _ {T C K : Type 0} (queue : C → List Command) (links : Links T C K) where
  answered-Books :
      (s : System T C K) (r : K × Bool) → Books queue s → RoundAll (Books queue) (answered s r)
  answered-Books s (k, true) h = h
  answered-Books s (k, false) h = h

  complete-Books :
      (s : System T C K) (command : Command) (rest : List Command) (e : NativeEvent) (n : ℕ)
      → s.locals.written ≡ 0
      → Ledger s.control.pending_ops (queue s.channel) (command ∷ rest) n
      → RoundAll (Books queue) (complete links s rest e)
  unfolding complete
  complete-Books s command rest e n w h =
      answered-Books (release s rest) (links.sink.call s.callback (event e))
        (rw w (Ledger-release h))

  -- The answer to a command that is no write, after a call that may have changed the port.
  control-Books :
      (s : System T C K) (c : Control T) (command : Command) (rest : List Command) (e : NativeEvent)
      → command ∷ rest ≡ s.locals.commands
      → c.pending_ops ≡ s.control.pending_ops
      → s.locals.written ≡ 0
      → Books queue s
      → RoundAll (Books queue) (complete links (set_control s c) rest e)
  control-Books s c command rest e q p w h =
      complete-Books (set_control s c) command rest e s.locals.written w (rw (p, q) h)

  pending-drained :
      (c : Control T) (lost : Option String) → (drained links c lost).0.pending_ops ≡ c.pending_ops
  pending-drained c none = pending-with_session c links.serial.drain_output err
  pending-drained c (some e) = refl

  drain-Books :
      (s : System T C K) (command : Command) (rest : List Command) (lost : Option String)
      (r : Control T × IoResult ℕ)
      → command ∷ rest ≡ s.locals.commands
      → r.0.pending_ops ≡ s.control.pending_ops
      → s.locals.written ≡ 0
      → Books queue s
      → RoundAll (Books queue) (serve_drain links s command.id rest lost r)
  drain-Books s command rest lost (c, err e) q p w h = rw p h
  drain-Books s command rest lost (c, ok queued) q p w h = elim (Bool-cases (queued == 0)) [
    | inl e ↦
        rw e (
          control-Books s (drained links c lost).0 command rest _ q (pending-drained c lost ∙ p) w
            h)
    | inr e ↦ rw (e, p) h
  ]

  operation-Books :
      (s : System T C K) (command : Command) (rest : List Command)
      → command ∷ rest ≡ s.locals.commands
      → s.locals.written ≡ 0
      → Books queue s
      → let r = with_port s.control (operation links.serial command) in
        RoundAll (Books queue) (complete links (set_control s r.0) rest (event_of command.id r.1))
  operation-Books s command rest q w h =
      control-Books s _ command rest _ q
        (pending-with_session s.control (operation links.serial command) err) w h

  -- The write at the front, complete or not.
  write-Books :
      (s : System T C K) (command : Command) (bytes : List ℕ) (rest : List Command)
      (lost : Option String)
      → command ∷ rest ≡ s.locals.commands
      → Books queue s
      → RoundAll (Books queue) (serve_command links s command (write bytes) rest lost)
  write-Books s command bytes rest lost q h =
      elim (Bool-cases (ltb s.locals.written (length bytes))) [
        | inl e ↦ rw e h
        | inr e ↦ rw e (
            complete-Books (set_locals s (record s.locals { written = 0 })) command rest _
              s.locals.written refl (rw q h))
      ]

  command-Books :
      (s : System T C K) (command : Command) (op : Operation) (rest : List Command)
      (lost : Option String)
      → command ∷ rest ≡ s.locals.commands
      → WithinOperation op s.locals.written
      → Books queue s
      → RoundAll (Books queue) (serve_command links s command op rest lost)
  command-Books s command (write bytes) rest lost q w h = write-Books s command bytes rest lost q h
  command-Books s command drain rest lost q w h =
      drain-Books s command rest lost (with_port s.control links.serial.bytes_to_write) q
        (pending-with_session s.control links.serial.bytes_to_write err) w h
  command-Books s command op rest lost q w h = operation-Books s command rest q w h

  front-Books :
      (s : System T C K) (commands : List Command) (lost : Option String)
      → commands ≡ s.locals.commands
      → Books queue s
      → RoundAll (Books queue) (serve_front links s commands lost)
  unfolding serve_front
  front-Books s [] lost q h = h
  front-Books s (command ∷ rest) lost q h =
      if_cases (RoundAll (Books queue)) s.control.stopped _ _ (λ _. h)
        (λ _.
          command-Books s command command.operation rest lost q
            (subst (λ cs. WithinFront cs s.locals.written) (sym q) h.within) h)

  -- However a round of the inner loop ends, the books are right after it.
  pub serve-Books :
      (s : System T C K) (lost : Option String)
      → Books queue s
      → RoundAll (Books queue) (serve links s lost)
  unfolding serve
  serve-Books s lost h = front-Books s s.locals.commands lost refl h
