-- ===== src/Reactor/Serve/Answers.antt =====
-- Each round of the inner loop of src/reactor.rs answers the front command, or leaves it there.
use node_serialport_rs.Prelude.{
  ℕ, ◌≡◌, refl, sym, subst, ap, ◌∙◌, ◌⊎◌, inl, inr, ◌==◌, ltb, Bool, true, false, Option, none,
  some, String, List, [], ◌∷◌, ◌++◌, length, if_cases, if◌then◌else◌,
}
use node_serialport_rs.Io.{IoError, IoResult, ok, err}
use node_serialport_rs.Command.{
  Operation, write, update, set_lines, get, get_baud_rate, flush, drain, Command,
}
use node_serialport_rs.Event.{NativeEvent, CallbackEvent, event, new, with_error, error}
use node_serialport_rs.Serial.{Serial, PortCall, after, ◌>>=◌, ◌>>◌, pure}
use node_serialport_rs.Platform.{set_baud_rate, baud_rate}
use node_serialport_rs.Control.{Control, IsSink, fetch_sub_one, locked, with_port}
use node_serialport_rs.Control.Session.{pending-with_session}
use node_serialport_rs.Reactor.{Links, System, send}
use node_serialport_rs.Reactor.Operation.{has_flag, perform, operation}
use node_serialport_rs.Reactor.Serve.{
  Round, return, break, next, event_of, done_event, set_control, set_locals, release, answered,
  complete, drained, serve_drain, serve_command, serve_front, serve,
}

-- An event, if there is one, is for this request.
abbrev HasId : ℕ → IoResult NativeEvent → Type 0
HasId id (ok e) = e.id ≡ id
HasId id (err e) = Unit {0}

module _ {T : Type 0} (serial : Serial T) (id : ℕ) where
  after-HasId :
      {A : Type 0} (r : T × IoResult A) (f : A → PortCall T NativeEvent)
      → ((a : A) (p : T) → HasId id (f a p).1)
      → HasId id (after r f).1
  after-HasId (p, ok a) f h = h a p
  after-HasId (p, err e) f h = tt

  -- A call whose event is for this request, whatever the port answers.
  abbrev AllHasId : PortCall T NativeEvent → Type 0
  AllHasId m = (p : T) → HasId id (m p).1

  bind-HasId :
      {A : Type 0} (m : PortCall T A) (f : A → PortCall T NativeEvent)
      → ((a : A) → AllHasId (f a))
      → AllHasId (m >>= f)
  bind-HasId m f h p = after-HasId (m p) f h

  then-HasId :
      (m : PortCall T (Unit {0})) (k : PortCall T NativeEvent) → AllHasId k → AllHasId (m >> k)
  then-HasId m k h p = after-HasId (m p) (λ _. k) (λ _. h)

  done-HasId : AllHasId (pure (new id "ok"))
  done-HasId p = refl

  perform-HasId : (op : Operation) → AllHasId (perform serial id op)
  unfolding perform
  perform-HasId (update baud) =
      then-HasId (set_baud_rate serial baud) (pure (new id "ok")) done-HasId
  perform-HasId get_baud_rate =
      bind-HasId (baud_rate serial) (λ baud. pure (record (new id "ok") { baud_rate = some baud }))
        (λ _ _. refl)
  perform-HasId (set_lines flags) =
      then-HasId (serial.write_data_terminal_ready (has_flag flags 1)) _ (
        then-HasId (serial.write_request_to_send (has_flag flags 2)) _ (
          then-HasId (if has_flag flags 4 then serial.set_break else serial.clear_break)
            (pure (new id "ok")) done-HasId))
  perform-HasId get = bind-HasId serial.read_clear_to_send _ (λ cts.
      bind-HasId serial.read_data_set_ready _ (λ dsr.
        bind-HasId serial.read_carrier_detect
          (λ dcd. pure (record (new id "ok") { cts = some cts; dsr = some dsr; dcd = some dcd }))
          (λ _ _. refl)))
  perform-HasId flush = then-HasId serial.clear_all (pure (new id "ok")) done-HasId
  perform-HasId _ = λ p. tt

  locked-HasId :
      (c : Control T) (b : Bool) (o : Option T) (body : PortCall T NativeEvent)
      → ((p : T) → HasId id (body p).1)
      → HasId id (locked c b o body err).1
  locked-HasId c true o body h = tt
  locked-HasId c false none body h = tt
  locked-HasId c false (some p) body h = h p

error-id : (id : ℕ) (e : IoError) → (error id e).id ≡ id
unfolding error with_error
error-id id e = refl

done-id : (id : ℕ) (r : IoResult (Unit {0})) → (done_event id r).id ≡ id
done-id id (ok u) = refl
done-id id (err e) = error-id id e

event_of-id : (id : ℕ) (r : IoResult NativeEvent) → HasId id r → (event_of id r).id ≡ id
event_of-id id (ok e) h = h
event_of-id id (err e) h = error-id id e

module _ {T C K : Type 0} (links : Links T C K) (delivered : K → List CallbackEvent)
    (sink : IsSink links.sink delivered) (c : Command) (rest : List Command)
    (s : System T C K) where
  -- The front command is gone with its reservation, and one event answers it.
  pub record Answered (s' : System T C K) : Type 0 where
    pub commands : s'.locals.commands ≡ rest
    pub pending : s'.control.pending_ops ≡ fetch_sub_one s.control.pending_ops
    pub answer : NativeEvent
    pub same_id : answer.id ≡ c.id
    pub told : delivered s'.callback ≡ delivered s.callback ++ (event answer ∷ [])

  -- The front command stays, and nothing is sent.
  abbrev pub Waits : System T C K → Type 0
  Waits s' =
      (s'.locals.commands ≡ c ∷ rest)
      × (s'.control.pending_ops ≡ s.control.pending_ops)
      × (s'.callback ≡ s.callback)

  -- The command is off the queue, but the callback's queue has refused the event that answers it,
  -- which carries its number, so that JavaScript has not got it.
  pub record IsLost (s' : System T C K) : Type 0 where
    pub commands : s'.locals.commands ≡ rest
    pub pending : s'.control.pending_ops ≡ fetch_sub_one s.control.pending_ops
    pub answer : NativeEvent
    pub same_id : answer.id ≡ c.id
    pub refused : (send links s.callback answer).1 ≡ false
    pub untold : delivered s'.callback ≡ delivered s.callback

  abbrev pub Answers : Round (System T C K) → Type 0
  Answers (next s') = Answered s'
  Answers (break s' d) = Waits s'
  Answers (return s' (ok u)) = Waits s' ⊎ IsLost s'
  Answers (return s' (err e)) = Waits s'

  answered-Answers :
      (s' : System T C K) (e : NativeEvent) (r : K × Bool)
      → s'.locals.commands ≡ rest
      → s'.control.pending_ops ≡ fetch_sub_one s.control.pending_ops
      → e.id ≡ c.id
      → r ≡ send links s.callback e
      → delivered r.0
        ≡ (if r.1 then delivered s.callback ++ (event e ∷ []) else delivered s.callback)
      → Answers (answered s' r)
  answered-Answers s' e (k, true) q p i f t = record {
    commands = q;
    pending = p;
    answer = e;
    same_id = i;
    told = t;
  }
  answered-Answers s' e (k, false) q p i f t = inr (record {
    commands = q;
    pending = p;
    answer = e;
    same_id = i;
    refused = ap (λ r. r.1) (sym f);
    untold = t;
  })

  complete-Answers :
      (s' : System T C K) (e : NativeEvent)
      → s'.control.pending_ops ≡ s.control.pending_ops
      → s'.callback ≡ s.callback
      → e.id ≡ c.id
      → Answers (complete links s' rest e)
  unfolding complete
  complete-Answers s' e p k i =
      answered-Answers (release s' rest) e (send links s'.callback e) refl (ap fetch_sub_one p) i
        (ap (λ x. send links x e) k) (rw k (sink.call_delivered s.callback (event e)))

  abbrev Kept : Control T → Type 0
  Kept c' = c'.pending_ops ≡ s.control.pending_ops

  drained-Kept : (c' : Control T) (lost : Option String) → Kept c' → Kept (drained links c' lost).0
  drained-Kept c' none h = pending-with_session c' links.serial.drain_output err ∙ h
  drained-Kept c' (some e) h = h

  drain-Answers :
      (lost : Option String) (r : Control T × IoResult ℕ)
      → s.locals.commands ≡ c ∷ rest
      → Kept r.0
      → Answers (serve_drain links s c.id rest lost r)
  drain-Answers lost (c', err e) q p = (q, p, refl)
  drain-Answers lost (c', ok queued) q p =
      if_cases Answers (queued == 0) _ _
        (λ _.
          complete-Answers (set_control s (drained links c' lost).0)
            (done_event c.id (drained links c' lost).1) (drained-Kept c' lost p) refl
            (done-id c.id (drained links c' lost).1))
        (λ _. (q, p, refl))

  control-Answers : Answers (
      complete links
        (set_control s (with_port s.control (operation links.serial c)).0)
        rest
        (event_of c.id (with_port s.control (operation links.serial c)).1))
  unfolding operation
  control-Answers =
      let r = with_port s.control (operation links.serial c) in
      complete-Answers (set_control s r.0) (event_of c.id r.1)
        (pending-with_session s.control (operation links.serial c) err) refl
        (event_of-id c.id r.1 (
          locked-HasId links.serial c.id s.control s.control.poisoned s.control.session
            (operation links.serial c) (perform-HasId links.serial c.id c.operation)))

  command-Answers :
      (op : Operation) (lost : Option String)
      → s.locals.commands ≡ c ∷ rest
      → Answers (serve_command links s c op rest lost)
  command-Answers (write bytes) lost q =
      if_cases Answers (ltb s.locals.written (length bytes)) _ _ (λ _. (q, refl, refl))
        (λ _.
          complete-Answers (set_locals s (record s.locals { written = 0 })) (new c.id "ok") refl
            refl refl)
  command-Answers drain lost q =
      drain-Answers lost (with_port s.control links.serial.bytes_to_write) q
        (pending-with_session s.control links.serial.bytes_to_write err)
  command-Answers _ lost q = control-Answers

  front-Answers :
      (lost : Option String)
      → s.locals.commands ≡ c ∷ rest
      → Answers (serve_front links s (c ∷ rest) lost)
  unfolding serve_front
  front-Answers lost q =
      if_cases Answers s.control.stopped _ _ (λ _. inl (q, refl, refl))
        (λ _. command-Answers c.operation lost q)

  -- With a command at the front, a round that goes on has taken it off the queue, given back one
  -- reservation, and sent one event, which carries the command's number; a round that breaks or
  -- returns an error has left the queue, the count and the callback as they were; and one that
  -- returns without an error has done so too, or the callback's queue has refused the event that
  -- carries the command's number, and the command and its reservation are gone.
  pub serve-Answers :
      (lost : Option String) → s.locals.commands ≡ c ∷ rest → Answers (serve links s lost)
  unfolding serve
  serve-Answers lost q =
      subst (λ l. Answers (serve_front links s l lost)) (sym q) (front-Answers lost q)
