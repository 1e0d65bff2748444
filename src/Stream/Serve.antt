-- ===== src/Stream/Serve.antt =====
-- The inner loop of src/reactor.rs keeps the stream of bytes.
use node_serialport_rs.Prelude.{
  ℕ, ◌≤◌, ◌≡◌, refl, sym, ap, ap₂, subst, ◌∙◌, ◌==◌, ltb, Bool, true, false, if_cases, String,
  Option, none, some, List, [], ◌∷◌, ◌++◌, arith, length,
}
use node_serialport_rs.Io.{IoResult, ok, err}
use node_serialport_rs.Command.{Operation, write, drain, Command}
use node_serialport_rs.Event.{NativeEvent, event}
use node_serialport_rs.Serial.Laws.{IsSerial}
use node_serialport_rs.Control.{Control, with_port}
use node_serialport_rs.Reactor.{Links, System}
use node_serialport_rs.Reactor.Operation.{operation}
use node_serialport_rs.Reactor.Serve.{
  complete, drained, serve_front, serve, serve_command, serve_drain, answered, set_control,
  set_locals, release, event_of,
}
use node_serialport_rs.Ledger.{WithinOperation, WithinFront}
use node_serialport_rs.Ledger.Serve.{RoundAll}
use node_serialport_rs.Stream.{
  bytes_of, backlog, outstanding, sent_of, sent-with_session, stream, outstanding-release,
}
use node_serialport_rs.Stream.Quiet.{operation-sent}

module _ {T C K : Type 0} (queue : C → List Command) (links : Links T C K)
    {received sent : T → List ℕ} (law : IsSerial links.serial received sent) (x : List ℕ) where
  abbrev pub Streams : System T C K → Type 0
  Streams s = stream sent queue s ≡ x

  answered-Streams : (s : System T C K) (r : K × Bool) → Streams s → RoundAll Streams (answered s r)
  answered-Streams s (k, true) h = h
  answered-Streams s (k, false) h = h

  -- The front command is answered when the driver has all its bytes.
  complete-Streams :
      (s : System T C K) (c : Command) (rest : List Command) (e : NativeEvent) (n : ℕ)
      → s.locals.written ≡ 0
      → length (bytes_of c.operation) ≤ n
      → sent_of sent s.control.session ++ (outstanding (c ∷ rest) n ++ backlog (queue s.channel))
        ≡ x
      → RoundAll Streams (complete links s rest e)
  unfolding complete
  complete-Streams s c rest e n w l h =
      answered-Streams (release s rest) (links.sink.call s.callback (event e))
        (rw (w, ← outstanding-release c rest n l) h)

  -- The stream, with the queue's commands by another name.
  renamed :
      (s : System T C K) (cs : List Command) (w : ℕ)
      → cs ≡ s.locals.commands
      → w ≡ s.locals.written
      → Streams s
      → sent_of sent s.control.session ++ (outstanding cs w ++ backlog (queue s.channel)) ≡ x
  renamed s cs w q e h =
      ap₂
        (λ cs w. sent_of sent s.control.session ++ (outstanding cs w ++ backlog (queue s.channel)))
        q e
      ∙ h

  control-Streams :
      (s : System T C K) (c : Control T) (command : Command) (rest : List Command) (e : NativeEvent)
      → command ∷ rest ≡ s.locals.commands
      → sent_of sent c.session ≡ sent_of sent s.control.session
      → s.locals.written ≡ 0
      → length (bytes_of command.operation) ≤ s.locals.written
      → Streams s
      → RoundAll Streams (complete links (set_control s c) rest e)
  control-Streams s c command rest e q p w l h =
      complete-Streams (set_control s c) command rest e s.locals.written w l (
        ap (λ b. b ++ (outstanding (command ∷ rest) s.locals.written ++ backlog (queue s.channel)))
          p
        ∙ renamed s (command ∷ rest) s.locals.written q refl h)

  sent-drained :
      (c : Control T) (lost : Option String)
      → sent_of sent (drained links c lost).0.session ≡ sent_of sent c.session
  sent-drained c none =
      sent-with_session sent c links.serial.drain_output err (λ t. (law.drain_quiet t).1)
  sent-drained c (some e) = refl

  moved_to :
      (s : System T C K) (c : Control T)
      → sent_of sent c.session ≡ sent_of sent s.control.session
      → Streams s
      → Streams (set_control s c)
  moved_to s c p h =
      ap (λ b. b ++ (outstanding s.locals.commands s.locals.written ++ backlog (queue s.channel))) p
      ∙ h

  drain-Streams :
      (s : System T C K) (command : Command) (rest : List Command) (lost : Option String)
      (r : Control T × IoResult ℕ)
      → command ∷ rest ≡ s.locals.commands
      → sent_of sent r.0.session ≡ sent_of sent s.control.session
      → s.locals.written ≡ 0
      → length (bytes_of command.operation) ≤ s.locals.written
      → Streams s
      → RoundAll Streams (serve_drain links s command.id rest lost r)
  drain-Streams s command rest lost (c, err e) q p w l h = moved_to s c p h
  drain-Streams s command rest lost (c, ok queued) q p w l h =
      if_cases (RoundAll Streams) (queued == 0) _ _
        (λ _.
          control-Streams s (drained links c lost).0 command rest _ q (sent-drained c lost ∙ p) w l
            h)
        (λ _. moved_to s c p h)

  operation-Streams :
      (s : System T C K) (command : Command) (rest : List Command)
      → command ∷ rest ≡ s.locals.commands
      → s.locals.written ≡ 0
      → length (bytes_of command.operation) ≤ s.locals.written
      → Streams s
      → let r = with_port s.control (operation links.serial command) in
        RoundAll Streams (complete links (set_control s r.0) rest (event_of command.id r.1))
  operation-Streams s command rest q w l h =
      control-Streams s _ command rest _ q
        (sent-with_session sent s.control (operation links.serial command) err
          (operation-sent links.serial law command))
        w l h

  write-Streams :
      (s : System T C K) (command : Command) (bytes : List ℕ) (rest : List Command)
      (lost : Option String)
      → command.operation ≡ write bytes
      → command ∷ rest ≡ s.locals.commands
      → Streams s
      → RoundAll Streams (serve_command links s command (write bytes) rest lost)
  write-Streams s command bytes rest lost o q h =
      if_cases (RoundAll Streams) (ltb s.locals.written (length bytes)) _ _ (λ _. h)
        (λ e.
          complete-Streams (set_locals s (record s.locals { written = 0 })) command rest _
            s.locals.written refl
            (subst (λ op. length (bytes_of op) ≤ s.locals.written) (sym o) (ground arith))
            (renamed s (command ∷ rest) s.locals.written q refl h))

  command-Streams :
      (s : System T C K) (command : Command) (op : Operation) (rest : List Command)
      (lost : Option String)
      → command.operation ≡ op
      → command ∷ rest ≡ s.locals.commands
      → WithinOperation op s.locals.written
      → Streams s
      → RoundAll Streams (serve_command links s command op rest lost)
  command-Streams s command (write bytes) rest lost o q w h =
      write-Streams s command bytes rest lost o q h
  command-Streams s command drain rest lost o q w h =
      drain-Streams s command rest lost (with_port s.control links.serial.bytes_to_write) q
        (sent-with_session sent s.control links.serial.bytes_to_write err
          (λ t. (law.bytes_to_write_quiet t).1))
        w (rw o (omega arith)) h
  command-Streams s command op rest lost o q w h =
      operation-Streams s command rest q w (rw o (omega arith)) h

  front-Streams :
      (s : System T C K) (commands : List Command) (lost : Option String)
      → commands ≡ s.locals.commands
      → WithinFront commands s.locals.written
      → Streams s
      → RoundAll Streams (serve_front links s commands lost)
  unfolding serve_front
  front-Streams s [] lost q w h = h
  front-Streams s (command ∷ rest) lost q w h =
      if_cases (RoundAll Streams) s.control.stopped _ _ (λ _. h)
        (λ _. command-Streams s command command.operation rest lost refl q w h)

  -- However a round of the inner loop ends, no byte is lost, doubled or moved.
  pub serve-Streams :
      (s : System T C K) (lost : Option String)
      → WithinFront s.locals.commands s.locals.written
      → Streams s
      → RoundAll Streams (serve links s lost)
  unfolding serve
  serve-Streams s lost w h = front-Streams s s.locals.commands lost refl w h
