-- ===== src/History/Close.antt =====
-- The end of a port of src/lib.rs and src/reactor.rs.
use node_serialport_rs.Prelude.{
  ◌≡◌, refl, sym, subst, ◌∙◌, ap, Bool, true, false, some, List, [], ◌∷◌, if_cases, String,
}
use node_serialport_rs.Io.{Result, IoResult, ok, err}
use node_serialport_rs.Event.{JsResult, new}
use node_serialport_rs.Control.{Control, stop}
use node_serialport_rs.Port.{NativePort, close}
use node_serialport_rs.Reactor.{Links, System, send}
use node_serialport_rs.Reactor.Serve
use node_serialport_rs.Reactor.Serve.{serve}
use node_serialport_rs.Reactor.Turn
use node_serialport_rs.Reactor.Select.{select}
use node_serialport_rs.Reactor.Task.{
  Task, Choice, Phase, opening, head, serving, selecting, closing, gone, at, served, selected,
  announced, open_session, finish, step_at, step,
}
use node_serialport_rs.History.{
  Move, reads, credits, writes, calls_writev, gives, finishes, requests, closes, works, port_of,
  with_port_of, start, act, history, World, finish_frame-All, written_frame,
}
use node_serialport_rs.History.Refused.{
  IsClosed, Refused, read_port-Refused, read_credit_port-Refused, write_port-Refused,
  write_snapshot-Refused, request-Refused,
}

-- What holds of a task whose phase may be the last: there its port is given up.
abbrev pub Settled : {T : Type 0} → Phase → Control T → Type 0
Settled gone c = IsClosed c
Settled phase c = Unit {0}

module _ {T C K : Type 0} (links : Links T C K) where
  abbrev TaskSettled : Task T C K → Type 0
  TaskSettled t = Settled t.phase t.system.control

  served-Settled : (r : Serve.Round (System T C K)) → TaskSettled (served r)
  served-Settled (Serve.return s r) = tt
  served-Settled (Serve.break s d) = tt
  served-Settled (Serve.next s) = tt

  selected-Settled : (d : Bool) (r : Turn.Turn (System T C K)) → TaskSettled (selected d r)
  selected-Settled d (Turn.return s r) = tt
  selected-Settled d (Turn.again s) = tt
  selected-Settled d (Turn.parked s) = tt

  announced-Settled : (s : System T C K) (r : K × Bool) → TaskSettled (announced s r)
  announced-Settled s (k, true) = tt
  announced-Settled s (k, false) = tt

  open-Settled :
      (s : System T C K) (o : Result (IoResult T) String) → TaskSettled (open_session links s o)
  open-Settled s (ok (ok port)) =
      if_cases TaskSettled s.control.stopped _ _ (λ _. tt)
        (λ _.
          announced-Settled (record s { control = record s.control { session = some port } })
            (send links s.callback (new 0 "open")))
  open-Settled s (ok (err e)) = tt
  open-Settled s (err e) = tt

  step-Settled :
      (choice : Choice T) (s : System T C K) (phase : Phase)
      → Settled phase s.control
      → TaskSettled (step_at links choice s phase)
  unfolding step_at finish
  step-Settled choice s opening h = open-Settled s choice.opened
  step-Settled choice s head h = if_cases TaskSettled s.control.stopped _ _ (λ _. tt) (λ _. tt)
  step-Settled choice s serving h = served-Settled (serve links s choice.lost)
  step-Settled choice s (selecting d) h =
      selected-Settled d (select links s d choice.elapsed choice.seen)
  step-Settled choice s (closing r) h = (refl, refl)
  step-Settled choice s gone h = h

  -- Only the flag of a closed port can change, and nothing is sent any more.
  pub record Stays (t t' : Task T C K) : Type 0 where
    pub phase : t'.phase ≡ gone
    pub closed : IsClosed t'.system.control
    pub callback : t'.system.callback ≡ t.system.callback
    pub channel : t'.system.channel ≡ t.system.channel

  Refused-Stays :
      {A : Type 0} (t : Task T C K) (r : NativePort T C × JsResult A)
      → t.phase ≡ gone
      → IsClosed t.system.control
      → Refused links.serial links.mpsc (port_of t) r
      → Stays t (with_port_of t r.0)
  Refused-Stays t r g c e = record {
    phase = g;
    closed = subst (λ (p : NativePort T C). IsClosed p.control) (sym e.0) c;
    callback = refl;
    channel = ap (λ (p : NativePort T C). p.sender) e.0;
  }

  gone-step :
      (choice : Choice T) (s : System T C K) (phase : Phase)
      → phase ≡ gone
      → step_at links choice s phase ≡ at s gone
  unfolding step_at
  gone-step choice s phase g = rw g refl

  same-Stays : (t : Task T C K) → t.phase ≡ gone → IsClosed t.system.control → Stays t t
  same-Stays t g c = record { phase = g; closed = c; callback = refl; channel = refl }

  act-Stays :
      (m : Move T) (w : World T C K)
      → w.task.phase ≡ gone
      → IsClosed w.task.system.control
      → Stays w.task (act links m w).task
  unfolding act step stop close
  act-Stays (reads id n) w g c =
      Refused-Stays w.task _ g c (read_port-Refused links.serial links.mpsc (port_of w.task) id n c)
  act-Stays (credits b n) w g c =
      Refused-Stays w.task _ g c
        (read_credit_port-Refused links.serial links.mpsc (port_of w.task) b n c)
  act-Stays (writes id bytes allow contended) w g c =
      Refused-Stays w.task _ g c
        (write_port-Refused links.serial links.mpsc (port_of w.task) id bytes allow contended c)
  act-Stays (calls_writev id count hint allow) w g c = same-Stays w.task g c
  act-Stays (gives r) w g c = same-Stays w.task g c
  act-Stays (finishes contended) w g c =
      finish_frame-All links (Stays w.task) contended w.frames w (same-Stays w.task g c) (λ f.
        Refused-Stays w.task _ g c (
          write_snapshot-Refused links.serial links.mpsc (port_of w.task) f.id f.bytes
            f.allow_inline contended c))
  act-Stays (requests id op value) w g c =
      Refused-Stays w.task _ g c
        (request-Refused links.serial links.mpsc (port_of w.task) id op value c)
  act-Stays closes w g c = record {
    phase = g;
    closed = (c.0, refl);
    callback = refl;
    channel = refl;
  }
  act-Stays (works choice) w g c =
      let e = gone-step choice w.task.system w.task.phase g in
      record {
        phase = ap (λ (u : Task T C K). u.phase) e;
        closed = subst (λ (u : Task T C K). IsClosed u.system.control) (sym e) c;
        callback = ap (λ (u : Task T C K). u.system.callback) e;
        channel = ap (λ (u : Task T C K). u.system.channel) e;
      }

  history-Stays :
      (ms : List (Move T)) (w : World T C K)
      → w.task.phase ≡ gone
      → IsClosed w.task.system.control
      → Stays w.task (history links ms w).task
  unfolding history
  history-Stays [] w g c = same-Stays w.task g c
  history-Stays (m ∷ ms) w g c =
      let a = act-Stays m w g c in
      let h = history-Stays ms (act links m w) a.phase a.closed in
      record {
        phase = h.phase;
        closed = h.closed;
        callback = h.callback ∙ a.callback;
        channel = h.channel ∙ a.channel;
      }

  Settled-map :
      (phase : Phase) (c c' : Control T)
      → (phase ≡ gone → IsClosed c → IsClosed c')
      → Settled phase c
      → Settled phase c'
  Settled-map gone c c' f h = f refl h
  Settled-map opening c c' f h = tt
  Settled-map head c c' f h = tt
  Settled-map serving c c' f h = tt
  Settled-map (selecting d) c c' f h = tt
  Settled-map (closing r) c c' f h = tt

  act-Settled :
      (m : Move T) (w : World T C K) → TaskSettled w.task → TaskSettled (act links m w).task
  unfolding act step
  act-Settled (works choice) w h = step-Settled choice w.task.system w.task.phase h
  act-Settled (finishes contended) w h =
      finish_frame-All links TaskSettled contended w.frames w h (λ f.
        Settled-map w.task.phase w.task.system.control _
          (λ g c.
            (Refused-Stays w.task (written_frame links contended f w.task) g c (
              write_snapshot-Refused links.serial links.mpsc (port_of w.task) f.id f.bytes
                f.allow_inline contended c)).closed)
          h)
  act-Settled m w h =
      Settled-map w.task.phase w.task.system.control (act links m w).task.system.control
        (λ g c. (act-Stays m w g c).closed) h

  history-Settled :
      (ms : List (Move T)) (w : World T C K)
      → TaskSettled w.task
      → TaskSettled (history links ms w).task
  unfolding history
  history-Settled [] w h = h
  history-Settled (m ∷ ms) w h = history-Settled ms (act links m w) (act-Settled m w h)

  gone-IsClosed : (phase : Phase) (c : Control T) → phase ≡ gone → Settled phase c → IsClosed c
  gone-IsClosed phase c g h = subst (λ p. Settled p c) g h

  -- Once the task is gone, in any history from the start, no port is open and `stop` is set; and
  -- whatever calls and steps follow, the task stays gone, both stay so, no further event is sent
  -- and no further command is taken in.
  pub history_gone :
      (ms ns : List (Move T)) (channel : C) (callback : K)
      → (history links ms (start channel callback)).task.phase ≡ gone
      → IsClosed (history links ms (start channel callback)).task.system.control
        × Stays
            (history links ms (start channel callback)).task
            (history links ns (history links ms (start channel callback))).task
  history_gone ms ns channel callback g =
      let w = history links ms (start channel callback) in
      let c =
        gone-IsClosed w.task.phase w.task.system.control g
          (history-Settled ms (start channel callback) tt) in
      (c, history-Stays ns w g c)
