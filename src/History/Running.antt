-- ===== src/History/Running.antt =====
-- Which phases of the task of src/reactor.rs can follow which.
use node_serialport_rs.Prelude.{Bool, true, false, List, [], ◌∷◌, if◌then◌else◌}
use node_serialport_rs.Io.{ok}
use node_serialport_rs.Reactor.{Links, System}
use node_serialport_rs.Reactor.Serve
use node_serialport_rs.Reactor.Serve.{serve}
use node_serialport_rs.Reactor.Turn
use node_serialport_rs.Reactor.Select.{select}
use node_serialport_rs.Reactor.Task.{
  Choice, Phase, opening, head, serving, selecting, closing, gone, served, selected, step_at, step,
  at,
}
use node_serialport_rs.History.{
  Move, reads, credits, writes, calls_writev, gives, finishes, requests, closes, works, act,
  history, World, finish_frame-All,
}

-- The task has its port and has not begun to give it up.
abbrev pub IsRunning : Phase → Type 0
IsRunning opening = ⊥
IsRunning head = Unit {0}
IsRunning serving = Unit {0}
IsRunning (selecting draining) = Unit {0}
IsRunning (closing r) = ⊥
IsRunning gone = ⊥

module _ {T C K : Type 0} (links : Links T C K) where
  -- A task that is giving up its port never runs again.
  abbrev HasStarted : Phase → Type 0
  HasStarted opening = ⊥
  HasStarted _ = Unit {0}

  if_started :
      (s : System T C K) (b : Bool)
      → HasStarted (if b then at s (closing (ok tt)) else at s serving).phase
  if_started s true = tt
  if_started s false = tt

  served-started : (r : Serve.Round (System T C K)) → HasStarted (served r).phase
  served-started (Serve.return s r) = tt
  served-started (Serve.break s d) = tt
  served-started (Serve.next s) = tt

  selected-started : (d : Bool) (r : Turn.Turn (System T C K)) → HasStarted (selected d r).phase
  selected-started d (Turn.return s r) = tt
  selected-started d (Turn.again s) = tt
  selected-started d (Turn.parked s) = tt

  step-started :
      (choice : Choice T) (s : System T C K) (phase : Phase)
      → HasStarted phase
      → HasStarted (step_at links choice s phase).phase
        × (IsRunning (step_at links choice s phase).phase → IsRunning phase)
  unfolding step_at
  step-started choice s opening h = absurd h
  step-started choice s head h = (if_started s s.control.stopped, λ _. tt)
  step-started choice s serving h = (served-started (serve links s choice.lost), λ _. tt)
  step-started choice s (selecting d) h =
      (selected-started d (select links s d choice.elapsed choice.seen), λ _. tt)
  step-started choice s (closing r) h = (tt, λ k. k)
  step-started choice s gone h = (tt, λ k. k)

  pub act-started :
      (m : Move T) (w : World T C K)
      → HasStarted w.task.phase
      → HasStarted (act links m w).task.phase
        × (IsRunning (act links m w).task.phase → IsRunning w.task.phase)
  unfolding act step
  act-started (reads id n) w h = (h, λ k. k)
  act-started (credits n m) w h = (h, λ k. k)
  act-started (writes id bytes allow contended) w h = (h, λ k. k)
  act-started (calls_writev id count hint allow) w h = (h, λ k. k)
  act-started (gives r) w h = (h, λ k. k)
  act-started (finishes contended) w h =
      finish_frame-All links
        (λ t. HasStarted t.phase × (IsRunning t.phase → IsRunning w.task.phase)) contended w.frames
        w (h, λ k. k) (λ f. (h, λ k. k))
  act-started (requests id op value) w h = (h, λ k. k)
  act-started closes w h = (h, λ k. k)
  act-started (works choice) w h = step-started choice w.task.system w.task.phase h

  pub IsRunning-back :
      (ms : List (Move T)) (w : World T C K)
      → HasStarted w.task.phase
      → IsRunning (history links ms w).task.phase
      → IsRunning w.task.phase
  unfolding history
  IsRunning-back [] w h r = r
  IsRunning-back (m ∷ ms) w h r =
      let (h', back) = act-started m w h in back (IsRunning-back ms (act links m w) h' r)

  pub running-started : (phase : Phase) → IsRunning phase → HasStarted phase
  running-started opening r = absurd r
  running-started head r = tt
  running-started serving r = tt
  running-started (selecting d) r = tt
  running-started (closing e) r = absurd r
  running-started gone r = absurd r
