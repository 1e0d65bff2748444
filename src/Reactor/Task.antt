-- ===== src/Reactor/Task.antt =====
-- src/reactor.rs, `run` and `run_open` as one state machine: what the task does between two points
-- at which another thread may act is one step.
use node_serialport_rs.Prelude.{ℕ, if◌then◌else◌, Bool, true, false, String, Option, none, some}
use node_serialport_rs.Io.{ErrorKind, IoResult, io_error, Result, ok, err}
use node_serialport_rs.Event.{NativeEvent, new, with_error}
use node_serialport_rs.Reactor.{Links, System, send}
use node_serialport_rs.Reactor.Burst.{Observation}
use node_serialport_rs.Reactor.Serve
use node_serialport_rs.Reactor.Serve.{serve}
use node_serialport_rs.Reactor.Turn
use node_serialport_rs.Reactor.Select.{select}

-- Where the task stands: waiting for the port to open, at the head of the outer loop, in the inner
-- loop, at the `select!` (with the value of `draining`), about to drop its `Completion`, or gone.
pub data Phase : Type 0 where
  opening : Phase
  head : Phase
  serving : Phase
  selecting : Bool → Phase
  closing : IoResult (Unit {0}) → Phase
  gone : Phase

pub record Task (T C K : Type 0) : Type 0 where
  pub system : System T C K
  pub phase : Phase

-- What the surroundings decide in one step: how the port opened (the outer error is that of a task
-- which could not be joined), whether a drain could not be joined, whether the timer ran out, and
-- what a burst of reads sees of the other threads.
pub record Choice (T : Type 0) : Type 0 where
  pub opened : Result (IoResult T) String
  pub lost : Option String
  pub elapsed : Bool
  pub seen : ℕ → Observation

abbrev pub close_event : IoResult (Unit {0}) → NativeEvent
close_event (ok u) = new 0 "close"
close_event (err e) = with_error (new 0 "close") e

module _ {T C K : Type 0} where
  abbrev pub at : System T C K → Phase → Task T C K
  at s phase = record { system = s; phase = phase }

  abbrev pub served : Serve.Round (System T C K) → Task T C K
  served (Serve.return s r) = at s (closing r)
  served (Serve.break s draining) = at s (selecting draining)
  served (Serve.next s) = at s serving

  abbrev pub selected : Bool → Turn.Turn (System T C K) → Task T C K
  selected draining (Turn.return s r) = at s (closing r)
  selected draining (Turn.again s) = at s head
  selected draining (Turn.parked s) = at s (selecting draining)

  abbrev pub announced : System T C K → K × Bool → Task T C K
  announced s (k, true) = at (record s { callback = k }) head
  announced s (k, false) = at (record s { callback = k }) (closing (ok tt))

module _ {T C K : Type 0} (links : Links T C K) where
  -- The part of `run` after `spawn_blocking`.
  abbrev pub open_session : System T C K → Result (IoResult T) String → Task T C K
  open_session s (ok (ok port)) =
      let s' = record s { control = record s.control { session = some port } } in
      if s.control.stopped
      then at s' (closing (ok tt))
      else announced s' (send links s'.callback (new 0 "open"))
  open_session s (ok (err e)) = at s (closing (err e))
  open_session s (err lost) = at s (closing (err (io_error ErrorKind.other lost)))

  -- `Drop for Completion`; its result is always set here.
  unfoldable pub finish : System T C K → IoResult (Unit {0}) → System T C K
  finish s r =
      let (k, sent) = send links s.callback (close_event r) in
      record s { control = record s.control { stopped = true; session = none }; callback = k }

  unfoldable pub step_at : Choice T → System T C K → Phase → Task T C K
  step_at choice s opening = open_session s choice.opened
  step_at choice s head = if s.control.stopped then at s (closing (ok tt)) else at s serving
  step_at choice s serving = served (serve links s choice.lost)
  step_at choice s (selecting draining) =
      selected draining (select links s draining choice.elapsed choice.seen)
  step_at choice s (closing r) = at (finish s r) gone
  step_at choice s gone = at s gone

  unfoldable pub step : Choice T → Task T C K → Task T C K
  step choice task = step_at choice task.system task.phase
