-- ===== src/History.antt =====
-- src/lib.rs and src/reactor.rs together: every interleaving of JavaScript's calls with the steps of
-- the reactor's task.
pub mod Books
pub mod Vector
pub mod Frames
pub mod Running
pub mod Stream
pub mod Refused
pub mod Close
mod Tests
use node_serialport_rs.Prelude.{
  ℕ, zero, suc, String, Bool, Option, List, [], ◌∷◌, if◌then◌else◌, leb, ◌&&◌,
}
use node_serialport_rs.Io.{ok, err}
use node_serialport_rs.Event.{JsResult}
use node_serialport_rs.Control.{chunk_size}
use node_serialport_rs.Port.{NativePort, fresh_control, read_port, read_credit_port, request, close}
use node_serialport_rs.Port.Write.{write_port, with_capacity, allowed, add_segment, write_snapshot}
use node_serialport_rs.Reactor.{Links, System, initial}
use node_serialport_rs.Reactor.Task.{Task, Choice, opening, step}

-- What happens next: a call by JavaScript, or a step of the task. `contended` says of a write that the
-- worker holds the mutex. A `writev` is in parts, since the reading of each element may run JavaScript
-- that calls the port: its call, with the length of the array; what the next element of the innermost
-- call in progress gives; and the end of that call, once it has read all its elements.
pub data Move (T : Type 0) : Type 0 where
  reads : ℕ → ℕ → Move T
  credits : ℕ → ℕ → Move T
  writes : ℕ → List ℕ → Bool → Bool → Move T
  calls_writev : ℕ → ℕ → Option ℕ → Option Bool → Move T
  gives : JsResult (Option (List ℕ)) → Move T
  finishes : Bool → Move T
  requests : ℕ → String → ℕ → Move T
  closes : Move T
  works : Choice T → Move T

-- A `writev` in progress: `data`, and the number of elements that are left to be read.
pub record Frame : Type 0 where
  pub id : ℕ
  pub bytes : List ℕ
  pub remaining : ℕ
  pub allow_inline : Bool

-- The task, and the `writev` calls in progress, the innermost first.
pub record World (T C K : Type 0) : Type 0 where
  pub task : Task T C K
  pub frames : List Frame

module _ {T C K : Type 0} where
  -- The part of the whole that JavaScript's calls act on.
  abbrev pub port_of : Task T C K → NativePort T C
  port_of t = record { control = t.system.control; sender = t.system.channel }

  abbrev pub with_port_of : Task T C K → NativePort T C → Task T C K
  with_port_of t p = record t {
    system = record t.system { control = p.control; channel = p.sender };
  }

  -- What `NativePort::new` starts.
  abbrev pub start : C → K → World T C K
  start channel callback = record {
    task = record {
      system = record {
        control = fresh_control;
        channel = channel;
        callback = callback;
        wakes = 0;
        locals = initial;
      };
      phase = opening;
    };
    frames = [];
  }

  abbrev pub on_port : World T C K → NativePort T C → World T C K
  on_port w p = record w { task = with_port_of w.task p }

module _ {T C : Type 0} where
  -- The beginning of `writev`, up to its loop.
  abbrev pub called : NativePort T C → ℕ → ℕ → Option ℕ → Option Bool → List Frame → List Frame
  called p id count length_hint allow_inline frames =
      if p.control.stopped
      then frames
      else if leb (with_capacity length_hint) chunk_size && leb count 1024
      then record { id = id; bytes = []; remaining = count; allow_inline = allowed allow_inline }
        ∷ frames
      else frames

  -- An element has been added, or the call ends with an error.
  abbrev pub gave : Frame → ℕ → List Frame → NativePort T C × JsResult (List ℕ) → List Frame
  gave f n frames (p, ok bytes) = record f { bytes = bytes; remaining = n } ∷ frames
  gave f n frames (p, err e) = frames

  abbrev pub given_at :
      ℕ → NativePort T C → JsResult (Option (List ℕ)) → Frame → List Frame → List Frame
  given_at zero p r f frames = f ∷ frames
  given_at (suc n) p r f frames =
      gave f n frames (add_segment f.bytes (p, r) (λ p' bytes. (p', ok bytes)))

  -- One round of the loop of the innermost `writev`.
  abbrev pub given : NativePort T C → JsResult (Option (List ℕ)) → List Frame → List Frame
  given p r [] = []
  given p r (f ∷ frames) = given_at f.remaining p r f frames

module _ {T C K : Type 0} (links : Links T C K) where
  -- What the innermost `writev` does to the port after its loop.
  abbrev pub written_frame : Bool → Frame → Task T C K → NativePort T C × JsResult Bool
  written_frame contended f t =
      write_snapshot links.serial links.mpsc f.id f.allow_inline contended (port_of t, ok f.bytes)

  abbrev pub finish_at : ℕ → Bool → Frame → List Frame → World T C K → World T C K
  finish_at zero contended f frames w = record {
    task = with_port_of w.task (written_frame contended f w.task).0;
    frames = frames;
  }
  finish_at (suc n) contended f frames w = w

  abbrev pub finish_frame : Bool → List Frame → World T C K → World T C K
  finish_frame contended [] w = w
  finish_frame contended (f ∷ frames) w = finish_at f.remaining contended f frames w

  unfoldable pub act : Move T → World T C K → World T C K
  act (reads id n) w = on_port w (read_port links.mpsc (port_of w.task) id n).0
  act (credits bytes events) w =
      on_port w (read_credit_port links.mpsc (port_of w.task) bytes events).0
  act (writes id bytes allow_inline contended) w =
      on_port w
        (write_port links.serial links.mpsc (port_of w.task) id bytes allow_inline contended).0
  act (calls_writev id count length_hint allow_inline) w = record w {
    frames = called (port_of w.task) id count length_hint allow_inline w.frames;
  }
  act (gives r) w = record w { frames = given (port_of w.task) r w.frames }
  act (finishes contended) w = finish_frame contended w.frames w
  act (requests id op value) w = on_port w (request links.mpsc (port_of w.task) id op value).0
  act closes w = on_port w (close (port_of w.task))
  act (works choice) w = record w { task = step links choice w.task }

  unfoldable pub history : List (Move T) → World T C K → World T C K
  history [] w = w
  history (m ∷ ms) w = history ms (act m w)

  -- What holds of the task and of whatever the end of a `writev` makes of it, holds after the move.
  pub finish_frame-All :
      (P : Task T C K → Type 0) (contended : Bool) (frames : List Frame) (w : World T C K)
      → P w.task
      → ((f : Frame) → P (with_port_of w.task (written_frame contended f w.task).0))
      → P (finish_frame contended frames w).task
  finish_frame-All P contended [] w h k = h
  finish_frame-All P contended (f ∷ frames) w h k = finish_at-All f.remaining f
    where
      finish_at-All : (n : ℕ) (f : Frame) → P (finish_at n contended f frames w).task
      finish_at-All zero f = k f
      finish_at-All (suc n) f = h
