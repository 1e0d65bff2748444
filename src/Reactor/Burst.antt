-- ===== src/Reactor/Burst.antt =====
-- src/reactor.rs, `send_read` and `send_ready_reads`: after a full read the reactor collects the
-- reads that are ready at once and sends them as one event.
use node_serialport_rs.Prelude.{
  ℕ, zero, suc, ◌-◌, ◌==◌, ◌++◌, if◌then◌else◌, Bool, true, false, not, ◌||◌, Option, none, some,
  List, [], ◌∷◌, length, take, drop, min,
}
use node_serialport_rs.Io.{ErrorKind, IoError, IoResult, io_error, ok, err, is_transient}
use node_serialport_rs.Event.{read, read_batch, read_event}
use node_serialport_rs.Serial.{Serial}
use node_serialport_rs.Control.{Control, with_session}
use node_serialport_rs.Reactor.{ReadWindow, Links, grow}
use node_serialport_rs.Reactor.Window.{charge}

abbrev pub read_burst_limit : ℕ
read_burst_limit = 16

-- What one round of the loop sees of the other threads and of Tokio's cooperative budget.
pub record Observation : Type 0 where
  pub stopped : Bool
  pub pending_ops : ℕ
  pub proceed : Bool

-- The variables that the closure of `send_ready_reads` changes.
pub record Gather : Type 0 where
  pub read_buffer : List ℕ
  pub window : ReadWindow
  pub first : Option (List ℕ)
  pub batch : List (List ℕ)

-- How a round ends: the loop breaks, the closure returns an error, or the next round follows.
pub data Round (T : Type 0) : Type 0 where
  leave : T → Gather → Round T
  fail : T → Gather → IoError → Round T
  more : T → Gather → Round T

-- `first` keeps the one follower; from the second on they are in `batch`.
abbrev pub store_first : Option (List ℕ) → List (List ℕ) → List ℕ → Option (List ℕ)
store_first none [] chunk = some chunk
store_first none (x ∷ batch) chunk = none
store_first (some previous) batch chunk = none

abbrev pub store_batch : Option (List ℕ) → List (List ℕ) → List ℕ → List (List ℕ)
store_batch none [] chunk = []
store_batch none (x ∷ batch) chunk = x ∷ (batch ++ (chunk ∷ []))
store_batch (some previous) batch chunk = batch ++ (previous ∷ chunk ∷ [])

-- The end of a round that read `length` bytes into a slice of `capacity` bytes.
unfoldable pub keep : Gather → ℕ → ℕ → Gather
keep g capacity length = record {
  read_buffer = [];
  window = charge g.window capacity length;
  first = store_first g.first g.batch (take length g.read_buffer);
  batch = store_batch g.first g.batch (take length g.read_buffer);
}

abbrev pub disconnected : IoError
disconnected = io_error ErrorKind.broken_pipe "Serial device disconnected"

module _ {T : Type 0} where
  abbrev pub read_length : T → Gather → ℕ → ℕ → Round T
  read_length port g capacity length =
      if length == 0 then fail port g disconnected else more port (keep g capacity length)

  -- The `match` on `try_read`'s answer.
  abbrev pub judge : T → Gather → ℕ → IoResult ℕ → Round T
  judge port g capacity (ok length) = read_length port g capacity length
  judge port g capacity (err e) = if is_transient e.kind then leave port g else fail port g e

  -- What the loop does at a round's end; `next` is the rest of it.
  abbrev pub resume :
      Round T
      → (T → Gather → T × (Gather × IoResult (Unit {0})))
      → T × (Gather × IoResult (Unit {0}))
  resume (leave port g) next = (port, (g, ok tt))
  resume (fail port g e) next = (port, (g, err e))
  resume (more port g) next = next port g

module _ {T : Type 0} (serial : Serial T) where
  unfoldable pub try_round : T → Gather → Round T
  try_round port g =
      let capacity = min g.window.bytes g.window.size in
      let buffer = grow g.read_buffer capacity in
      let (port', slice, result) = serial.try_read port (take capacity buffer) in
      judge port' (record g { read_buffer = slice ++ drop capacity buffer }) capacity result

  unfoldable pub round : Observation → T → Gather → Round T
  round seen port g =
      if seen.stopped
        || (not (seen.pending_ops == 0) || (g.window.bytes == 0 || g.window.slots == 0))
      then leave port g
      else if seen.proceed
      then try_round port g
      else leave port g

  -- The loop, with the rounds left. `seen k` is what the round with `k` rounds after it sees.
  unfoldable pub collect : ℕ → (ℕ → Observation) → T → Gather → T × (Gather × IoResult (Unit {0}))
  collect zero seen port g = (port, (g, ok tt))
  collect (suc k) seen port g = resume (round (seen k) port g) (λ port' g'. collect k seen port' g')

module _ {T C K : Type 0} (links : Links T C K) where
  -- The callback, the buffer that is kept, and whether the event was accepted.
  unfoldable pub send_read : K → List ℕ → ℕ → K × List ℕ × Bool
  send_read k buffer length =
      let (payload, rest) = read_event links.bits buffer length in
      let (k', sent) = links.sink.call k payload in (k', rest, sent)

  -- The followers, after the mutex is released.
  abbrev pub publish : K → Option (List ℕ) → List (List ℕ) → K × Bool
  publish k (some bytes) batch = links.sink.call k (read bytes)
  publish k none [] = (k, true)
  publish k none (x ∷ batch) = links.sink.call k (read_batch (x ∷ batch))

  -- `if !sent { return Ok(false) }`, then `collected.map(|()| true)`
  abbrev pub report : Bool → IoResult (Unit {0}) → IoResult Bool
  report false collected = ok false
  report true (ok u) = ok true
  report true (err e) = err e

  -- `collected`, with the variables that its closure changes.
  unfoldable pub gather :
      Control T
      → List ℕ
      → ReadWindow
      → (ℕ → Observation)
      → Control T × (Gather × IoResult (Unit {0}))
  gather control buffer window seen =
      let empty : Gather = record {
        read_buffer = buffer;
        window = window;
        first = none;
        batch = [];
      } in
      with_session control (λ port. collect links.serial (read_burst_limit - 1) seen port empty)
        (λ e. (empty, err e))

-- The state after `send_ready_reads`, and its result.
pub record Burst (T K : Type 0) : Type 0 where
  pub control : Control T
  pub callback : K
  pub read_buffer : List ℕ
  pub window : ReadWindow
  pub result : IoResult Bool

-- A return before the collection.
abbrev pub finished :
    {T K : Type 0} → Control T → K → List ℕ → ReadWindow → IoResult Bool → Burst T K
finished control k buffer window result = record {
  control = control;
  callback = k;
  read_buffer = buffer;
  window = window;
  result = result;
}

module _ {T C K : Type 0} (links : Links T C K) where
  unfoldable pub finish_burst : Control T × (Gather × IoResult (Unit {0})) → K → Burst T K
  finish_burst (control, (g, collected)) k =
      let (k', sent) = publish links k g.first g.batch in
      record {
        control = control;
        callback = k';
        read_buffer = g.read_buffer;
        window = g.window;
        result = report links sent collected;
      }

  unfoldable pub send_ready_reads :
      Control T → K → List ℕ → ℕ → ReadWindow → (ℕ → Observation) → Burst T K
  send_ready_reads control k buffer length window seen =
      let (k', rest, sent) = send_read links k buffer length in
      let untouched = finished control k' rest window in
      if sent
      then (if window.bytes == 0 || window.slots == 0
          then untouched (ok true)
          else finish_burst (gather links control rest window seen) k')
      else untouched (ok false)
