-- ===== src/Control.antt =====
-- src/lib.rs and src/reactor.rs: the state that the JavaScript thread and the I/O worker share, and
-- the two channels between them. The channel is Tokio's and the callback is Node's: parameters,
-- with their documented behaviour as laws.
pub mod Session
use node_serialport_rs.Prelude.{
  ℕ, ◌+◌, ◌-◌, ◌*◌, ◌%◌, ◌^◌, ◌≡◌, String, Option, none, some, Bool, true, false, List, [], ◌∷◌,
  ◌++◌, if◌then◌else◌,
}
use node_serialport_rs.Io.{ErrorKind, IoError, IoResult, io_error, err, Poll, pending, ready}
use node_serialport_rs.Command.{Command}
use node_serialport_rs.Event.{CallbackEvent}
use node_serialport_rs.Serial.{Serial, PortCall}

abbrev pub chunk_size : ℕ
chunk_size = 64 * 1024

abbrev pub read_slots : ℕ
read_slots = 32

abbrev pub max_pending_ops : ℕ
max_pending_ops = 64

-- `AtomicUsize`, on a 64-bit target
abbrev pub usize_mod : ℕ
usize_mod = 2 ^ 64

abbrev pub fetch_add_one : ℕ → ℕ
fetch_add_one n = (n + 1) % usize_mod

abbrev pub fetch_sub_one : ℕ → ℕ
fetch_sub_one n = (n + usize_mod - 1) % usize_mod

-- `Control`. `changed` is the permit that `notify_one` stores; `poisoned` is the mutex's flag.
pub record Control (T : Type 0) : Type 0 where
  pub stopped : Bool
  pub changed : Bool
  pub pending_ops : ℕ
  pub poisoned : Bool
  pub session : Option T

module _ {T : Type 0} where
  -- `Control::stop`
  unfoldable pub stop : Control T → Control T
  stop c = record c { stopped = true; changed = true }

  -- The body under the mutex, or the error where it is poisoned or the port is closed.
  abbrev pub locked {ℓ} :
      {B : Type ℓ} → Control T → Bool → Option T → (T → T × B) → (IoError → B) → Control T × B
  locked c true session body fail = (c, fail (io_error ErrorKind.other "Serial state poisoned"))
  locked c false none body fail = (c, fail (io_error ErrorKind.broken_pipe "Port is closed"))
  locked c false (some port) body fail =
      let (port', b) = body port in (record c { session = some port' }, b)

  -- `with_port`; the caller's own variables that the closure changes are part of `B`.
  abbrev pub with_session {ℓ} :
      {B : Type ℓ} → Control T → (T → T × B) → (IoError → B) → Control T × B
  with_session c body fail = locked c c.poisoned c.session body fail

  abbrev pub with_port {ℓ} : {A : Type ℓ} → Control T → PortCall T A → Control T × IoResult A
  with_port c operation = with_session c operation err

-- `mpsc::Sender::try_send`, whose error is by its text, and a poll of `mpsc::Receiver::recv`.
pub record Mpsc (C : Type 0) : Type 0 where
  pub try_send : C → Command → C × Option String
  pub recv : C → C × Poll (Option Command)

-- The queue before a `recv`, from its answer and the queue after it.
abbrev pub unreceived : Poll (Option Command) → List Command → List Command
unreceived (ready (some c)) q = c ∷ q
unreceived r q = q

abbrev pub sent_to : Option String → List Command → Command → List Command
sent_to none q c = q ++ (c ∷ [])
sent_to (some e) q c = q

-- A channel is first in, first out: a failed send and a pending receive leave it as it is.
pub record IsMpsc {C : Type 0} (m : Mpsc C) (queue : C → List Command) : Type 0 where
  pub send_queue :
      (ch : C) (c : Command) → queue (m.try_send ch c).0 ≡ sent_to (m.try_send ch c).1 (queue ch) c
  pub recv_queue : (ch : C) → queue ch ≡ unreceived (m.recv ch).1 (queue (m.recv ch).0)

-- `ThreadsafeFunction::call` in nonblocking mode: true is `Status::Ok`.
pub record Sink (K : Type 0) : Type 0 where
  pub call : K → CallbackEvent → K × Bool

-- An accepted event is queued behind the earlier ones; a refused one is dropped.
pub record IsSink {K : Type 0} (s : Sink K) (delivered : K → List CallbackEvent) : Type 0 where
  pub call_delivered :
      (k : K) (e : CallbackEvent)
      → delivered (s.call k e).0 ≡ (if (s.call k e).1 then delivered k ++ (e ∷ []) else delivered k)
