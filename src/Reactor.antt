-- ===== src/Reactor.antt =====
-- src/reactor.rs: the task that owns a port on an I/O worker. The local variables of `run_open`,
-- and what it is connected to.
pub mod Window
pub mod Operation
pub mod Burst
pub mod Serve
pub mod Turn
pub mod Receive
pub mod Deliver
pub mod Select
pub mod Task
use node_serialport_rs.Prelude.{
  ℕ, Bool, false, Option, none, some, List, [], ◌++◌, ◌==◌, ◌-◌, length, replicate, ltb,
  if◌then◌else◌,
}
use node_serialport_rs.Command.{Command}
use node_serialport_rs.Event.{CallbackEvent, NativeEvent, event}
use node_serialport_rs.Transfer.{TransferPoller, default}
use node_serialport_rs.Serial.{Serial}
use node_serialport_rs.Control.{Control, Mpsc, Sink}

-- `ReadWindow`
pub record ReadWindow : Type 0 where
  pub bytes : ℕ
  pub slots : ℕ
  pub size : ℕ

-- The locals of `run_open`. `reading` is the variable `read`.
pub record Locals : Type 0 where
  pub commands : List Command
  pub reading : Option (ℕ × ℕ)
  pub streaming : Bool
  pub window : ReadWindow
  pub written : ℕ
  pub read_buffer : List ℕ
  pub transfers : TransferPoller

abbrev pub initial : Locals
initial = record {
  commands = [];
  reading = none;
  streaming = false;
  window = record { bytes = 0; slots = 0; size = 1024 };
  written = 0;
  read_buffer = [];
  transfers = default;
}

-- The parameters: `usize::BITS`, the port, the command channel and the JavaScript callback.
pub record Links (T C K : Type 0) : Type 0 where
  pub bits : ℕ
  pub serial : Serial T
  pub mpsc : Mpsc C
  pub sink : Sink K

-- The whole: shared state, channel, callback queue and locals; `wakes` counts the reactor's calls
-- of its own waker.
pub record System (T C K : Type 0) : Type 0 where
  pub control : Control T
  pub channel : C
  pub callback : K
  pub wakes : ℕ
  pub locals : Locals

-- `Vec::resize(length, 0)` where the buffer is shorter.
abbrev pub grow : List ℕ → ℕ → List ℕ
grow buffer length' =
    if ltb (length buffer) length' then buffer ++ replicate (length' - length buffer) 0 else buffer

-- `send(callback, event)`
abbrev pub send : {T C K : Type 0} → Links T C K → K → NativeEvent → K × Bool
send links k e = links.sink.call k (event e)
