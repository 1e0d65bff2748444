-- ===== src/Wire/Desk.antt =====
-- A command channel and a callback queue that are lists, and the device that goes with them.
use node_serialport_rs.Prelude.{refl, ◌≡◌, List, [], ◌∷◌, ◌++◌, Option, none, some, true}
use node_serialport_rs.Io.{Poll, pending, ready}
use node_serialport_rs.Command.{Command}
use node_serialport_rs.Event.{CallbackEvent}
use node_serialport_rs.Control.{Mpsc, IsMpsc, unreceived, Sink, IsSink}
use node_serialport_rs.Reactor.{Links}
use node_serialport_rs.Wire.{Wire}
use node_serialport_rs.Wire.Device.{wire_serial}

abbrev pub Queue : Type 0
Queue = List Command

abbrev pub as_queue : Queue → List Command
as_queue q = q

abbrev receive_from : Queue → Queue × Poll (Option Command)
receive_from [] = ([], pending)
receive_from (c ∷ q) = (q, ready (some c))

abbrev pub list_mpsc : Mpsc Queue
list_mpsc = record { try_send = λ q c. (q ++ (c ∷ []), none); recv = receive_from }

receive_law : (q : Queue) → q ≡ unreceived (receive_from q).1 (receive_from q).0
receive_law [] = refl
receive_law (c ∷ q) = refl

pub list_mpsc_lawful : IsMpsc list_mpsc as_queue
list_mpsc_lawful = record { send_queue = λ q c. refl; recv_queue = receive_law }

abbrev pub Received : Type 0
Received = List CallbackEvent

abbrev pub as_received : Received → List CallbackEvent
as_received k = k

abbrev pub list_sink : Sink Received
list_sink = record { call = λ k e. (k ++ (e ∷ []), true) }

pub list_sink_lawful : IsSink list_sink as_received
list_sink_lawful = record { call_delivered = λ k e. refl }

abbrev pub desk : Links Wire Queue Received
desk = record { bits = 64; serial = wire_serial; mpsc = list_mpsc; sink = list_sink }
