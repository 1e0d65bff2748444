-- ===== src/Port/Tests.antt =====
-- Runs of `NativePort` of src/lib.rs and instances of its theorems.
use node_serialport_rs.Prelude.{ℕ, ◌≡◌, refl, List, [], ◌∷◌, some, none, true, false, arith}
use node_serialport_rs.Io.{ok}
use node_serialport_rs.Port.{NativePort, fresh_control, enqueue}
use node_serialport_rs.Port.Write.{
  write_port, writev_port, attempt_write, inline_write, enqueue_rest,
}
use node_serialport_rs.Port.Write.Segments.{plain, writev-write}
use node_serialport_rs.Prelude.{map}
use node_serialport_rs.Ledger.{Ledger}
use node_serialport_rs.Stream.Write.{Writes, write_port-Wrote}
use node_serialport_rs.Wire.{Wire}
use node_serialport_rs.Wire.Device.{wire_serial, wire_serial_lawful}
use node_serialport_rs.Wire.Desk.{Queue, as_queue, list_mpsc, list_mpsc_lawful}

abbrev device : Wire
device = record { input = []; taken = []; output = [] }

abbrev port : NativePort Wire Queue
port = record { control = record fresh_control { session = some device }; sender = [] }

abbrev segments : List (List ℕ)
segments = (7 ∷ []) ∷ (8 ∷ 9 ∷ []) ∷ []

-- The device takes one byte at once; the other two are queued.
sends_one : (write_port wire_serial list_mpsc port 1 (7 ∷ 8 ∷ 9 ∷ []) true false).1 ≡ ok false
unfolding write_port attempt_write inline_write enqueue_rest enqueue
sends_one = refl

writev-write_example :
    writev_port wire_serial list_mpsc port 1 (map plain segments) none (some true) false
    ≡ write_port wire_serial list_mpsc port 1 (7 ∷ 8 ∷ 9 ∷ []) true false
writev-write_example =
    writev-write wire_serial list_mpsc port 1 segments none true false (omega arith) (omega arith)
      (omega arith)

idle : Ledger 0 [] [] 0
idle = record { counted = omega arith; bounded = omega arith; all_ordered = tt; within = refl }

write_port-Wrote_example :
    Writes wire_serial list_mpsc as_queue list_mpsc_lawful wire_serial_lawful [] 0 port
      (7 ∷ 8 ∷ 9 ∷ [])
      (write_port wire_serial list_mpsc port 1 (7 ∷ 8 ∷ 9 ∷ []) true false)
write_port-Wrote_example =
    write_port-Wrote wire_serial list_mpsc as_queue list_mpsc_lawful wire_serial_lawful [] 0 port 1
      (7 ∷ 8 ∷ 9 ∷ []) true false idle
