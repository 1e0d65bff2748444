-- ===== src/Reads/Tests.antt =====
-- A burst of src/reactor.rs, and instances of its theorem.
use node_serialport_rs.Prelude.{ℕ, ◌≡◌, refl, [], ◌∷◌, some, true, false, arith}
use node_serialport_rs.Event.{read_event}
use node_serialport_rs.Control.{Control}
use node_serialport_rs.Port.{fresh_control}
use node_serialport_rs.Reactor.{ReadWindow}
use node_serialport_rs.Reactor.Window.{charge, next_size, next_power_of_two, doubled}
use node_serialport_rs.Reactor.Burst.{
  Observation, send_ready_reads, send_read, finish_burst, gather, collect, round, try_round, keep,
}
use node_serialport_rs.Reads.{delivered_bytes}
use node_serialport_rs.Reads.Burst.{Bursts, send_ready_reads-Bursts}
use node_serialport_rs.Wire.{Wire}
use node_serialport_rs.Wire.Device.{wire_serial_lawful}
use node_serialport_rs.Wire.Desk.{desk, list_sink_lawful, as_received}

abbrev control : Control Wire
control = record fresh_control {
  session = some (record { input = 3 ∷ 4 ∷ []; taken = 1 ∷ 2 ∷ []; output = [] });
}

abbrev window : ReadWindow
window = record { bytes = 8; slots = 4; size = 64 }

abbrev calm : ℕ → Observation
calm k = record { stopped = false; pending_ops = 0; proceed = true }

-- The two bytes that wait come behind the two that were read.
in_order :
    delivered_bytes (send_ready_reads desk control [] (1 ∷ 2 ∷ []) 2 window calm).callback
    ≡ 1 ∷ 2 ∷ 3 ∷ 4 ∷ []
unfolding send_ready_reads send_read finish_burst gather collect round try_round keep charge
    next_size next_power_of_two doubled read_event
in_order = refl

send_ready_reads-Bursts_example :
    Bursts desk wire_serial_lawful as_received list_sink_lawful control [] window
      (1 ∷ 2 ∷ [])
      (send_ready_reads desk control [] (1 ∷ 2 ∷ []) 2 window calm)
unfolding send_ready_reads send_read finish_burst gather collect round try_round keep charge
    next_size next_power_of_two doubled read_event
send_ready_reads-Bursts_example =
    send_ready_reads-Bursts desk wire_serial_lawful as_received list_sink_lawful control []
      (1 ∷ 2 ∷ []) 2 window calm (omega arith) (λ e. cc)
