-- ===== src/Serial/Laws.antt =====
-- The laws of the serial port: which calls move bytes, and how many.
use node_serialport_rs.Prelude.{ℕ, ◌≡◌, List, ◌++◌, Bool, length}
use node_serialport_rs.Io.{ready}
use node_serialport_rs.Transfer.Bytes.{IsAsyncPort, moved, Fits}
use node_serialport_rs.Serial.{Serial, PortCall}

-- A call that moves no bytes between the program and the port's driver.
abbrev pub IsQuiet : {T A : Type 0} → (T → List ℕ) → (T → List ℕ) → PortCall T A → Type 0
IsQuiet {T} received sent call =
    (p : T) → (received (call p).0 ≡ received p) × (sent (call p).0 ≡ sent p)

pub record IsSerial {T : Type 0} (s : Serial T) (received sent : T → List ℕ) : Type 0 where
  pub async : IsAsyncPort s.io received sent
  pub try_read_received :
      (p : T) (b : List ℕ)
      → received (s.try_read p b).0
        ≡ received p ++ moved (ready (s.try_read p b).2) (s.try_read p b).1
  pub try_read_sent : (p : T) (b : List ℕ) → sent (s.try_read p b).0 ≡ sent p
  pub try_read_fits : (p : T) (b : List ℕ) → Fits (ready (s.try_read p b).2) (length b)
  pub try_read_length : (p : T) (b : List ℕ) → length (s.try_read p b).1 ≡ length b
  pub try_write_sent :
      (p : T) (b : List ℕ)
      → sent (s.try_write b p).0 ≡ sent p ++ moved (ready (s.try_write b p).1) b
  pub try_write_received : (p : T) (b : List ℕ) → received (s.try_write b p).0 ≡ received p
  pub try_write_fits : (p : T) (b : List ℕ) → Fits (ready (s.try_write b p).1) (length b)
  pub drain_quiet : IsQuiet received sent s.drain_output
  pub bytes_to_write_quiet : IsQuiet received sent s.bytes_to_write
  pub set_baud_rate_quiet : (n : ℕ) → IsQuiet received sent (s.set_baud_rate n)
  pub baud_rate_quiet : IsQuiet received sent s.baud_rate
  pub dtr_quiet : (b : Bool) → IsQuiet received sent (s.write_data_terminal_ready b)
  pub rts_quiet : (b : Bool) → IsQuiet received sent (s.write_request_to_send b)
  pub set_break_quiet : IsQuiet received sent s.set_break
  pub clear_break_quiet : IsQuiet received sent s.clear_break
  pub cts_quiet : IsQuiet received sent s.read_clear_to_send
  pub dsr_quiet : IsQuiet received sent s.read_data_set_ready
  pub dcd_quiet : IsQuiet received sent s.read_carrier_detect
  pub clear_quiet : IsQuiet received sent s.clear_all
