-- ===== src/Wire/Device.antt =====
-- The concrete device as a whole serial port: the calls that move no bytes do nothing.
use node_serialport_rs.Prelude.{
  ℕ, ◌≡◌, refl, sym, List, [], ◌∷◌, ◌++◌, false, append-nil, length, arith,
}
use node_serialport_rs.Io.{ErrorKind, IoResult, Poll, pending, ready, err, io_error}
use node_serialport_rs.Serial.{Serial, pure}
use node_serialport_rs.Serial.Laws.{IsSerial}
use node_serialport_rs.Transfer.Bytes.{moved, Fits}
use node_serialport_rs.Wire.{Wire, wire, wire_read, wire_write, taken, output, wire_lawful}

-- Where the asynchronous call would wait, the other one says `WouldBlock`.
abbrev pub now : Poll (IoResult ℕ) → IoResult ℕ
now pending = err (io_error ErrorKind.would_block "would block")
now (ready r) = r

abbrev at_once : Wire × List ℕ × Poll (IoResult ℕ) → Wire × List ℕ × IoResult ℕ
at_once (w, b, r) = (w, b, now r)

abbrev pub wire_serial : Serial Wire
wire_serial = record {
  io = wire;
  try_read = λ w b. at_once (wire_read w w.input b);
  try_write = λ b w. (let r = wire_write w b in (r.0, now r.1));
  drain_output = pure tt;
  bytes_to_write = pure 0;
  set_baud_rate = λ n. pure tt;
  baud_rate = pure 9600;
  write_data_terminal_ready = λ b. pure tt;
  write_request_to_send = λ b. pure tt;
  set_break = pure tt;
  clear_break = pure tt;
  read_clear_to_send = pure false;
  read_data_set_ready = pure false;
  read_carrier_detect = pure false;
  clear_all = pure tt;
}

read_law :
    (w : Wire) (i b : List ℕ)
    → let r = at_once (wire_read w i b) in
      (taken r.0 ≡ taken w ++ moved (ready r.2) r.1)
      × (output r.0 ≡ output w)
      × Fits (ready r.2) (length b)
      × (length r.1 ≡ length b)
read_law w [] b = (sym (append-nil w.taken), refl, tt, refl)
read_law w (x ∷ i) [] = (sym (append-nil w.taken), refl, omega arith, refl)
read_law w (x ∷ i) (y ∷ b) = (refl, refl, omega arith, refl)

write_law :
    (w : Wire) (b : List ℕ)
    → let r = wire_write w b in
      (output r.0 ≡ output w ++ moved (ready (now r.1)) b)
      × (taken r.0 ≡ taken w)
      × Fits (ready (now r.1)) (length b)
write_law w [] = (sym (append-nil w.output), refl, omega arith)
write_law w (x ∷ b) = (refl, refl, omega arith)

pub wire_serial_lawful : IsSerial wire_serial taken output
wire_serial_lawful = record {
  async = wire_lawful;
  try_read_received = λ w b. (read_law w w.input b).0;
  try_read_sent = λ w b. (read_law w w.input b).1;
  try_read_fits = λ w b. (read_law w w.input b).2;
  try_read_length = λ w b. (read_law w w.input b).3;
  try_write_sent = λ w b. (write_law w b).0;
  try_write_received = λ w b. (write_law w b).1;
  try_write_fits = λ w b. (write_law w b).2;
  drain_quiet = λ p. (refl, refl);
  bytes_to_write_quiet = λ p. (refl, refl);
  set_baud_rate_quiet = λ n p. (refl, refl);
  baud_rate_quiet = λ p. (refl, refl);
  dtr_quiet = λ b p. (refl, refl);
  rts_quiet = λ b p. (refl, refl);
  set_break_quiet = λ p. (refl, refl);
  clear_break_quiet = λ p. (refl, refl);
  cts_quiet = λ p. (refl, refl);
  dsr_quiet = λ p. (refl, refl);
  dcd_quiet = λ p. (refl, refl);
  clear_quiet = λ p. (refl, refl);
}
