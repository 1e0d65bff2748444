-- ===== src/Wire.antt =====
-- A concrete serial device, at which the tests instantiate the parameters of the model: it moves
-- one byte for each call.
pub mod Device
pub mod Desk
use node_serialport_rs.Prelude.{ℕ, ◌≡◌, refl, List, [], ◌∷◌, ◌++◌, arith, append-nil, length, sym}
use node_serialport_rs.Io.{IoResult, Poll, pending, ready, ok}
use node_serialport_rs.Transfer.{AsyncPort}
use node_serialport_rs.Transfer.Bytes.{IsAsyncPort, moved, Fits}

-- `input` waits to be read; `taken` and `output` have gone each way.
pub record Wire : Type 0 where
  pub input : List ℕ
  pub taken : List ℕ
  pub output : List ℕ

abbrev pub wire_read : Wire → List ℕ → List ℕ → Wire × List ℕ × Poll (IoResult ℕ)
wire_read w [] b = (w, b, pending)
wire_read w (x ∷ i) [] = (w, [], ready (ok 0))
wire_read w (x ∷ i) (y ∷ b) =
    (record w { input = i; taken = w.taken ++ (x ∷ []) }, x ∷ b, ready (ok 1))

abbrev pub wire_write : Wire → List ℕ → Wire × Poll (IoResult ℕ)
wire_write w [] = (w, ready (ok 0))
wire_write w (x ∷ b) = (record w { output = w.output ++ (x ∷ []) }, ready (ok 1))

abbrev pub wire : AsyncPort Wire
wire = record { poll_read = λ w b. wire_read w w.input b; poll_write = wire_write }

abbrev pub taken : Wire → List ℕ
taken w = w.taken

abbrev pub output : Wire → List ℕ
output w = w.output

-- The contract holds of any input.
read_law :
    (w : Wire) (i b : List ℕ)
    → let r = wire_read w i b in
      (taken r.0 ≡ taken w ++ moved r.2 r.1)
      × (output r.0 ≡ output w)
      × Fits r.2 (length b)
      × (length r.1 ≡ length b)
read_law w [] b = (sym (append-nil w.taken), refl, tt, refl)
read_law w (x ∷ i) [] = (sym (append-nil w.taken), refl, omega arith, refl)
read_law w (x ∷ i) (y ∷ b) = (refl, refl, omega arith, refl)

write_law :
    (w : Wire) (b : List ℕ)
    → let r = wire_write w b in
      (output r.0 ≡ output w ++ moved r.1 b) × (taken r.0 ≡ taken w) × Fits r.1 (length b)
write_law w [] = (sym (append-nil w.output), refl, omega arith)
write_law w (x ∷ b) = (refl, refl, omega arith)

pub wire_lawful : IsAsyncPort wire taken output
wire_lawful = record {
  read_received = λ w b. (read_law w w.input b).0;
  read_sent = λ w b. (read_law w w.input b).1;
  read_fits = λ w b. (read_law w w.input b).2;
  read_length = λ w b. (read_law w w.input b).3;
  write_sent = λ w b. (write_law w b).0;
  write_received = λ w b. (write_law w b).1;
  write_fits = λ w b. (write_law w b).2;
}
