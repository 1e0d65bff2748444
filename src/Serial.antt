-- ===== src/Serial.antt =====
-- `SerialStream` of src/platform/unix.rs and src/platform/windows.rs, and what the rest of the code
-- calls on it and on the `serialport` crate's port inside it: a parameter of the model. Its laws
-- are in Serial/Laws.antt.
pub mod Laws
use node_serialport_rs.Prelude.{ℕ, List, Bool}
use node_serialport_rs.Io.{IoResult, ok, err}
use node_serialport_rs.Transfer.{AsyncPort}

-- A call on the port, which may change it whether or not it fails.
abbrev pub PortCall {ℓ} : Type 0 → Type ℓ → Type ℓ
PortCall T A = T → T × IoResult A

pub record Serial (T : Type 0) : Type 0 where
  pub io : AsyncPort T
  -- The slice after the call, and how many bytes at its front were read.
  pub try_read : T → List ℕ → T × List ℕ × IoResult ℕ
  pub try_write : List ℕ → PortCall T ℕ
  pub drain_output : PortCall T (Unit {0})
  pub bytes_to_write : PortCall T ℕ
  pub set_baud_rate : ℕ → PortCall T (Unit {0})
  pub baud_rate : PortCall T ℕ
  pub write_data_terminal_ready : Bool → PortCall T (Unit {0})
  pub write_request_to_send : Bool → PortCall T (Unit {0})
  pub set_break : PortCall T (Unit {0})
  pub clear_break : PortCall T (Unit {0})
  pub read_clear_to_send : PortCall T Bool
  pub read_data_set_ready : PortCall T Bool
  pub read_carrier_detect : PortCall T Bool
  -- `clear(ClearBuffer::All)`
  pub clear_all : PortCall T (Unit {0})

module _ {T : Type 0} where
  abbrev pub after : {A B : Type 0} → T × IoResult A → (A → PortCall T B) → T × IoResult B
  after (p, ok a) f = f a p
  after (p, err e) f = (p, err e)

  -- `?` after a call on the port
  infixl 5 ◌>>=◌ ◌>>◌
  abbrev pub ◌>>=◌ : {A B : Type 0} → PortCall T A → (A → PortCall T B) → PortCall T B
  ◌>>=◌ m f p = after (m p) f

  abbrev pub ◌>>◌ : {B : Type 0} → PortCall T (Unit {0}) → PortCall T B → PortCall T B
  ◌>>◌ m k p = after (m p) (λ _. k)

  abbrev pub pure : {A : Type 0} → A → PortCall T A
  pure a p = (p, ok a)
