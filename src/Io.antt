-- ===== src/Io.antt =====
-- What the code uses of `std::io` and `std::task`: error kinds, errors, results and `Poll`.
use node_serialport_rs.Prelude.{ℕ, String, Option, none, Bool, true, false}

-- `io::ErrorKind`. `unlisted` stands for the kinds that no line of the code names.
pub data ErrorKind : Type 0 where
  not_found permission_denied invalid_input invalid_data resource_busy would_block : ErrorKind
  timed_out unsupported broken_pipe not_connected connection_aborted : ErrorKind
  connection_reset unexpected_eof write_zero interrupted other : ErrorKind
  unlisted : ℕ → ErrorKind

-- `io::Error` by what the code asks of it: `kind()`, `to_string()` and `raw_os_error()`. The last
-- is an `i32` that is only passed on, so it is kept as its bit pattern.
pub record IoError : Type 0 where
  pub kind : ErrorKind
  pub message : String
  pub errno : Option ℕ

pub data Result {ℓ κ} (A : Type ℓ) (E : Type κ) : Type (ℓ ⊔ κ) where
  ok : A → Result A E
  err : E → Result A E

abbrev pub IoResult {ℓ} : Type ℓ → Type ℓ
IoResult A = Result A IoError

pub data Poll {ℓ} (A : Type ℓ) : Type ℓ where
  pending : Poll A
  ready : A → Poll A

-- `io::Error::new`
abbrev pub io_error : ErrorKind → String → IoError
io_error k m = record { kind = k; message = m; errno = none }

-- `?` on an `io::Result`
infixl 5 ◌>>=◌
abbrev pub ◌>>=◌ {ℓ κ} : {A : Type ℓ} {B : Type κ} → IoResult A → (A → IoResult B) → IoResult B
ok a >>= f = f a
err e >>= f = err e

-- `?` on an `io::Result<()>` whose value is not used
infixl 5 ◌>>◌
abbrev pub ◌>>◌ {κ} : {B : Type κ} → IoResult (Unit {0}) → IoResult B → IoResult B
ok u >> r = r
err e >> r = err e

abbrev pub is_interrupted : ErrorKind → Bool
is_interrupted interrupted = true
is_interrupted k = false

-- `matches!(kind, WouldBlock | Interrupted)`
abbrev pub is_transient : ErrorKind → Bool
is_transient would_block = true
is_transient interrupted = true
is_transient k = false
