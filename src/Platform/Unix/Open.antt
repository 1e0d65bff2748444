-- ===== src/Platform/Unix/Open.antt =====
-- `open` of src/platform/unix.rs, and `open` of src/platform.rs over it.
use node_serialport_rs.Prelude.{
  ℕ, ◌≡◌, refl, sym, subst, Bool, ◌&&◌, if◌then◌else◌, String, max, bit_or, ◌∙◌, ap, true, false,
  arith,
}
use node_serialport_rs.Io.{IoError, IoResult, Result, ok, err}
use node_serialport_rs.Settings.{Builder}
use node_serialport_rs.Bits.{digit, digit-bit_or}
use text.Mathlib.Text.{◌==◌ as str_eq}

-- `serialport::Error`: its kind, as a number, and its description.
pub record PortError : Type 0 where
  pub kind : ℕ
  pub description : String

-- `TTYPort::open`, `fcntl` and `AsyncFd::register` on a port `P` that is open in a system `W`, and
-- the conversions between the errors. `nonblock` is `O_NONBLOCK`.
pub record TtyOpener (W P F : Type 0) : Type 0 where
  pub open_tty : Builder → W → W × Result P PortError
  pub get_flags : P → P × IoResult ℕ
  pub set_flags : ℕ → P → P × IoResult (Unit {0})
  pub register : P → IoResult F
  pub nonblock : ℕ
  pub port_error : IoError → PortError
  pub io_error_of : PortError → IoError

module _ {W P F : Type 0} (o : TtyOpener W P F) where
  -- `.map_err(io::Error::from)?`, to the end.
  abbrev pub registered : IoResult F → Result F PortError
  registered (ok x) = ok x
  registered (err e) = err (o.port_error e)

  abbrev pub flags_set : P × IoResult (Unit {0}) → Result F PortError
  flags_set (p, ok u) = registered (o.register p)
  flags_set (p, err e) = err (o.port_error e)

  abbrev pub flags_read : P × IoResult ℕ → Result F PortError
  flags_read (p, ok flags) = flags_set (o.set_flags (bit_or flags o.nonblock) p)
  flags_read (p, err e) = err (o.port_error e)

  abbrev pub opened_tty : W × Result P PortError → W × Result F PortError
  opened_tty (w, ok p) = (w, flags_read (o.get_flags p))
  opened_tty (w, err e) = (w, err e)

  -- `SerialStream::open`
  unfoldable pub open_stream : Builder → W → W × Result F PortError
  open_stream b w = opened_tty (o.open_tty b w)

  abbrev pub converted : W × Result F PortError → W × IoResult F
  converted (w, ok x) = (w, ok x)
  converted (w, err e) = (w, err (o.io_error_of e))

  -- What `open` does with the answer of the first attempt. `enotty` is `Errno::ENOTTY.desc()`.
  abbrev pub retried : Bool → String → Builder → W × Result F PortError → W × IoResult F
  retried is_macos enotty b (w, ok x) = (w, ok x)
  retried is_macos enotty b (w, err e) =
      if is_macos && str_eq e.description enotty
      then converted (open_stream (record b { baud_rate = 0 }) w)
      else (w, err (o.io_error_of e))

  -- `open` of src/platform.rs; the first argument is `target_os = "macos"`.
  unfoldable pub platform_open : Bool → String → Builder → W → W × IoResult F
  platform_open is_macos enotty b w = retried is_macos enotty b (open_stream b w)

-- `F_SETFL` sets the flags that it can change, of which `O_NONBLOCK` is one, and leaves the others as
-- they are, such as the access mode; registering keeps the flags. Flags are by their binary digits.
pub record IsFcntl {W P F : Type 0} (o : TtyOpener W P F) (settable : ℕ → Bool) (flags_of : P → ℕ)
    (stream_flags : F → ℕ) : Type 0 where
  pub get_flags_lem : (p : P) {n : ℕ} → (o.get_flags p).1 ≡ ok n → n ≡ flags_of p
  pub get_flags_keeps : (p : P) → flags_of (o.get_flags p).0 ≡ flags_of p
  pub set_flags_lem :
      (n : ℕ) (p : P)
      → (o.set_flags n p).1 ≡ ok tt
      → (i : ℕ)
      → digit i (flags_of (o.set_flags n p).0)
        ≡ (if settable i then digit i n else digit i (flags_of p))
  pub nonblock_settable : (i : ℕ) → settable i ≡ false → digit i o.nonblock ≡ 0
  pub register_keeps : (p : P) {x : F} → o.register p ≡ ok x → stream_flags x ≡ flags_of p

module _ {W P F : Type 0} (o : TtyOpener W P F) {settable : ℕ → Bool} {flags_of : P → ℕ}
    {stream_flags : F → ℕ} (law : IsFcntl o settable flags_of stream_flags) where
  -- A stream that was opened has the flags that its port had, and `O_NONBLOCK`.
  abbrev IsNonblocking : ℕ → Result F PortError → Type 0
  IsNonblocking flags (ok x) =
      (i : ℕ) → digit i (stream_flags x) ≡ max (digit i flags) (digit i o.nonblock)
  IsNonblocking flags (err e) = Unit {0}

  registered-IsNonblocking :
      (flags : ℕ) (p : P) (r : IoResult F)
      → r ≡ o.register p
      → ((i : ℕ) → digit i (flags_of p) ≡ max (digit i flags) (digit i o.nonblock))
      → IsNonblocking flags (registered o r)
  registered-IsNonblocking flags p (err e) h q = tt
  registered-IsNonblocking flags p (ok x) h q =
      λ i. ap (digit i) (law.register_keeps p (sym h)) ∙ q i

  -- A digit that can be set is the one that was asked for; another is 0 in `O_NONBLOCK`.
  settled :
      (flags i : ℕ) (z : Bool)
      → z ≡ settable i
      → (if z then digit i (bit_or flags o.nonblock) else digit i flags)
        ≡ max (digit i flags) (digit i o.nonblock)
  settled flags i true h = digit-bit_or i flags o.nonblock
  settled flags i false h =
      let e : digit i o.nonblock ≡ 0 = law.nonblock_settable i (sym h) in omega (arith, e)

  flags_set-IsNonblocking :
      (flags : ℕ) (p : P) (r : P × IoResult (Unit {0}))
      → r ≡ o.set_flags (bit_or flags o.nonblock) p
      → flags_of p ≡ flags
      → IsNonblocking flags (flags_set o r)
  flags_set-IsNonblocking flags p (q, err e) h k = tt
  flags_set-IsNonblocking flags p (q, ok u) h k =
      registered-IsNonblocking flags q (o.register q) refl (λ i.
        ap (λ r. digit i (flags_of r.0)) h
        ∙ law.set_flags_lem (bit_or flags o.nonblock) p (ap (λ r. r.1) (sym h)) i
        ∙ ap (λ n. if settable i then digit i (bit_or flags o.nonblock) else digit i n) k
        ∙ settled flags i (settable i) refl)

  flags_read-IsNonblocking :
      (p : P) (r : P × IoResult ℕ) → r ≡ o.get_flags p → IsNonblocking (flags_of p) (flags_read o r)
  flags_read-IsNonblocking p (q, err e) h = tt
  flags_read-IsNonblocking p (q, ok flags) h =
      let e : flags ≡ flags_of p = law.get_flags_lem p (ap (λ r. r.1) (sym h)) in
      subst (λ n. IsNonblocking n (flags_read o (q, ok flags))) e
        (flags_set-IsNonblocking flags q (o.set_flags (bit_or flags o.nonblock) q) refl
          (ap (λ r. flags_of r.0) h ∙ law.get_flags_keeps p ∙ sym e))

  abbrev pub OpensFrom : Result P PortError → Result F PortError → Type 0
  OpensFrom (ok p) r = IsNonblocking (flags_of p) r
  OpensFrom (err e) r = r ≡ err e

  opened-OpensFrom : (a : W × Result P PortError) → OpensFrom a.1 (opened_tty o a).1
  opened-OpensFrom (w, ok p) = flags_read-IsNonblocking p (o.get_flags p) refl
  opened-OpensFrom (w, err e) = refl

  -- A stream that is opened is nonblocking and has every other flag of the port as it was; a port
  -- that cannot be opened is reported with its own error.
  pub open_stream-OpensFrom :
      (b : Builder) (w : W) → OpensFrom (o.open_tty b w).1 (open_stream o b w).1
  unfolding open_stream
  open_stream-OpensFrom b w = opened-OpensFrom (o.open_tty b w)
