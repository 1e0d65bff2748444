-- ===== src/Port/Write.antt =====
-- src/lib.rs, `NativePort::write` and `NativePort::writev`.
pub mod Segments
use node_serialport_rs.Prelude.{
  ℕ, ◌-◌, ◌==◌, leb, ltb, if◌then◌else◌, Option, none, some, Bool, true, false, not, ◌&&◌, List, [],
  ◌∷◌, ◌++◌, length, drop,
}
use node_serialport_rs.Io.{IoResult, ok, err}
use node_serialport_rs.Command.{write, Command}
use node_serialport_rs.Event.{JsError, JsResult}
use node_serialport_rs.Serial.{Serial}
use node_serialport_rs.Control.{Control, Mpsc, chunk_size}
use node_serialport_rs.Port.{NativePort, closed, invalid_argument, enqueue}

-- An element of the array that `writev` is given. Reading it may run JavaScript, which may call
-- the port itself.
abbrev pub Element : Type 0 → Type 0 → Type 0
Element T C = NativePort T C → NativePort T C × JsResult (Option (List ℕ))

abbrev pub with_capacity : Option ℕ → ℕ
with_capacity none = 0
with_capacity (some n) = n

abbrev pub allowed : Option Bool → Bool
allowed none = false
allowed (some b) = b

abbrev pub count_of : IoResult ℕ → Option ℕ
count_of (ok n) = some n
count_of (err e) = none

module _ {T C : Type 0} where
  -- One round of the loop of `writev`, from what the array access gave; `next` is the rest.
  abbrev pub add_segment :
      List ℕ
      → NativePort T C × JsResult (Option (List ℕ))
      → (NativePort T C → List ℕ → NativePort T C × JsResult (List ℕ))
      → NativePort T C × JsResult (List ℕ)
  add_segment bytes (p, err e) next = (p, err e)
  add_segment bytes (p, ok none) next = (p, err (invalid_argument "Missing write buffer"))
  add_segment bytes (p, ok (some buffer)) next =
      if leb (length buffer) (chunk_size - length bytes)
      then next p (bytes ++ buffer)
      else (p, err (invalid_argument "Invalid transfer size"))

  -- The loop of `writev`, over the elements that are left.
  unfoldable pub snapshot :
      NativePort T C → List ℕ → List (Element T C) → NativePort T C × JsResult (List ℕ)
  snapshot p bytes [] = (p, ok bytes)
  snapshot p bytes (element ∷ rest) =
      add_segment bytes (element p) (λ p' bytes'. snapshot p' bytes' rest)

module _ {T : Type 0} (serial : Serial T) where
  -- The `try_lock`ed part of the inline attempt.
  abbrev pub inline_locked : Control T → Bool → Option T → List ℕ → Control T × Option ℕ
  inline_locked c true session bytes = (c, none)
  inline_locked c false none bytes = (c, none)
  inline_locked c false (some port) bytes =
      let (port', result) = serial.try_write bytes port in
      (record c { session = some port' }, count_of result)

  -- The chain of conditions before `written = count`. `contended` says that the I/O worker holds
  -- the mutex, so that `try_lock` fails.
  unfoldable pub inline_write : Control T → Bool → Bool → List ℕ → Control T × Option ℕ
  inline_write c allow_inline contended bytes =
      if allow_inline && (c.pending_ops == 0 && not contended)
      then inline_locked c c.poisoned c.session bytes
      else (c, none)

module _ {T C : Type 0} (mpsc : Mpsc C) where
  -- `Ok(false)` after `enqueue(..)?`
  abbrev pub queued : NativePort T C × JsResult (Unit {0}) → NativePort T C × JsResult Bool
  queued (p, ok u) = (p, ok false)
  queued (p, err e) = (p, err e)

  unfoldable pub enqueue_rest : NativePort T C → ℕ → List ℕ → NativePort T C × JsResult Bool
  enqueue_rest p id bytes = queued (enqueue mpsc p (record { id = id; operation = write bytes }))

  -- What follows the inline attempt, in both functions.
  abbrev pub finish_write : NativePort T C → ℕ → List ℕ → Option ℕ → NativePort T C × JsResult Bool
  finish_write p id bytes none = enqueue_rest p id bytes
  finish_write p id bytes (some count) =
      if count == length bytes then (p, ok true) else enqueue_rest p id (drop count bytes)

module _ {T C : Type 0} (serial : Serial T) (mpsc : Mpsc C) where
  unfoldable pub attempt_write :
      NativePort T C → ℕ → List ℕ → Bool → Bool → NativePort T C × JsResult Bool
  attempt_write p id bytes allow_inline contended =
      let (c, count) = inline_write serial p.control allow_inline contended bytes in
      finish_write mpsc (record p { control = c }) id bytes count

  unfoldable pub write_port :
      NativePort T C → ℕ → List ℕ → Bool → Bool → NativePort T C × JsResult Bool
  write_port p id bytes allow_inline contended =
      if leb (length bytes) chunk_size
      then (if p.control.stopped
          then (p, err closed)
          else attempt_write p id bytes allow_inline contended)
      else (p, err (invalid_argument "Invalid transfer size"))

  -- The part of `writev` after the loop, with its second look at `stop`.
  unfoldable pub write_snapshot :
      ℕ → Bool → Bool → NativePort T C × JsResult (List ℕ) → NativePort T C × JsResult Bool
  write_snapshot id allow_inline contended (p, err e) = (p, err e)
  write_snapshot id allow_inline contended (p, ok bytes) =
      if p.control.stopped then (p, err closed) else attempt_write p id bytes allow_inline contended

  unfoldable pub writev_port :
      NativePort T C
      → ℕ
      → List (Element T C)
      → Option ℕ
      → Option Bool
      → Bool
      → NativePort T C × JsResult Bool
  writev_port p id buffers length_hint allow_inline contended =
      if p.control.stopped
      then (p, err closed)
      else if leb (with_capacity length_hint) chunk_size && leb (length buffers) 1024
      then write_snapshot id (allowed allow_inline) contended (snapshot p [] buffers)
      else (p, err (invalid_argument "Invalid transfer size"))
