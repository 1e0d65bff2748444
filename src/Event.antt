-- ===== src/Event.antt =====
-- src/lib.rs, events: `NativeEvent`, `CallbackEvent`, and the callback that turns an event into
-- JavaScript values on the JavaScript thread.
pub mod Payload
pub mod Memory
pub mod Pool
mod Tests
use node_serialport_rs.Prelude.{
  ℕ, suc, ◌-◌, ◌%◌, ◌^◌, ◌==◌, leb, ltb, if◌then◌else◌, String, Option, none, some, Bool, List, [],
  ◌∷◌, ◌++◌, length, take, replicate,
}
use node_serialport_rs.Io.{IoError, Result, ok, err}
use node_serialport_rs.Error.{details}

-- `INLINE_READ_CAPACITY`; the argument is `usize::BITS`.
abbrev pub inline_read_capacity : ℕ → ℕ
inline_read_capacity bits = if bits == 64 then 96 else 64

pub record NativeEvent : Type 0 where
  pub id : ℕ
  pub kind : String
  pub bytes : Option (List ℕ)
  pub message : Option String
  pub code : Option String
  pub errno : Option ℕ
  pub cts : Option Bool
  pub dsr : Option Bool
  pub dcd : Option Bool
  pub baud_rate : Option ℕ

-- `NativeEvent::new`
abbrev pub new : ℕ → String → NativeEvent
new id kind = record {
  id = id;
  kind = kind;
  bytes = none;
  message = none;
  code = none;
  errno = none;
  cts = none;
  dsr = none;
  dcd = none;
  baud_rate = none;
}

unfoldable pub with_error : NativeEvent → IoError → NativeEvent
unfolding details
with_error self e =
    let d = details e in
    record self { code = some d.code; errno = d.errno; message = some d.message }

-- `NativeEvent::error`
unfoldable pub error : ℕ → IoError → NativeEvent
unfolding with_error
error id e = with_error (new id "error") e

pub data CallbackEvent : Type 0 where
  inline_read : List ℕ → ℕ → CallbackEvent
  read : List ℕ → CallbackEvent
  read_batch : List (List ℕ) → CallbackEvent
  event : NativeEvent → CallbackEvent

-- `CallbackEvent::read(buffer, len)`: the event, and the buffer that the caller keeps.
unfoldable pub read_event : ℕ → List ℕ → ℕ → CallbackEvent × List ℕ
read_event bits buffer len =
    if ltb (inline_read_capacity bits) len then (read (take len buffer), []) else (
      inline_read (take len buffer ++ replicate (inline_read_capacity bits - len) 0) len,
      buffer,
    )

-- `napi::Error`
pub data Status : Type 0 where
  generic_failure invalid_arg : Status

pub record JsError : Type 0 where
  pub status : Status
  pub reason : String

abbrev pub JsResult {ℓ} : Type ℓ → Type ℓ
JsResult A = Result A JsError

-- `Error::from_reason`
abbrev pub from_reason : String → JsError
from_reason reason = record { status = generic_failure; reason = reason }

-- The JavaScript side: the memory that its buffers are slices of, and whatever else there is.
pub record JsHeap (J : Type 0) : Type 0 where
  pub memory : ℕ → ℕ
  pub rest : J

pub record Slot : Type 0 where
  pub address : ℕ
  pub length : ℕ

-- The JavaScript allocator that the caller of `NativePort::new` supplies: it is given a length as a
-- `u32`, answers with a buffer or throws, and may have any effect on the JavaScript side.
abbrev pub Allocator : Type 0 → Type 0
Allocator J = JsHeap J → ℕ → JsHeap J × JsResult Slot

-- A `Buffer` that JavaScript is given: one that is made of Rust's memory, or a slice that the
-- allocator has returned.
pub data JsBuffer : Type 0 where
  owned : List ℕ → JsBuffer
  allocated : Slot → JsBuffer

-- `CallbackValue`
pub data CallbackValue : Type 0 where
  buffer : JsBuffer → CallbackValue
  buffers : List JsBuffer → CallbackValue
  native : NativeEvent → CallbackValue

-- `copy_from_slice`: the bytes from an address on are overwritten.
unfoldable pub copy_from_slice : ℕ → List ℕ → (ℕ → ℕ) → ℕ → ℕ
copy_from_slice address [] memory = memory
copy_from_slice address (b ∷ bs) memory =
    copy_from_slice (suc address) bs (λ a. if a == address then b else memory a)

module _ {J : Type 0} where
  abbrev pub map_ok : {A B : Type 0} → (A → B) → J × JsResult A → J × JsResult B
  map_ok f (js, ok a) = (js, ok (f a))
  map_ok f (js, err e) = (js, err e)

  abbrev pub and_then : {A B : Type 0} → J × JsResult A → (J → A → J × JsResult B) → J × JsResult B
  and_then (js, ok a) f = f js a
  and_then (js, err e) f = (js, err e)

module _ {J : Type 0} where
  -- The part of `pooled_read` after the allocator's call.
  abbrev pub pooled : List ℕ → JsHeap J × JsResult Slot → JsHeap J × JsResult JsBuffer
  pooled bytes (js, err e) = (js, err e)
  pooled bytes (js, ok slot) =
      if slot.length == length bytes
      then (
        record js { memory = copy_from_slice slot.address bytes js.memory },
        ok (allocated slot),
      )
      else (js, err (from_reason "Invalid read buffer allocation"))

  unfoldable pub pooled_read : Allocator J → JsHeap J → List ℕ → JsHeap J × JsResult JsBuffer
  pooled_read allocator js bytes = pooled bytes (allocator js (length bytes % 2 ^ 32))

  -- One round of the loop of the `ReadBatch` arm. `borrow` is `allocator.borrow_back(&ctx.env)`,
  -- which the loop does at the first small buffer and keeps.
  unfoldable pub pooled_chunk :
      JsResult (Allocator J) → JsHeap J → List ℕ → JsHeap J × JsResult JsBuffer
  unfolding pooled_read
  pooled_chunk (ok allocator) js chunk =
      if leb (length chunk) 1024 then pooled_read allocator js chunk else (js, ok (owned chunk))
  pooled_chunk (err e) js chunk =
      if leb (length chunk) 1024 then (js, err e) else (js, ok (owned chunk))

  unfoldable pub pooled_batch :
      JsResult (Allocator J) → JsHeap J → List (List ℕ) → JsHeap J × JsResult (List JsBuffer)
  pooled_batch borrow js [] = (js, ok [])
  pooled_batch borrow js (chunk ∷ rest) =
      and_then (pooled_chunk borrow js chunk)
        (λ js' chunk'. map_ok (◌∷◌ chunk') (pooled_batch borrow js' rest))

  -- `build_callback`'s closure.
  unfoldable pub deliver :
      JsResult (Allocator J) → JsHeap J → CallbackEvent → JsHeap J × JsResult CallbackValue
  unfolding pooled_read pooled_batch
  deliver (err e) js (inline_read bytes len) = (js, err e)
  deliver (ok allocator) js (inline_read bytes len) =
      map_ok buffer (pooled_read allocator js (take len bytes))
  deliver (err e) js (read bytes) =
      if leb (length bytes) 1024 then (js, err e) else (js, ok (buffer (owned bytes)))
  deliver (ok allocator) js (read bytes) =
      if leb (length bytes) 1024
      then map_ok buffer (pooled_read allocator js bytes)
      else (js, ok (buffer (owned bytes)))
  deliver borrow js (read_batch chunks) = map_ok buffers (pooled_batch borrow js chunks)
  deliver borrow js (event e) = (js, ok (native e))
