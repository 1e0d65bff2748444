-- ===== src/Reads.antt =====
-- The bytes of src/reactor.rs on their way from the device to JavaScript: those that a burst has
-- gathered, and those of the events that the callback's queue holds.
pub mod Round
pub mod Burst
mod Tests
use node_serialport_rs.Prelude.{
  ℕ, ◌+◌, ◌≡◌, refl, sym, ap, ◌∙◌, Option, none, some, List, [], ◌∷◌, ◌++◌, length, take,
  append-nil, append_assoc, arith, length-append,
}
use node_serialport_rs.Event.{CallbackEvent, event, inline_read, read, read_batch}
use node_serialport_rs.Event.Payload.{flatten, payload}
use node_serialport_rs.Reactor.Burst.{store_first, store_batch}

-- The bytes that an event brings, as read-ahead data or as the answer to a single read.
abbrev or_empty : Option (List ℕ) → List ℕ
or_empty none = []
or_empty (some bytes) = bytes

abbrev pub read_bytes : CallbackEvent → List ℕ
read_bytes (event e) = or_empty e.bytes
read_bytes e = payload e

abbrev pub delivered_bytes : List CallbackEvent → List ℕ
delivered_bytes [] = []
delivered_bytes (e ∷ es) = read_bytes e ++ delivered_bytes es

-- The read-ahead data of an event, by the chunks that were read.
abbrev pub chunks_of : CallbackEvent → List (List ℕ)
chunks_of (inline_read bytes len) = take len bytes ∷ []
chunks_of (read bytes) = bytes ∷ []
chunks_of (read_batch chunks) = chunks
chunks_of (event e) = []

abbrev pub delivered_chunks : List CallbackEvent → List (List ℕ)
delivered_chunks [] = []
delivered_chunks (e ∷ es) = chunks_of e ++ delivered_chunks es

-- The followers that a burst holds, and how many they are.
abbrev pub gathered_chunks : Option (List ℕ) → List (List ℕ) → List (List ℕ)
gathered_chunks none batch = batch
gathered_chunks (some chunk) batch = chunk ∷ batch

abbrev pub gathered : Option (List ℕ) → List (List ℕ) → List ℕ
gathered none batch = flatten batch
gathered (some chunk) batch = chunk ++ flatten batch

abbrev pub followers : Option (List ℕ) → List (List ℕ) → ℕ
followers none batch = length batch
followers (some chunk) batch = 1 + length batch

-- One follower is in `first`; two or more are in `batch`.
abbrev pub IsStored : Option (List ℕ) → List (List ℕ) → Type 0
IsStored none batch = Unit {0}
IsStored (some chunk) batch = batch ≡ []

pub flatten-append : (xs ys : List (List ℕ)) → flatten (xs ++ ys) ≡ flatten xs ++ flatten ys
flatten-append [] ys = refl
flatten-append (x ∷ xs) ys =
    ap (◌++◌ x) (flatten-append xs ys) ∙ sym (append_assoc x (flatten xs) (flatten ys))

pub delivered_bytes-append :
    (k : List CallbackEvent) (e : CallbackEvent)
    → delivered_bytes (k ++ (e ∷ [])) ≡ delivered_bytes k ++ read_bytes e
delivered_bytes-append [] e = append-nil (read_bytes e)
delivered_bytes-append (x ∷ xs) e =
    ap (◌++◌ (read_bytes x)) (delivered_bytes-append xs e)
    ∙ sym (append_assoc (read_bytes x) (delivered_bytes xs) (read_bytes e))

pub flatten-gathered_chunks :
    (first : Option (List ℕ)) (batch : List (List ℕ))
    → flatten (gathered_chunks first batch) ≡ gathered first batch
flatten-gathered_chunks none batch = refl
flatten-gathered_chunks (some chunk) batch = refl

pub length-gathered_chunks :
    (first : Option (List ℕ)) (batch : List (List ℕ))
    → length (gathered_chunks first batch) ≡ followers first batch
length-gathered_chunks none batch = refl
length-gathered_chunks (some chunk) batch = omega arith

pub delivered_chunks-append :
    (k : List CallbackEvent) (e : CallbackEvent)
    → delivered_chunks (k ++ (e ∷ [])) ≡ delivered_chunks k ++ chunks_of e
delivered_chunks-append [] e = append-nil (chunks_of e)
delivered_chunks-append (x ∷ xs) e =
    ap (◌++◌ (chunks_of x)) (delivered_chunks-append xs e)
    ∙ sym (append_assoc (chunks_of x) (delivered_chunks xs) (chunks_of e))

-- A stored follower comes behind the others, and the invariant is kept.
pub store_lem :
    (first : Option (List ℕ)) (batch : List (List ℕ)) (chunk : List ℕ)
    → IsStored first batch
    → (gathered (store_first first batch chunk) (store_batch first batch chunk)
        ≡ gathered first batch ++ chunk)
      × (followers (store_first first batch chunk) (store_batch first batch chunk)
          ≡ followers first batch + 1)
      × IsStored (store_first first batch chunk) (store_batch first batch chunk)
store_lem none [] chunk h = (append-nil chunk, omega arith, refl)
store_lem none (x ∷ batch) chunk h = (
  ap (◌++◌ x) (flatten-append batch (chunk ∷ []) ∙ ap (◌++◌ (flatten batch)) (append-nil chunk))
      ∙ sym (append_assoc x (flatten batch) chunk),
  omega (arith, length-append batch (chunk ∷ [])),
  tt,
)
store_lem (some previous) batch chunk h = (
  rw h (ap (◌++◌ previous) (append-nil chunk) ∙ ap (λ x. x ++ chunk) (sym (append-nil previous))),
  rw h (omega arith),
  tt,
)
