-- ===== src/Event/Payload.antt =====
-- The bytes that an event of src/lib.rs carries.
use node_serialport_rs.Prelude.{
  ℕ, zero, suc, ◌≤◌, ◌≡◌, refl, ap, ltb, Bool-cases, inl, inr, List, [], ◌∷◌, ◌++◌, arith, length,
  take,
}
use node_serialport_rs.Event.{
  CallbackEvent, inline_read, read, read_batch, event, inline_read_capacity, read_event,
}

abbrev pub flatten : List (List ℕ) → List ℕ
flatten [] = []
flatten (x ∷ xs) = x ++ flatten xs

-- The bytes of read-ahead data in an event.
abbrev pub payload : CallbackEvent → List ℕ
payload (inline_read bytes len) = take len bytes
payload (read bytes) = bytes
payload (read_batch chunks) = flatten chunks
payload (event e) = []

take-take_append : (n : ℕ) (xs ys : List ℕ) → n ≤ length xs → take n (take n xs ++ ys) ≡ take n xs
take-take_append zero xs ys h = refl
take-take_append (suc n) [] ys h = absurd (omega arith)
take-take_append (suc n) (x ∷ xs) ys h = ap (◌∷◌ x) (take-take_append n xs ys (omega arith))

-- A read event carries exactly the first `len` bytes of the reader's buffer, whichever way it
-- carries them.
pub payload-read_event :
    (bits : ℕ) (bytes : List ℕ) (len : ℕ)
    → len ≤ length bytes
    → payload (read_event bits bytes len).0 ≡ take len bytes
unfolding read_event
payload-read_event bits bytes len h = elim (Bool-cases (ltb (inline_read_capacity bits) len)) [
  | inl e ↦ rw e
  | inr e ↦ rw e (take-take_append len bytes _ h)
]
