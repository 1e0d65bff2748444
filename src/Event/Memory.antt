-- ===== src/Event/Memory.antt =====
-- The memory of JavaScript's buffers that `pooled_read` of src/lib.rs copies into, and what the
-- allocator promises of it.
use node_serialport_rs.Prelude.{
  ℕ, zero, suc, ◌+◌, ◌≤◌, ◌<◌, ◌≡◌, ◌==◌, refl, ap₂, ◌∙◌, Bool-cases, inl, inr, Bool, true, false,
  List, [], ◌∷◌, arith, length,
}
use node_serialport_rs.Io.{ok}
use node_serialport_rs.Event.{JsHeap, Slot, JsBuffer, owned, allocated, Allocator, copy_from_slice}

-- What JavaScript reads in a buffer.
unfoldable pub load : ℕ → ℕ → (ℕ → ℕ) → List ℕ
load address zero memory = []
load address (suc n) memory = memory address ∷ load (suc address) n memory

abbrev pub buffer_bytes : (ℕ → ℕ) → JsBuffer → List ℕ
buffer_bytes memory (owned bytes) = bytes
buffer_bytes memory (allocated slot) = load slot.address slot.length memory

pub copy_from_slice-outside :
    (address : ℕ) (bs : List ℕ) (memory : ℕ → ℕ) (a : ℕ)
    → (address ≤ a → a < address + length bs → ⊥)
    → copy_from_slice address bs memory a ≡ memory a
unfolding copy_from_slice
copy_from_slice-outside address [] memory a h = refl
copy_from_slice-outside address (b ∷ bs) memory a h =
    copy_from_slice-outside (suc address) bs _ a (λ x y. h (omega arith) (omega arith))
    ∙ elim (Bool-cases (a == address)) [
      | inl e ↦ absurd (h (ground arith) (ground arith))
      | inr e ↦ rw e refl
    ]

pub load-copy_from_slice :
    (address : ℕ) (bs : List ℕ) (memory : ℕ → ℕ)
    → load address (length bs) (copy_from_slice address bs memory) ≡ bs
unfolding copy_from_slice load
load-copy_from_slice address [] memory = refl
load-copy_from_slice address (b ∷ bs) memory =
    ap₂ ◌∷◌ (copy_from_slice-outside (suc address) bs _ address (λ x y. omega arith) ∙ ground arith)
      (load-copy_from_slice (suc address) bs _)

pub load-same :
    (address n : ℕ) (before after : ℕ → ℕ)
    → ((a : ℕ) → address ≤ a → a < address + n → after a ≡ before a)
    → load address n after ≡ load address n before
unfolding load
load-same address zero before after h = refl
load-same address (suc n) before after h =
    ap₂ ◌∷◌ (h address (omega arith) (omega arith))
      (load-same (suc address) n before after (λ a x y. h a (omega arith) (omega arith)))

abbrev pub Within : Slot → ℕ → Type 0
Within slot a = (slot.address ≤ a) × (a < slot.address + slot.length)

-- What Node documents of `Buffer.allocUnsafe`: the memory of a new buffer is no part of a buffer
-- that is in use, and the call leaves the buffers in use as they are, whether it returns or throws.
-- `held` says which addresses are in use.
pub record IsAllocator {J : Type 0} (held : J → ℕ → Bool) (allocator : Allocator J) : Type 0 where
  pub fresh :
      (js : JsHeap J) (n : ℕ) {slot : Slot}
      → (allocator js n).1 ≡ ok slot
      → (a : ℕ) → Within slot a
      → held js.rest a ≡ false
  pub now_held :
      (js : JsHeap J) (n : ℕ) {slot : Slot}
      → (allocator js n).1 ≡ ok slot
      → (a : ℕ) → Within slot a
      → held (allocator js n).0.rest a ≡ true
  pub still_held :
      (js : JsHeap J) (n a : ℕ) → held js.rest a ≡ true → held (allocator js n).0.rest a ≡ true
  pub untouched :
      (js : JsHeap J) (n a : ℕ) → held js.rest a ≡ true → (allocator js n).0.memory a ≡ js.memory a
