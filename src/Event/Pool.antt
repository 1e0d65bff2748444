-- ===== src/Event/Pool.antt =====
-- The buffers that `build_callback`'s closure of src/lib.rs gives to JavaScript, in the memory that
-- the allocator manages.
use node_serialport_rs.Prelude.{
  ℕ, ◌≢◌, ◌≡◌, ◌%◌, ◌^◌, ◌==◌, refl, sym, ap, ap₂, subst, ◌∙◌, Bool, true, false, List, [], ◌∷◌,
  ◌++◌, map, arith, length, take, leb, if_cases,
}
use node_serialport_rs.Io.{ok, err}
use node_serialport_rs.Event.{
  JsError, from_reason, CallbackEvent, inline_read, read, read_batch, event, CallbackValue, buffer,
  buffers, native, JsResult, JsHeap, Slot, JsBuffer, owned, allocated, Allocator, copy_from_slice,
  pooled, pooled_read, pooled_chunk, pooled_batch, map_ok, and_then, deliver,
}
use node_serialport_rs.Event.Payload.{flatten, payload}
use node_serialport_rs.Event.Memory.{
  load, buffer_bytes, copy_from_slice-outside, load-copy_from_slice, load-same, Within, IsAllocator,
}

abbrev pub value_bytes : (ℕ → ℕ) → CallbackValue → List ℕ
value_bytes memory (buffer b) = buffer_bytes memory b
value_bytes memory (buffers bs) = flatten (map (buffer_bytes memory) bs)
value_bytes memory (native e) = []

-- Why `pooled_read` fails with an error on these bytes, by the allocator's answer.
abbrev Refuses : List ℕ → JsError → JsResult Slot → Type 0
Refuses bytes e (err x) = e ≡ x
Refuses bytes e (ok slot) =
    (slot.length ≢ length bytes) × (e ≡ from_reason "Invalid read buffer allocation")

-- The error has a cause: the allocator cannot be had, or a call of it throws or gives a buffer of
-- another length.
abbrev pub Fails : {J : Type 0} → JsResult (Allocator J) → JsError → Type 0
Fails (err x) e = e ≡ x
Fails {J} (ok allocator) e =
    (js : JsHeap J) × (bytes : List ℕ) × Refuses bytes e (allocator js (length bytes % 2 ^ 32)).1

module _ {J : Type 0} (held : J → ℕ → Bool) where
  -- The buffers in use stay so, with their bytes.
  abbrev Kept : JsHeap J → JsHeap J → Type 0
  Kept js js' =
      (a : ℕ) → held js.rest a ≡ true → (held js'.rest a ≡ true) × (js'.memory a ≡ js.memory a)

  abbrev Safe : JsHeap J → JsBuffer → Type 0
  Safe js (owned bytes) = Unit {0}
  Safe js (allocated slot) = (a : ℕ) → Within slot a → held js.rest a ≡ true

  -- A buffer that is in use and has these bytes.
  abbrev Holds : JsResult (Allocator J) → List ℕ → JsHeap J × JsResult JsBuffer → Type 0
  Holds borrow bytes (js, ok b) = Safe js b × (buffer_bytes js.memory b ≡ bytes)
  Holds borrow bytes (js, err e) = Fails borrow e

  abbrev HoldAll :
      JsResult (Allocator J) → List (List ℕ) → JsHeap J × JsResult (List JsBuffer) → Type 0
  HoldAll borrow chunks (js, ok bs) = flatten (map (buffer_bytes js.memory) bs) ≡ flatten chunks
  HoldAll borrow chunks (js, err e) = Fails borrow e

  Kept-trans : (x y z : JsHeap J) → Kept x y → Kept y z → Kept x z
  Kept-trans x y z f g a h = let (k, e) = f a h in let (l, d) = g a k in (l, d ∙ e)

  Safe-same :
      (x y : JsHeap J) (b : JsBuffer)
      → Safe x b
      → Kept x y
      → buffer_bytes y.memory b ≡ buffer_bytes x.memory b
  Safe-same x y (owned bytes) s k = refl
  Safe-same x y (allocated slot) s k =
      load-same slot.address slot.length x.memory y.memory (λ a l u. (k a (s a (l, u))).1)

  module _ (allocator : Allocator J) (law : IsAllocator held allocator) where
    call-Kept : (js : JsHeap J) (n : ℕ) → Kept js (allocator js n).0
    call-Kept js n a h = (law.still_held js n a h, law.untouched js n a h)

    -- The copy goes where nothing was in use before the call.
    copy-Kept :
        (js : JsHeap J) (n : ℕ) (bytes : List ℕ) (slot : Slot)
        → (allocator js n).1 ≡ ok slot
        → slot.length ≡ length bytes
        → Kept js (record {
          memory = copy_from_slice slot.address bytes (allocator js n).0.memory;
          rest = (allocator js n).0.rest;
        })
    copy-Kept js n bytes slot h l a k = (
      law.still_held js n a k,
      copy_from_slice-outside slot.address bytes (allocator js n).0.memory a (λ x y.
            let f : held js.rest a ≡ false = law.fresh js n h a (x, omega arith) in
            absurd (cc (f, k)))
          ∙ law.untouched js n a k,
    )

    pooled-Holds :
        (js : JsHeap J) (bytes : List ℕ) (r : JsHeap J × JsResult Slot)
        → r ≡ allocator js (length bytes % 2 ^ 32)
        → Kept js (pooled bytes r).0 × Holds (ok allocator) bytes (pooled bytes r)
    pooled-Holds js bytes (q, err e) h = (
      subst (λ r. Kept js r.0) (sym h) (call-Kept js (length bytes % 2 ^ 32)),
      (js, bytes, subst (λ r. Refuses bytes e r.1) h refl),
    )
    pooled-Holds js bytes (q, ok slot) h =
        let n = length bytes % 2 ^ 32 in
        if_cases (λ (r : JsHeap J × JsResult JsBuffer). Kept js r.0 × Holds (ok allocator) bytes r)
          (slot.length == length bytes) _ _
          (λ e.
            let l : slot.length ≡ length bytes = ground arith in
            let k : (allocator js n).1 ≡ ok slot = ap (λ r. r.1) (sym h) in
            (
              subst
                  (λ r. Kept js (record {
                    memory = copy_from_slice slot.address bytes r.0.memory;
                    rest = r.0.rest;
                  }))
                  (sym h) (copy-Kept js n bytes slot k l),
              (
                λ a w. ap (λ r. held r.0.rest a) h ∙ law.now_held js n k a w,
                ap (λ m. load slot.address m (copy_from_slice slot.address bytes q.memory)) l
                    ∙ load-copy_from_slice slot.address bytes q.memory,
              ),
            ))
          (λ e. (
            subst (λ r. Kept js r.0) (sym h) (call-Kept js n),
            (
              js,
              bytes,
              subst (λ r. Refuses bytes (from_reason "Invalid read buffer allocation") r.1) h
                  ((λ l. ground (arith, e, l)), refl),
            ),
          ))

  Kept-refl : (js : JsHeap J) → Kept js js
  Kept-refl js a h = (h, refl)

  abbrev pub Lawful : JsResult (Allocator J) → Type 0
  Lawful (ok allocator) = IsAllocator held allocator
  Lawful (err e) = Unit {0}

  pooled_chunk-Holds :
      (borrow : JsResult (Allocator J)) (js : JsHeap J) (chunk : List ℕ)
      → Lawful borrow
      → Kept js (pooled_chunk borrow js chunk).0 × Holds borrow chunk (pooled_chunk borrow js chunk)
  unfolding pooled_chunk pooled_read
  pooled_chunk-Holds (ok allocator) js chunk law =
      if_cases (λ (r : JsHeap J × JsResult JsBuffer). Kept js r.0 × Holds (ok allocator) chunk r)
        (leb (length chunk) 1024) _ _ (λ e. pooled-Holds allocator law js chunk _ refl)
        (λ e. (Kept-refl js, (tt, refl)))
  pooled_chunk-Holds (err x) js chunk law =
      if_cases (λ (r : JsHeap J × JsResult JsBuffer). Kept js r.0 × Holds (err x) chunk r)
        (leb (length chunk) 1024) _ _ (λ e. (Kept-refl js, refl)) (λ e. (Kept-refl js, (tt, refl)))

  joined-HoldAll :
      (borrow : JsResult (Allocator J)) (js q : JsHeap J) (c : List ℕ) (cs : List (List ℕ))
      (b : JsBuffer) (r : JsHeap J × JsResult (List JsBuffer))
      → Kept js q
      → Holds borrow c (q, ok b)
      → Kept q r.0
      → HoldAll borrow cs r
      → Kept js (map_ok (◌∷◌ b) r).0 × HoldAll borrow (c ∷ cs) (map_ok (◌∷◌ b) r)
  joined-HoldAll borrow js q c cs b (p, ok bs) k h l g =
      (Kept-trans js q p k l, ap₂ ◌++◌ (Safe-same q p b h.0 l ∙ h.1) g)
  joined-HoldAll borrow js q c cs b (p, err e) k h l g = (Kept-trans js q p k l, g)

  next-HoldAll :
      (borrow : JsResult (Allocator J)) (js : JsHeap J) (c : List ℕ) (cs : List (List ℕ))
      (r : JsHeap J × JsResult JsBuffer) (batch : JsHeap J → JsHeap J × JsResult (List JsBuffer))
      → Kept js r.0
      → Holds borrow c r
      → ((q : JsHeap J) → Kept q (batch q).0 × HoldAll borrow cs (batch q))
      → Kept js (and_then r (λ q b. map_ok (◌∷◌ b) (batch q))).0
        × HoldAll borrow (c ∷ cs) (and_then r (λ q b. map_ok (◌∷◌ b) (batch q)))
  next-HoldAll borrow js c cs (q, ok b) batch k h f =
      joined-HoldAll borrow js q c cs b (batch q) k h (f q).0 (f q).1
  next-HoldAll borrow js c cs (q, err e) batch k h f = (k, h)

  pooled_batch-HoldAll :
      (borrow : JsResult (Allocator J)) (js : JsHeap J) (chunks : List (List ℕ))
      → Lawful borrow
      → Kept js (pooled_batch borrow js chunks).0
        × HoldAll borrow chunks (pooled_batch borrow js chunks)
  unfolding pooled_batch
  pooled_batch-HoldAll borrow js [] law = (Kept-refl js, refl)
  pooled_batch-HoldAll borrow js (c ∷ cs) law =
      let (k, h) = pooled_chunk-Holds borrow js c law in
      next-HoldAll borrow js c cs (pooled_chunk borrow js c) (λ q. pooled_batch borrow q cs) k h
        (λ q. pooled_batch-HoldAll borrow q cs law)

-- What JavaScript reads in the value, in the memory as it is once the whole value is made.
abbrev pub Brings :
    {J : Type 0}
    → JsResult (Allocator J)
    → CallbackEvent
    → JsHeap J × JsResult CallbackValue
    → Type 0
Brings borrow e (js, ok v) = value_bytes js.memory v ≡ payload e
Brings borrow e (js, err x) = Fails borrow x

module _ {J : Type 0} (held : J → ℕ → Bool) where
  buffer-Brings :
      (borrow : JsResult (Allocator J)) (e : CallbackEvent) (r : JsHeap J × JsResult JsBuffer)
      → Holds held borrow (payload e) r
      → Brings borrow e (map_ok buffer r)
  buffer-Brings borrow e (js, ok b) h = h.1
  buffer-Brings borrow e (js, err x) h = h

  buffers-Brings :
      (borrow : JsResult (Allocator J)) (chunks : List (List ℕ))
      (r : JsHeap J × JsResult (List JsBuffer))
      → HoldAll held borrow chunks r
      → Brings borrow (read_batch chunks) (map_ok buffers r)
  buffers-Brings borrow chunks (js, ok b) h = h
  buffers-Brings borrow chunks (js, err x) h = h

  -- With an allocator that does not give out memory that is in use, and leaves it as it is, a read
  -- event gives JavaScript its bytes, unchanged and in order, as the memory is once all buffers of
  -- the event are made; or it fails, and only because the allocator cannot be had, or a call of it
  -- throws or gives a buffer of another length, with the error for that.
  pub deliver-Brings :
      (borrow : JsResult (Allocator J)) (js : JsHeap J) (e : CallbackEvent)
      → Lawful held borrow
      → Brings borrow e (deliver borrow js e)
  unfolding deliver pooled_read
  deliver-Brings (err x) js (inline_read bytes len) law = refl
  deliver-Brings (ok allocator) js (inline_read bytes len) law =
      buffer-Brings (ok allocator) (inline_read bytes len) _
        (pooled-Holds held allocator law js (take len bytes) _ refl).1
  deliver-Brings (err x) js (read bytes) law =
      if_cases (Brings (err x) (read bytes)) (leb (length bytes) 1024) _ _ (λ e. refl) (λ e. refl)
  deliver-Brings (ok allocator) js (read bytes) law =
      if_cases (Brings (ok allocator) (read bytes)) (leb (length bytes) 1024) _ _
        (λ e.
          buffer-Brings (ok allocator) (read bytes) _
            (pooled-Holds held allocator law js bytes _ refl).1)
        (λ e. refl)
  deliver-Brings borrow js (read_batch chunks) law =
      buffers-Brings borrow chunks (pooled_batch borrow js chunks)
        (pooled_batch-HoldAll held borrow js chunks law).1
  deliver-Brings borrow js (event e) law = refl
