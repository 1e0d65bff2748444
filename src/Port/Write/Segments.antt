-- ===== src/Port/Write/Segments.antt =====
-- `writev` of src/lib.rs against `write`.
use node_serialport_rs.Prelude.{
  ℕ, ◌+◌, ◌-◌, ◌≤◌, ◌≡◌, refl, Option, some, Bool, true, false, List, [], ◌∷◌, ◌++◌, map, length,
  leb, arith, ap, sym, ◌∙◌, if◌then◌else◌, length-append, append_assoc, append-nil,
}
use node_serialport_rs.Io.{ok}
use node_serialport_rs.Serial.{Serial}
use node_serialport_rs.Control.{Mpsc, chunk_size}
use node_serialport_rs.Event.Payload.{flatten}
use node_serialport_rs.Port.{NativePort}
use node_serialport_rs.Port.Write.{
  Element, with_capacity, snapshot, write_snapshot, write_port, writev_port,
}

tested_twice {ℓ} :
    {A : Type ℓ} (b : Bool) (x y : A) → (if b then x else if b then x else y) ≡ (if b then x else y)
tested_twice true x y = refl
tested_twice false x y = refl

le_leb : (a b : ℕ) → a ≤ b → leb a b ≡ true
le_leb a b h = ground arith

module _ {T C : Type 0} where
  -- An element that is a buffer, the reading of which runs no other JavaScript.
  abbrev pub plain : List ℕ → Element T C
  plain bytes p = (p, ok (some bytes))

  snapshot-plain :
      (p : NativePort T C) (bytes : List ℕ) (bs : List (List ℕ))
      → length bytes + length (flatten bs) ≤ chunk_size
      → snapshot p bytes (map plain bs) ≡ (p, ok (bytes ++ flatten bs))
  unfolding snapshot
  snapshot-plain p bytes [] h = ap (λ x. (p, ok x)) (sym (append-nil bytes))
  snapshot-plain p bytes (b ∷ bs) h =
      rw
        (le_leb (length b) (chunk_size - length bytes)
          (omega (arith, h, length-append b (flatten bs))))
        (snapshot-plain p (bytes ++ b) bs
            (omega (arith, h, length-append b (flatten bs), length-append bytes b))
          ∙ ap (λ x. (p, ok x)) (append_assoc bytes b (flatten bs)))

pub length-map {ℓ κ} :
    {A : Type ℓ} {B : Type κ} (f : A → B) (xs : List A) → length (map f xs) ≡ length xs
length-map f [] = refl
length-map f (x ∷ xs) = omega (arith, length-map f xs)

module _ {T C : Type 0} (serial : Serial T) (mpsc : Mpsc C) where
  -- Over at most 1024 buffers with at most a chunk of bytes, and a hint of at most a chunk,
  -- `writev` does what `write` does with the concatenation: the same state, the same result.
  pub writev-write :
      (p : NativePort T C) (id : ℕ) (bs : List (List ℕ)) (hint : Option ℕ) (allow contended : Bool)
      → with_capacity hint ≤ chunk_size
      → length bs ≤ 1024
      → length (flatten bs) ≤ chunk_size
      → writev_port serial mpsc p id (map plain bs) hint (some allow) contended
        ≡ write_port serial mpsc p id (flatten bs) allow contended
  unfolding writev_port write_snapshot write_port
  writev-write p id bs hint allow contended c n l =
      rw
        (
          le_leb (with_capacity hint) chunk_size c,
          length-map (plain {T = T} {C = C}) bs,
          le_leb (length bs) 1024 n,
          le_leb (length (flatten bs)) chunk_size l,
          snapshot-plain p [] bs (omega (arith, l)),
        )
        (tested_twice p.control.stopped _ _)
