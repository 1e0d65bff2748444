-- ===== src/Event/Tests.antt =====
-- Runs of the events of src/lib.rs and instances of their theorems.
use node_serialport_rs.Prelude.{ℕ, ◌+◌, ◌≡◌, refl, Bool, List, [], ◌∷◌, arith, ltb}
use node_serialport_rs.Io.{ok}
use node_serialport_rs.Event.{Allocator, JsHeap, deliver, read_event, read_batch}
use node_serialport_rs.Event.Payload.{payload, payload-read_event}
use node_serialport_rs.Event.Memory.{IsAllocator}
use node_serialport_rs.Event.Pool.{Brings, deliver-Brings}

-- Memory is given out in order; the state is the next free address.
abbrev bump : Allocator ℕ
bump js n = (record js { rest = js.rest + n }, ok (record { address = js.rest; length = n }))

abbrev below : ℕ → ℕ → Bool
below next a = ltb a next

bump_lawful : IsAllocator below bump
bump_lawful = record {
  fresh = λ js n h a w. ground arith;
  now_held = λ js n h a w. ground arith;
  still_held = λ js n a h. ground arith;
  untouched = λ js n a h. refl;
}

abbrev heap : JsHeap ℕ
heap = record { memory = λ a. 0; rest = 8 }

abbrev chunks : List (List ℕ)
chunks = (1 ∷ 2 ∷ []) ∷ (3 ∷ []) ∷ []

payload-read_event_example : payload (read_event 64 (5 ∷ 6 ∷ 7 ∷ []) 2).0 ≡ 5 ∷ 6 ∷ []
payload-read_event_example = payload-read_event 64 (5 ∷ 6 ∷ 7 ∷ []) 2 (omega arith)

deliver-Brings_example :
    Brings (ok bump) (read_batch chunks) (deliver (ok bump) heap (read_batch chunks))
deliver-Brings_example = deliver-Brings below (ok bump) heap (read_batch chunks) bump_lawful
