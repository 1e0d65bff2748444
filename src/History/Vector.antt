-- ===== src/History/Vector.antt =====
-- A `writev` of src/lib.rs whose parts follow each other.
use node_serialport_rs.Prelude.{ℕ, Bool, Option, List, [], ◌∷◌, ◌++◌, map}
use node_serialport_rs.Event.{JsResult}
use node_serialport_rs.Port.Write.{Element}
use node_serialport_rs.Reactor.{Links}
use node_serialport_rs.Reactor.Task.{Task}
use node_serialport_rs.History.{Move, gives, finishes, Frame, World}

module _ {T C : Type 0} where
  -- An element that gives this, the reading of which runs no other JavaScript.
  abbrev pub giving : JsResult (Option (List ℕ)) → Element T C
  giving r p = (p, r)

module _ {T C K : Type 0} (links : Links T C K) (contended : Bool) where
  -- No `writev` is in progress.
  abbrev pub quiet : Task T C K → World T C K
  quiet t = record { task = t; frames = [] }

  abbrev pub remaining_moves : List (JsResult (Option (List ℕ))) → List (Move T)
  remaining_moves rs = map gives rs ++ (finishes contended ∷ [])

  abbrev frame : ℕ → List ℕ → ℕ → Bool → Frame
  frame id bytes n allow = record { id = id; bytes = bytes; remaining = n; allow_inline = allow }
