-- ===== src/Reactor/Turn.antt =====
-- src/reactor.rs, `run_open`: the variables that each turn of the outer loop computes before its
-- `select!`, and how a poll of that `select!` ends.
use node_serialport_rs.Prelude.{
  ℕ, ltb, if◌then◌else◌, Bool, true, false, ◌&&◌, Option, none, some, List, [], ◌∷◌, ◌++◌, take,
  drop, min,
}
use node_serialport_rs.Io.{IoResult, ok}
use node_serialport_rs.Command.{write, Command}
use node_serialport_rs.Reactor.{ReadWindow, System, grow}

-- How a poll of the `select!` ends: `run_open` returns, its outer loop goes round, or the task
-- waits and the same `select!` is polled again.
pub data Turn (S : Type 0) : Type 0 where
  return : S → IoResult (Unit {0}) → Turn S
  again : S → Turn S
  parked : S → Turn S

-- The variable `write`, from the front of the queue.
abbrev pub write_slice : List Command → ℕ → Option (List ℕ)
write_slice [] written = none
write_slice (c ∷ rest) written = elim c.operation [
  | write bytes ↦ some (drop written bytes)
  | _ ↦ none
]

-- The variable `read_length`.
abbrev pub read_length : Option (ℕ × ℕ) → ReadWindow → Option ℕ
read_length (some (id, wanted)) window = some wanted
read_length none window =
    if ltb 0 window.bytes && ltb 0 window.slots then some window.bytes else none

-- `read_capacity`
abbrev pub read_capacity : Option ℕ → ReadWindow → Option ℕ
read_capacity none window = none
read_capacity (some wanted) window = some (min wanted window.size)

abbrev pub prepared : Option ℕ → List ℕ → List ℕ
prepared none buffer = buffer
prepared (some capacity) buffer = grow buffer capacity

-- `&mut read_buffer[..length]`, and the whole buffer after the slice was written to.
abbrev pub slice : Option ℕ → List ℕ → Option (List ℕ)
slice none buffer = none
slice (some capacity) buffer = some (take capacity buffer)

abbrev pub unslice : Option ℕ → Option (List ℕ) → List ℕ → List ℕ
unslice (some capacity) (some front) buffer = front ++ drop capacity buffer
unslice capacity front buffer = buffer

abbrev pub or_zero : Option ℕ → ℕ
or_zero none = 0
or_zero (some n) = n

abbrev pub is_some : {A : Type 0} → Option A → Bool
is_some none = false
is_some (some a) = true

module _ {T C K : Type 0} where
  -- After a send: `if !sent { return Ok(()) }`
  abbrev pub sent_or_return : System T C K → K × Bool → Turn (System T C K)
  sent_or_return s (k, true) = again (record s { callback = k })
  sent_or_return s (k, false) = return (record s { callback = k }) (ok tt)
