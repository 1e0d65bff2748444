-- ===== src/Ledger.antt =====
-- The books of src/lib.rs and src/reactor.rs: what `pending_ops` and `written` stand for.
pub mod Serve
pub mod Select
pub mod Transfers
pub mod Submit
pub mod Write
use node_serialport_rs.Prelude.{
  ℕ, ◌+◌, ◌≤◌, ◌≡◌, refl, if◌then◌else◌, Bool, true, false, List, [], ◌∷◌, ◌++◌, arith, length,
  length-append,
}
use node_serialport_rs.Command.{Operation, write, Command, ordered}
use node_serialport_rs.Control.{Control, max_pending_ops, fetch_sub_one, fetch_add_one}
use node_serialport_rs.Reactor.{System}

-- How many commands of the list hold a reservation.
abbrev pub ordered_count : List Command → ℕ
ordered_count [] = 0
ordered_count (c ∷ cs) = (if ordered c then 1 else 0) + ordered_count cs

-- Only ordered commands are in the reactor's queue.
abbrev pub AllOrdered : List Command → Type 0
AllOrdered [] = Unit {0}
AllOrdered (c ∷ cs) = (ordered c ≡ true) × AllOrdered cs

-- `written` counts bytes of the write at the front, and is 0 where there is none.
abbrev pub WithinOperation : Operation → ℕ → Type 0
WithinOperation (write bytes) n = n ≤ length bytes
WithinOperation op n = n ≡ 0

abbrev pub WithinFront : List Command → ℕ → Type 0
WithinFront [] n = n ≡ 0
WithinFront (c ∷ cs) n = WithinOperation c.operation n

pub record Ledger (pending : ℕ) (queue commands : List Command) (written : ℕ) : Type 0 where
  pub counted : pending ≡ ordered_count queue + length commands
  pub bounded : pending ≤ max_pending_ops
  pub all_ordered : AllOrdered commands
  pub within : WithinFront commands written

pub ordered_count-append :
    (xs ys : List Command) → ordered_count (xs ++ ys) ≡ ordered_count xs + ordered_count ys
ordered_count-append [] ys = omega arith
ordered_count-append (x ∷ xs) ys = omega (arith, ordered_count-append xs ys)

pub AllOrdered-append :
    (xs : List Command) (c : Command)
    → AllOrdered xs
    → ordered c ≡ true
    → AllOrdered (xs ++ (c ∷ []))
AllOrdered-append [] c h o = (o, tt)
AllOrdered-append (x ∷ xs) c h o = (h.0, AllOrdered-append xs c h.1 o)

WithinOperation-zero : (op : Operation) → WithinOperation op 0
WithinOperation-zero (write bytes) = omega arith
WithinOperation-zero _ = refl

pub WithinFront-zero : (cs : List Command) → WithinFront cs 0
WithinFront-zero [] = refl
WithinFront-zero (c ∷ cs) = WithinOperation-zero c.operation

pub WithinFront-append :
    (xs : List Command) (c : Command) (n : ℕ) → WithinFront xs n → WithinFront (xs ++ (c ∷ [])) n
WithinFront-append [] c n h = rw h (WithinOperation-zero c.operation)
WithinFront-append (x ∷ xs) c n h = h

-- The front command is answered and its reservation given back.
pub Ledger-release :
    {pending : ℕ} {queue : List Command} {c : Command} {rest : List Command} {n : ℕ}
    → Ledger pending queue (c ∷ rest) n
    → Ledger (fetch_sub_one pending) queue rest 0
Ledger-release {rest} l = record {
  counted = omega (arith, l.counted, l.bounded);
  bounded = omega (arith, l.counted, l.bounded);
  all_ordered = l.all_ordered.1;
  within = WithinFront-zero rest;
}

-- A command moves from the channel to the reactor's queue.
pub Ledger-receive :
    {pending : ℕ} {queue commands : List Command} {n : ℕ} (c : Command)
    → ordered c ≡ true
    → Ledger pending (c ∷ queue) commands n
    → Ledger pending queue (commands ++ (c ∷ [])) n
Ledger-receive {commands} {n} c o l = record {
  counted = ground (arith, l.counted, length-append commands (c ∷ []));
  bounded = l.bounded;
  all_ordered = AllOrdered-append commands c l.all_ordered o;
  within = WithinFront-append commands c n l.within;
}

-- A command that holds no reservation leaves the channel.
pub Ledger-receive_unordered :
    {pending : ℕ} {queue commands : List Command} {n : ℕ} (c : Command)
    → ordered c ≡ false
    → Ledger pending (c ∷ queue) commands n
    → Ledger pending queue commands n
Ledger-receive_unordered c o l = record {
  counted = ground (arith, l.counted);
  bounded = l.bounded;
  all_ordered = l.all_ordered;
  within = l.within;
}
