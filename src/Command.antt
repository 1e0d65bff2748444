-- ===== src/Command.antt =====
-- src/command.rs: the operations that JavaScript submits to the reactor.
use node_serialport_rs.Prelude.{ℕ, List, Bool, true, false}

-- A `u8` is only moved, so a byte is any number. `flags` and `baud_rate` are `u32`.
pub data Operation : Type 0 where
  read : ℕ → Operation
  read_credit : ℕ → ℕ → Operation
  write : List ℕ → Operation
  update : ℕ → Operation
  set_lines : ℕ → Operation
  get : Operation
  get_baud_rate : Operation
  flush : Operation
  drain : Operation

pub record Command : Type 0 where
  pub id : ℕ
  pub operation : Operation

-- `!matches!(operation, Read(_) | ReadCredit { .. })`
abbrev pub ordered_operation : Operation → Bool
ordered_operation (read length) = false
ordered_operation (read_credit bytes slots) = false
ordered_operation op = true

abbrev pub ordered : Command → Bool
ordered c = ordered_operation c.operation
