-- ===== src/Reactor/Deliver.antt =====
-- src/reactor.rs, `run_open`: the branch of `select!` that takes a completed transfer.
use node_serialport_rs.Prelude.{
  ℕ, ◌+◌, ◌==◌, ltb, if◌then◌else◌, Bool, true, false, not, ◌&&◌, ◌||◌, Option, none, some, List,
  [], take,
}
use node_serialport_rs.Io.{ErrorKind, IoResult, io_error, ok, err}
use node_serialport_rs.Event.{new}
use node_serialport_rs.Transfer.{Transfer}
use node_serialport_rs.Reactor.{Links, System, send}
use node_serialport_rs.Reactor.Window.{next_size, charge}
use node_serialport_rs.Reactor.Burst.{Observation, Burst, disconnected, send_read, send_ready_reads}
use node_serialport_rs.Reactor.Turn.{Turn, return, again, or_zero, sent_or_return}

module _ {T C K : Type 0} (links : Links T C K) where
  -- The state after a burst, and `send_ready_reads(..)?` with what follows.
  abbrev pub after_burst : System T C K → Burst T K → Turn (System T C K)
  after_burst s b =
      let s' = record s {
        control = b.control;
        callback = b.callback;
        locals = record s.locals { read_buffer = b.read_buffer; window = b.window };
      } in
      elim b.result [
        | ok true ↦ again s'
        | ok false ↦ return s' (ok tt)
        | err e ↦ return s' (err e)
      ]

  abbrev pub after_send_read : System T C K → K × List ℕ × Bool → Turn (System T C K)
  after_send_read s (k, buffer, sent) =
      sent_or_return (record s { locals = record s.locals { read_buffer = buffer } }) (k, sent)

  -- A read of `n` bytes in streaming mode.
  unfoldable pub streamed : System T C K → Bool → ℕ → ℕ → (ℕ → Observation) → Turn (System T C K)
  streamed s writing capacity n seen =
      let window = charge s.locals.window capacity n in
      let s' = record s { locals = record s.locals { window = window } } in
      if writing || ((not (n == capacity) && ltb n 1024) || not (s.control.pending_ops == 0))
      then after_send_read s' (send_read links s'.callback s'.locals.read_buffer n)
      else after_burst s'
          (send_ready_reads links s'.control s'.callback s'.locals.read_buffer n window seen)

  -- A read of `n` bytes that answers a single `Read`.
  unfoldable pub single : System T C K → ℕ → ℕ → Option (ℕ × ℕ) → Turn (System T C K)
  single s capacity n none =
      return
        (record s {
          locals = record s.locals {
            window = record s.locals.window { size = next_size s.locals.window.size capacity n };
          };
        })
        (err (io_error ErrorKind.other "Unexpected read completion"))
  single s capacity n (some (id, wanted)) =
      sent_or_return
        (record s {
          locals = record s.locals {
            window = record s.locals.window { size = next_size s.locals.window.size capacity n };
            reading = none;
            read_buffer = [];
          };
        })
        (send links s.callback
          (record (new id "read") { bytes = some (take n s.locals.read_buffer) }))

  -- The `ready` branch: a completed transfer, or an error.
  unfoldable pub transferred :
      System T C K → Bool → Option ℕ → IoResult Transfer → (ℕ → Observation) → Turn (System T C K)
  transferred s writing capacity (err e) seen = return s (err e)
  transferred s writing capacity (ok (Transfer.read n)) seen =
      if n == 0
      then return s (err disconnected)
      else if s.locals.streaming
      then streamed s writing (or_zero capacity) n seen
      else single s (or_zero capacity) n s.locals.reading
  transferred s writing capacity (ok (Transfer.write n)) seen =
      if n == 0
      then return s (err disconnected)
      else again (record s { locals = record s.locals { written = s.locals.written + n } })
