-- ===== src/Reactor/Select.antt =====
-- src/reactor.rs, `run_open`: one poll of the `select!`, its branches tried in order.
use node_serialport_rs.Prelude.{ℕ, Bool, true, false, ◌&&◌, ◌||◌, if◌then◌else◌, Option, List}
use node_serialport_rs.Io.{IoResult, err, Poll, pending, ready}
use node_serialport_rs.Command.{Command}
use node_serialport_rs.Transfer.{Transfer, TransferPoller, poll}
use node_serialport_rs.Control.{Control, with_session}
use node_serialport_rs.Reactor.{Links, System}
use node_serialport_rs.Reactor.Burst.{Observation}
use node_serialport_rs.Reactor.Receive.{receive}
use node_serialport_rs.Reactor.Deliver.{transferred}
use node_serialport_rs.Reactor.Turn.{
  Turn, again, parked, write_slice, read_length, read_capacity, prepared, slice, unslice, is_some,
}

-- What the poll of the transfer leaves behind.
pub record Moved : Type 0 where
  pub transfers : TransferPoller
  pub wakes : ℕ
  pub front : Option (List ℕ)
  pub result : Poll (IoResult Transfer)

module _ {T C K : Type 0} (links : Links T C K) where
  -- The last branch: the timer of an explicit drain.
  abbrev pub timed : System T C K → Bool → Turn (System T C K)
  timed s true = again s
  timed s false = parked s

  -- The poll of the transfer under the mutex.
  unfoldable pub poll_transfer :
      System T C K → Option (List ℕ) → Option (List ℕ) → Control T × Moved
  poll_transfer s front writing =
      with_session s.control
        (λ port.
          let (transfers, polled) =
            poll links.serial.io s.locals.transfers port s.wakes front writing in
          (
            polled.port,
            record {
              transfers = transfers;
              wakes = polled.wakes;
              front = polled.buffer;
              result = polled.result;
            },
          ))
        (λ e. record {
          transfers = s.locals.transfers;
          wakes = s.wakes;
          front = front;
          result = ready (err e);
        })

  abbrev pub moved_system : System T C K → Option ℕ → List ℕ → Control T × Moved → System T C K
  moved_system s capacity buffer (control, m) = record s {
    control = control;
    wakes = m.wakes;
    locals = record s.locals {
      transfers = m.transfers;
      read_buffer = unslice capacity m.front buffer;
    };
  }

  abbrev pub wanted : System T C K → Option ℕ
  wanted s = read_length s.locals.reading s.locals.window

  abbrev pub capacity_of : System T C K → Option ℕ
  capacity_of s = read_capacity (wanted s) s.locals.window

  abbrev pub writing : System T C K → Option (List ℕ)
  writing s = write_slice s.locals.commands s.locals.written

  -- What follows the poll of the transfer.
  abbrev pub after_poll :
      System T C K
      → Bool
      → Option ℕ
      → Bool
      → (ℕ → Observation)
      → Poll (IoResult Transfer)
      → Turn (System T C K)
  after_poll s is_writing capacity timer seen pending = timed s timer
  after_poll s is_writing capacity timer seen (ready r) =
      transferred links s is_writing capacity r seen

  unfoldable pub transfer_branch : System T C K → Bool → (ℕ → Observation) → Turn (System T C K)
  transfer_branch s timer seen =
      let r = poll_transfer s (slice (capacity_of s) s.locals.read_buffer) (writing s) in
      after_poll (moved_system s (capacity_of s) s.locals.read_buffer r) (is_some (writing s))
        (capacity_of s) timer seen r.1.result

  unfoldable pub io_branches : System T C K → Bool → (ℕ → Observation) → Turn (System T C K)
  io_branches s timer seen =
      if is_some (wanted s) || is_some (writing s)
      then transfer_branch s timer seen
      else timed s timer

  abbrev pub command_branch :
      System T C K → Bool → (ℕ → Observation) → C × Poll (Option Command) → Turn (System T C K)
  command_branch s timer seen (ch, ready m) = receive links (record s { channel = ch }) m
  command_branch s timer seen (ch, pending) = io_branches (record s { channel = ch }) timer seen

  -- The buffer is resized before the `select!`.
  abbrev pub prepare : System T C K → System T C K
  prepare s = record s {
    locals = record s.locals { read_buffer = prepared (capacity_of s) s.locals.read_buffer };
  }

  abbrev pub select_prepared : System T C K → Bool → (ℕ → Observation) → Turn (System T C K)
  select_prepared s timer seen =
      if s.control.changed
      then again (record s { control = record s.control { changed = false } })
      else command_branch s timer seen (links.mpsc.recv s.channel)

  -- `elapsed` says that the drain's timer has run out.
  unfoldable pub select : System T C K → Bool → Bool → (ℕ → Observation) → Turn (System T C K)
  select s draining elapsed seen = select_prepared (prepare s) (draining && elapsed) seen
