-- ===== src/History/Tests.antt =====
-- A run of the whole of src/lib.rs and src/reactor.rs, and instances of the theorems on histories.
use node_serialport_rs.Prelude.{ℕ, ◌≡◌, refl, List, [], ◌∷◌, ◌++◌, none, some, true, false}
use node_serialport_rs.Io.{ok}
use node_serialport_rs.Transfer.{poll}
use node_serialport_rs.Port.{enqueue, close}
use node_serialport_rs.Control.{stop}
use node_serialport_rs.Port.Write.{
  write_port, write_snapshot, attempt_write, enqueue_rest, inline_write,
}
use node_serialport_rs.Reactor.Serve.{serve, serve_front}
use node_serialport_rs.Reactor.Select.{select, io_branches, transfer_branch, poll_transfer}
use node_serialport_rs.Reactor.Receive.{receive, receive_operation, push_back}
use node_serialport_rs.Wire.{Wire}
use node_serialport_rs.Wire.Device.{wire_serial_lawful}
use node_serialport_rs.Wire.Desk.{Queue, as_queue, Received, desk, list_mpsc_lawful}
use node_serialport_rs.Reactor.Task.{finish, Choice, step, step_at}
use node_serialport_rs.Ledger.Serve.{Books}
use node_serialport_rs.History.{
  closes, Move, writes, calls_writev, gives, finishes, works, start, act, history, World,
}
use node_serialport_rs.History.Frames.{FramesFit, history_keeps_FramesFit}
use node_serialport_rs.History.Books.{history_keeps_Books}
use node_serialport_rs.History.Refused.{IsClosed}
use node_serialport_rs.History.Close.{Stays, history_gone}
use node_serialport_rs.History.Stream.{task_stream, Added, history_stream}

abbrev device : Wire
device = record { input = 65 ∷ []; taken = []; output = [] }

abbrev ticks : Choice Wire
ticks = record {
  opened = ok (ok device);
  lost = none;
  elapsed = false;
  seen = λ k. record { stopped = false; pending_ops = 0; proceed = true };
}

-- A write of two bytes, one of them inline, and the steps that send the other.
abbrev two_bytes : List (Move Wire)
two_bytes = writes 1 (7 ∷ 8 ∷ []) true false ∷ works ticks ∷ works ticks ∷ works ticks ∷ []

-- A `writev` of two elements, the second of which writes to the port when it is read.
abbrev two_elements : List (Move Wire)
two_elements =
    calls_writev 2 2 none (some true)
    ∷ gives (ok (some (1 ∷ [])))
    ∷ writes 3 (9 ∷ []) true false
    ∷ gives (ok (some (2 ∷ [])))
    ∷ finishes false
    ∷ []

abbrev opened : World Wire Queue Received
opened = history desk (works ticks ∷ []) (start [] [])

-- Its bytes come behind the byte that was written meanwhile; the driver takes one of them at once.
nested_output :
    task_stream as_queue desk wire_serial_lawful list_mpsc_lawful
      (history desk two_elements opened).task
    ≡ 9 ∷ 1 ∷ 2 ∷ []
unfolding history act step step_at write_port write_snapshot attempt_write enqueue_rest inline_write
    enqueue
nested_output = refl

opened-Books : Books as_queue opened.task.system
opened-Books =
    history_keeps_Books as_queue desk wire_serial_lawful list_mpsc_lawful (works ticks ∷ []) [] []
      refl

history_stream_example :
    (b : List ℕ) × Added as_queue desk wire_serial_lawful list_mpsc_lawful
      (two_elements ++ two_bytes)
      opened
      b
    × (task_stream as_queue desk wire_serial_lawful list_mpsc_lawful
          (history desk (two_elements ++ two_bytes) opened).task
        ≡ task_stream as_queue desk wire_serial_lawful list_mpsc_lawful opened.task ++ b)
unfolding history act step step_at serve serve_front select io_branches transfer_branch
    poll_transfer poll write_port write_snapshot attempt_write enqueue_rest inline_write enqueue
    receive receive_operation push_back
history_stream_example =
    history_stream as_queue desk wire_serial_lawful list_mpsc_lawful (two_elements ++ two_bytes)
      opened tt opened-Books tt

-- The port is opened and closed, and the task steps until it is gone.
abbrev to_the_end : List (Move Wire)
to_the_end = works ticks ∷ closes ∷ works ticks ∷ works ticks ∷ []

abbrev ended : World Wire Queue Received
ended = history desk to_the_end (start [] [])

history_gone_example :
    IsClosed ended.task.system.control
    × Stays desk ended.task
        (history desk (writes 1 (7 ∷ []) true false ∷ works ticks ∷ []) ended).task
unfolding history act step step_at finish close stop
history_gone_example =
    history_gone desk to_the_end (writes 1 (7 ∷ []) true false ∷ works ticks ∷ []) [] [] refl

-- The second `writev` begins while the first reads its second element.
abbrev two_calls : List (Move Wire)
two_calls =
    works ticks
    ∷ calls_writev 2 2 none none
    ∷ gives (ok (some (1 ∷ [])))
    ∷ calls_writev 3 1 none none
    ∷ gives (ok (some (4 ∷ 5 ∷ [])))
    ∷ []

history_keeps_FramesFit_example : FramesFit (history desk two_calls (start [] [])).frames
history_keeps_FramesFit_example = history_keeps_FramesFit desk two_calls [] []
