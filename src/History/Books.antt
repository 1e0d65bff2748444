-- ===== src/History/Books.antt =====
-- The books are right in every history of src/lib.rs and src/reactor.rs.
use node_serialport_rs.Prelude.{ℕ, ◌≡◌, refl, Bool, List, [], ◌∷◌, arith}
use node_serialport_rs.Io.{ok}
use node_serialport_rs.Command.{Command}
use node_serialport_rs.Serial.Laws.{IsSerial}
use node_serialport_rs.Control.{IsMpsc}
use node_serialport_rs.Reactor.{Links, System}
use node_serialport_rs.Reactor.Serve
use node_serialport_rs.Reactor.Turn
use node_serialport_rs.Reactor.Task.{
  Task, Choice, Phase, opening, head, serving, selecting, closing, gone, served, selected, finish,
  step_at, step,
}
use node_serialport_rs.Ledger.Serve.{Books, RoundAll, serve-Books}
use node_serialport_rs.Ledger.Select.{TurnAll}
use node_serialport_rs.Ledger.Transfers.{select-Books}
use node_serialport_rs.Ledger.Submit.{
  read_port-PortBooks, read_credit_port-PortBooks, request-PortBooks, close-PortBooks,
}
use node_serialport_rs.Ledger.Write.{write_port-Keeps, write_snapshot-Keeps}
use node_serialport_rs.History.{
  Move, reads, credits, writes, calls_writev, gives, finishes, requests, closes, works, port_of,
  start, act, history, World, finish_frame-All,
}

module _ {T C K : Type 0} (queue : C → List Command) (links : Links T C K)
    {received sent : T → List ℕ} (law : IsSerial links.serial received sent)
    (fifo : IsMpsc links.mpsc queue) where
  abbrev pub TaskBooks : Task T C K → Type 0
  TaskBooks t = Books queue t.system

  served-Books : (r : Serve.Round (System T C K)) → RoundAll (Books queue) r → TaskBooks (served r)
  served-Books (Serve.return s r) h = h
  served-Books (Serve.break s d) h = h
  served-Books (Serve.next s) h = h

  selected-Books :
      (d : Bool) (r : Turn.Turn (System T C K)) → TurnAll (Books queue) r → TaskBooks (selected d r)
  selected-Books d (Turn.return s r) h = h
  selected-Books d (Turn.again s) h = h
  selected-Books d (Turn.parked s) h = h

  step_at-Books :
      (choice : Choice T) (s : System T C K) (phase : Phase)
      → Books queue s
      → TaskBooks (step_at links choice s phase)
  unfolding step_at finish
  step_at-Books choice s opening h = ground arith
  step_at-Books choice s head h = ground arith
  step_at-Books choice s serving h = served-Books _ (serve-Books queue links s choice.lost h)
  step_at-Books choice s (selecting d) h =
      selected-Books d _ (select-Books queue links law fifo s d choice.elapsed choice.seen h)
  step_at-Books choice s (closing r) h = h
  step_at-Books choice s gone h = h

  pub act-Books : (m : Move T) (w : World T C K) → TaskBooks w.task → TaskBooks (act links m w).task
  unfolding act step
  act-Books (reads id n) w h = read_port-PortBooks links.mpsc queue fifo _ _ (port_of w.task) id n h
  act-Books (credits bytes events) w h =
      read_credit_port-PortBooks links.mpsc queue fifo _ _ (port_of w.task) bytes events h
  act-Books (writes id bytes allow contended) w h =
      write_port-Keeps links.mpsc queue fifo _ _ links.serial (port_of w.task) id bytes allow
        contended h
  act-Books (calls_writev id count hint allow) w h = h
  act-Books (gives r) w h = h
  act-Books (finishes contended) w h = finish_frame-All links TaskBooks contended w.frames w h (λ f.
      write_snapshot-Keeps links.mpsc queue fifo _ _ links.serial f.id f.allow_inline contended
        (port_of w.task, ok f.bytes) h)
  act-Books (requests id op value) w h =
      request-PortBooks links.mpsc queue fifo _ _ (port_of w.task) id op value h
  act-Books closes w h = close-PortBooks links.mpsc queue fifo _ _ (port_of w.task) h
  act-Books (works choice) w h = step_at-Books choice w.task.system w.task.phase h

  -- Every move keeps the books.
  pub history-Books :
      (ms : List (Move T)) (w : World T C K)
      → TaskBooks w.task
      → TaskBooks (history links ms w).task
  unfolding history
  history-Books [] w h = h
  history-Books (m ∷ ms) w h = history-Books ms (act links m w) (act-Books m w h)

  start-Books :
      (channel : C) (callback : K) → queue channel ≡ [] → TaskBooks (start channel callback).task
  start-Books channel callback e = record {
    counted = rw e (omega arith);
    bounded = omega arith;
    all_ordered = tt;
    within = refl;
  }

  pub history_keeps_Books :
      (ms : List (Move T)) (channel : C) (callback : K)
      → queue channel ≡ []
      → Books queue (history links ms (start channel callback)).task.system
  history_keeps_Books ms channel callback e =
      history-Books ms (start channel callback) (start-Books channel callback e)
