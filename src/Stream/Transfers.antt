-- ===== src/Stream/Transfers.antt =====
-- What the transfers of src/reactor.rs hand the driver.
use node_serialport_rs.Prelude.{
  ℕ, zero, suc, ◌+◌, ◌≤◌, ◌≡◌, refl, sym, ap, ◌∙◌, Option, none, some, List, [], ◌∷◌, ◌++◌, arith,
  take, drop, drop-drop, drop-all, min, take-append-drop, append_assoc,
}
use node_serialport_rs.Io.{IoResult}
use node_serialport_rs.Command.{Operation, write, Command}
use node_serialport_rs.Transfer.Bytes.{size}
use node_serialport_rs.Serial.{Serial}
use node_serialport_rs.Serial.Laws.{IsSerial}
use node_serialport_rs.Control.{Control}
use node_serialport_rs.Reactor.{Links, ReadWindow, grow}
use node_serialport_rs.Reactor.Burst.{
  Round, leave, fail, more, Gather, Observation, round, try_round, collect, resume, gather,
  send_read, finish_burst, send_ready_reads,
}
use node_serialport_rs.Reactor.Turn.{write_slice}
use node_serialport_rs.Ledger.{WithinFront}
use node_serialport_rs.Stream.{bytes_of, backlog, outstanding, sent_of, sent-with_session}

-- What a write of `n` bytes takes from the slice, with what is left, is what there was.
abbrev pub slice_take : ℕ → Option (List ℕ) → List ℕ
slice_take n none = []
slice_take n (some b) = take n b

operation-taken :
    (id : ℕ) (op : Operation) (rest : List Command) (w n : ℕ)
    → n ≤ size (write_slice (record { id = id; operation = op } ∷ rest) w)
    → slice_take n (write_slice (record { id = id; operation = op } ∷ rest) w)
        ++ drop (w + n) (bytes_of op)
      ≡ drop w (bytes_of op)
operation-taken id (write bytes) rest w n h =
    rw (← drop-drop w n bytes) (take-append-drop n (drop w bytes))
operation-taken id _ rest w n h =
    drop-all (w + n) [] (omega arith) ∙ sym (drop-all w [] (omega arith))

module _ {T : Type 0} (serial : Serial T) {received sent : T → List ℕ}
    (law : IsSerial serial received sent) where
  abbrev port_of : Round T → T
  port_of (leave p g) = p
  port_of (fail p g e) = p
  port_of (more p g) = p

  round-sent :
      (seen : Observation) (p : T) (g : Gather) → sent (port_of (round serial seen p g)) ≡ sent p
  unfolding round try_round
  round-sent seen p g =
      let capacity = min g.window.bytes g.window.size in
      ground (arith, law.try_read_sent p (take capacity (grow g.read_buffer capacity)))

  resume-sent :
      (r : Round T) (next : T → Gather → T × (Gather × IoResult (Unit {0}))) (x : List ℕ)
      → sent (port_of r) ≡ x
      → ((p : T) (g : Gather) → sent p ≡ x → sent (next p g).0 ≡ x)
      → sent (resume r next).0 ≡ x
  resume-sent (leave p g) next x h k = h
  resume-sent (fail p g e) next x h k = h
  resume-sent (more p g) next x h k = k p g h

  collect-sent :
      (k : ℕ) (seen : ℕ → Observation) (p : T) (g : Gather)
      → sent (collect serial k seen p g).0 ≡ sent p
  unfolding collect
  collect-sent zero seen p g = refl
  collect-sent (suc k) seen p g =
      resume-sent (round serial (seen k) p g) _ (sent p) (round-sent (seen k) p g)
        (λ p' g' e. collect-sent k seen p' g' ∙ e)

pub front-taken :
    (commands : List Command) (w n : ℕ)
    → WithinFront commands w
    → n ≤ size (write_slice commands w)
    → slice_take n (write_slice commands w) ++ outstanding commands (w + n) ≡ outstanding commands w
front-taken [] w n h k = refl
front-taken (c ∷ rest) w n h k =
    sym (append_assoc (slice_take n (write_slice (c ∷ rest) w)) _ _)
    ∙ ap (λ b. b ++ backlog rest) (operation-taken c.id c.operation rest w n k)

module _ {T C K : Type 0} (links : Links T C K) {received sent : T → List ℕ}
    (law : IsSerial links.serial received sent) where
  sent-gather :
      (c : Control T) (buffer : List ℕ) (w : ReadWindow) (seen : ℕ → Observation)
      → sent_of sent (gather links c buffer w seen).0.session ≡ sent_of sent c.session
  unfolding gather
  sent-gather c buffer w seen =
      sent-with_session sent c _ _ (λ p. collect-sent links.serial law _ seen p _)

  pub sent-burst :
      (c : Control T) (k : K) (buffer : List ℕ) (n : ℕ) (w : ReadWindow) (seen : ℕ → Observation)
      → sent_of sent (send_ready_reads links c k buffer n w seen).control.session
        ≡ sent_of sent c.session
  unfolding send_ready_reads finish_burst
  sent-burst c k buffer n w seen =
      ground (arith, sent-gather c (send_read links k buffer n).1 w seen)
