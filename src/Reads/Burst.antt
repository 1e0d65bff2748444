-- ===== src/Reads/Burst.antt =====
-- The burst of src/reactor.rs delivers what it reads, before it reports an error.
use node_serialport_rs.Prelude.{
  ℕ, zero, suc, ◌+◌, ◌≤◌, ◌<◌, ◌≡◌, ◌≢◌, refl, sym, ap, ◌∙◌, Bool, true, false, Option, none, some,
  List, [], ◌∷◌, ◌++◌, length, take, append-nil, append_assoc, arith, if_cases, ◌==◌, ◌||◌,
  if◌then◌else◌,
}
use node_serialport_rs.Io.{IoResult, ok, err}
use node_serialport_rs.Event.{CallbackEvent, read, read_batch, read_event}
use node_serialport_rs.Event.Payload.{flatten, payload, payload-read_event}
use node_serialport_rs.Serial.{Serial}
use node_serialport_rs.Serial.Laws.{IsSerial}
use node_serialport_rs.Control.{Control, IsSink, locked}
use node_serialport_rs.Reactor.{ReadWindow, Links}
use node_serialport_rs.Reactor.Burst.{
  read_burst_limit, Observation, Gather, Round, leave, fail, more, resume, round, collect,
  send_read, publish, report, gather, Burst, finished, finish_burst, send_ready_reads,
}
use node_serialport_rs.Stream.{sent_of}
use node_serialport_rs.Reads.{
  gathered, IsStored, read_bytes, delivered_bytes, delivered_bytes-append, chunks_of,
  delivered_chunks, gathered_chunks, flatten-gathered_chunks, length-gathered_chunks,
  delivered_chunks-append,
}
use node_serialport_rs.Reads.Round.{
  Gathers, Gathers-none, Gathers-then, RoundGathers, round-Gathers,
}

module _ {T : Type 0} (serial : Serial T) {received sent : T → List ℕ}
    (law : IsSerial serial received sent) where
  -- What the loop has gathered after at most `k` more rounds.
  abbrev Collects : ℕ → T → Gather → T × (Gather × IoResult (Unit {0})) → Type 0
  Collects k port g r = (n : ℕ) × (n ≤ k) × Gathers received n port g r.0 r.1.0

  resume-Collects :
      (k : ℕ) (port : T) (g : Gather) (r : Round T)
      (next : T → Gather → T × (Gather × IoResult (Unit {0})))
      → RoundGathers received port g r
      → ((port' : T) (g' : Gather)
          → IsStored g'.first g'.batch
          → Collects k port' g' (next port' g'))
      → Collects (suc k) port g (resume r next)
  resume-Collects k port g (leave p' g') next h rest = (0, omega arith, h)
  resume-Collects k port g (fail p' g' e) next h rest = (0, omega arith, h)
  resume-Collects k port g (more p' g') next h rest =
      let (n, l, c) = rest p' g' h.stored in (1 + n, omega (arith, l), Gathers-then received h c)

  collect-Collects :
      (k : ℕ) (seen : ℕ → Observation) (port : T) (g : Gather)
      → IsStored g.first g.batch
      → Collects k port g (collect serial k seen port g)
  unfolding collect
  collect-Collects zero seen port g s = (
    0,
    omega arith,
    Gathers-none received port port g g.read_buffer s (sym (append-nil (received port))),
  )
  collect-Collects (suc k) seen port g s =
      resume-Collects k port g (round serial (seen k) port g) _
        (round-Gathers serial law (seen k) port g s)
        (λ port' g' s'. collect-Collects k seen port' g' s')

payload-plain :
    (bits : ℕ) (buffer : List ℕ) (n : ℕ)
    → read_bytes (read_event bits buffer n).0 ≡ payload (read_event bits buffer n).0
unfolding read_event
payload-plain bits buffer n = ground arith

read_bytes-read_event :
    (bits : ℕ) (buffer : List ℕ) (n : ℕ)
    → n ≤ length buffer
    → read_bytes (read_event bits buffer n).0 ≡ take n buffer
read_bytes-read_event bits buffer n h =
    payload-plain bits buffer n ∙ payload-read_event bits buffer n h

chunks-plain :
    (bits : ℕ) (buffer : List ℕ) (n : ℕ)
    → chunks_of (read_event bits buffer n).0 ≡ payload (read_event bits buffer n).0 ∷ []
unfolding read_event
chunks-plain bits buffer n = ground arith

chunks-read_event :
    (bits : ℕ) (buffer : List ℕ) (n : ℕ)
    → n ≤ length buffer
    → chunks_of (read_event bits buffer n).0 ≡ take n buffer ∷ []
chunks-read_event bits buffer n h =
    chunks-plain bits buffer n ∙ ap (λ b. b ∷ []) (payload-read_event bits buffer n h)

module _ {T C K : Type 0} (links : Links T C K) {received sent : T → List ℕ}
    (law : IsSerial links.serial received sent) where
  -- The same of the port in the mutex, which there may be none of.
  abbrev GathersHeld : Option T → Gather → Control T × (Gather × IoResult (Unit {0})) → Type 0
  GathersHeld o g r =
      (n : ℕ) × (n < read_burst_limit) × Gathers (sent_of received) n o g r.0.session r.1.0

  held-GathersHeld :
      (c : Control T) (p : Bool) (o : Option T) (g : Gather) (seen : ℕ → Observation)
      → IsStored g.first g.batch
      → o ≡ c.session
      → GathersHeld o g
          (locked c p o (λ port. collect links.serial 15 seen port g) (λ e. (g, err e)))
  held-GathersHeld c true o g seen s e = (
    0,
    omega arith,
    Gathers-none (sent_of received) o c.session g g.read_buffer s
        (ap (sent_of received) (sym e) ∙ sym (append-nil (sent_of received o))),
  )
  held-GathersHeld c false none g seen s e = (
    0,
    omega arith,
    Gathers-none (sent_of received) none c.session g g.read_buffer s
        (ap (sent_of received) (sym e)),
  )
  held-GathersHeld c false (some port) g seen s e =
      let (n, l, h) = collect-Collects links.serial law 15 seen port g s in
      (
        n,
        omega (arith, l),
        record {
          bytes = h.bytes;
          from_device = h.from_device;
          into_store = h.into_store;
          charged = h.charged;
          slots_charged = h.slots_charged;
          counted = h.counted;
          stored = h.stored;
        },
      )

  module _ (delivered : K → List CallbackEvent) (sink : IsSink links.sink delivered) where
    abbrev told : K → List ℕ
    told k = delivered_bytes (delivered k)

    accepted :
        (k : K) (e : CallbackEvent)
        → (links.sink.call k e).1 ≡ true
        → told (links.sink.call k e).0 ≡ told k ++ read_bytes e
    accepted k e h =
        ap delivered_bytes
          (sink.call_delivered k e ∙ ap (λ b. if b then delivered k ++ (e ∷ []) else delivered k) h)
        ∙ delivered_bytes-append (delivered k) e

    abbrev pub chunks_told : K → List (List ℕ)
    chunks_told k = delivered_chunks (delivered k)

    accepted_chunks :
        (k : K) (e : CallbackEvent)
        → (links.sink.call k e).1 ≡ true
        → chunks_told (links.sink.call k e).0 ≡ chunks_told k ++ chunks_of e
    accepted_chunks k e h =
        ap delivered_chunks
          (sink.call_delivered k e ∙ ap (λ b. if b then delivered k ++ (e ∷ []) else delivered k) h)
        ∙ delivered_chunks-append (delivered k) e

    publish-chunks :
        (k : K) (first : Option (List ℕ)) (batch : List (List ℕ))
        → IsStored first batch
        → (publish links k first batch).1 ≡ true
        → chunks_told (publish links k first batch).0 ≡ chunks_told k ++ gathered_chunks first batch
    publish-chunks k (some bytes) batch s h = accepted_chunks k (read bytes) h ∙ rw s refl
    publish-chunks k none [] s h = sym (append-nil (chunks_told k))
    publish-chunks k none (x ∷ batch) s h = accepted_chunks k (read_batch (x ∷ batch)) h

    publish-told :
        (k : K) (first : Option (List ℕ)) (batch : List (List ℕ))
        → IsStored first batch
        → (publish links k first batch).1 ≡ true
        → told (publish links k first batch).0 ≡ told k ++ gathered first batch
    publish-told k (some bytes) batch s h =
        accepted k (read bytes) h ∙ ap (◌++◌ (told k)) (rw s (sym (append-nil bytes)))
    publish-told k none [] s h = sym (append-nil (told k))
    publish-told k none (x ∷ batch) s h = accepted k (read_batch (x ∷ batch)) h

    -- What a burst has done: the chunks of `follow` were read one by one, each charged one slot and
    -- its bytes to the window, and the first chunk and then these were delivered.
    pub record Bursts (c : Control T) (k : K) (w : ReadWindow) (first : List ℕ) (b : Burst T K)
        : Type 0 where
      pub follow : List (List ℕ)
      pub from_device :
          sent_of received b.control.session ≡ sent_of received c.session ++ flatten follow
      pub into_callback : told b.callback ≡ told k ++ (first ++ flatten follow)
      pub as_chunks : chunks_told b.callback ≡ chunks_told k ++ (first ∷ follow)
      pub charged : w.bytes ≡ b.window.bytes + length (flatten follow)
      pub slots_charged : w.slots ≡ b.window.slots + length follow
      pub few : length follow < read_burst_limit

    abbrev BurstsIf : Control T → K → ReadWindow → List ℕ → Burst T K → Type 0
    BurstsIf c k w first b = b.result ≢ ok false → Bursts c k w first b

    report-sent : (s : Bool) (r : IoResult (Unit {0})) → report links s r ≢ ok false → s ≡ true
    report-sent true r h = refl
    report-sent false r h = absurd (h refl)

    finish-Bursts :
        (c : Control T) (k k' : K) (w : ReadWindow) (first buffer : List ℕ)
        (r : Control T × (Gather × IoResult (Unit {0})))
        → told k' ≡ told k ++ first
        → chunks_told k' ≡ chunks_told k ++ (first ∷ [])
        → GathersHeld c.session
            (record { read_buffer = buffer; window = w; first = none; batch = [] })
            r
        → BurstsIf c k w first (finish_burst links r k')
    unfolding finish_burst
    finish-Bursts c k k' w first buffer (c', (g, result)) t u (n, l, h) a =
        let follow = gathered_chunks g.first g.batch in
        let sent = report-sent (publish links k' g.first g.batch).1 result a in
        let same : flatten follow ≡ h.bytes =
          flatten-gathered_chunks g.first g.batch ∙ h.into_store in
        let count : length follow ≡ n =
          omega (arith, length-gathered_chunks g.first g.batch, h.counted) in
        record {
          follow = follow;
          from_device = h.from_device ∙ ap (◌++◌ (sent_of received c.session)) (sym same);
          into_callback =
              publish-told k' g.first g.batch h.stored sent
              ∙ ap (λ x. x ++ gathered g.first g.batch) t
              ∙ append_assoc (told k) first (gathered g.first g.batch)
              ∙ ap (λ x. told k ++ (first ++ x)) (sym (flatten-gathered_chunks g.first g.batch));
          as_chunks =
              publish-chunks k' g.first g.batch h.stored sent
              ∙ ap (λ x. x ++ follow) u
              ∙ append_assoc (chunks_told k) (first ∷ []) follow;
          charged = h.charged ∙ ap (λ x. g.window.bytes + length x) (sym same);
          slots_charged = omega (arith, h.slots_charged, count);
          few = omega (arith, l, count);
        }

    untouched-Bursts :
        (c : Control T) (k k' : K) (w : ReadWindow) (first buffer : List ℕ)
        → told k' ≡ told k ++ first
        → chunks_told k' ≡ chunks_told k ++ (first ∷ [])
        → Bursts c k w first (finished c k' buffer w (ok true))
    untouched-Bursts c k k' w first buffer t u = record {
      follow = [];
      from_device = sym (append-nil (sent_of received c.session));
      into_callback = t ∙ ap (◌++◌ (told k)) (sym (append-nil first));
      as_chunks = u;
      charged = omega arith;
      slots_charged = omega arith;
      few = omega arith;
    }

    -- For a read that fits the buffer, and unless the callback's queue refuses an event, a burst
    -- gives JavaScript the first chunk and behind it, chunk by chunk, all bytes that it took from the
    -- device, in order, also where it ends in an error; these further chunks are at most 15, and the
    -- window is charged one slot for each of them, and their bytes.
    pub send_ready_reads-Bursts :
        (c : Control T) (k : K) (buffer : List ℕ) (n : ℕ) (w : ReadWindow) (seen : ℕ → Observation)
        → n ≤ length buffer
        → (send_ready_reads links c k buffer n w seen).result ≢ ok false
        → Bursts c k w (take n buffer) (send_ready_reads links c k buffer n w seen)
    unfolding send_ready_reads gather send_read
    send_ready_reads-Bursts c k buffer n w seen h =
        let e = read_event links.bits buffer n in
        if_cases (BurstsIf c k w (take n buffer)) (links.sink.call k e.0).1 _ _
          (λ s.
            let t =
              accepted k e.0 s ∙ ap (◌++◌ (told k)) (read_bytes-read_event links.bits buffer n h) in
            let u =
              accepted_chunks k e.0 s
              ∙ ap (◌++◌ (chunks_told k)) (chunks-read_event links.bits buffer n h) in
            if_cases (BurstsIf c k w (take n buffer)) (w.bytes == 0 || w.slots == 0) _ _
              (λ _ _. untouched-Bursts c k (links.sink.call k e.0).0 w (take n buffer) e.1 t u)
              (λ _.
                finish-Bursts c k (links.sink.call k e.0).0 w (take n buffer) e.1
                  (gather links c e.1 w seen) t u
                  (held-GathersHeld c c.poisoned c.session
                    (record { read_buffer = e.1; window = w; first = none; batch = [] }) seen tt
                    refl)))
          (λ _ a. absurd (a refl))
