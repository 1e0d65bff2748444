-- ===== src/Reads/Round.antt =====
-- What one round of the burst of src/reactor.rs does with the bytes and the credit.
use node_serialport_rs.Prelude.{
  ℕ, zero, suc, ◌+◌, ◌-◌, ◌≤◌, ◌<◌, ◌≡◌, refl, sym, ap, ◌∙◌, ◌==◌, not, ◌||◌, List, [], ◌∷◌, ◌++◌,
  length, take, drop, min, append-nil, append_assoc, arith, if_cases, length-append, length-take,
  length-replicate, replicate,
}
use node_serialport_rs.Io.{IoResult, ok, err, ready, is_transient}
use node_serialport_rs.Transfer.Bytes.{moved, Fits}
use node_serialport_rs.Serial.{Serial}
use node_serialport_rs.Serial.Laws.{IsSerial}
use node_serialport_rs.Reactor.{grow}
use node_serialport_rs.Reactor.Window.{charge}
use node_serialport_rs.Reactor.Burst.{
  Observation, Gather, Round, leave, fail, more, keep, judge, try_round, round,
}
use node_serialport_rs.Reads.{gathered, followers, IsStored, store_lem}

module _ {T : Type 0} (received : T → List ℕ) where
  -- `n` reads, whose bytes are gathered behind the others and charged to the window.
  pub record Gathers (n : ℕ) (port : T) (g : Gather) (port' : T) (g' : Gather) : Type 0 where
    pub bytes : List ℕ
    pub from_device : received port' ≡ received port ++ bytes
    pub into_store : gathered g'.first g'.batch ≡ gathered g.first g.batch ++ bytes
    pub charged : g.window.bytes ≡ g'.window.bytes + length bytes
    pub slots_charged : g.window.slots ≡ g'.window.slots + n
    pub counted : followers g'.first g'.batch ≡ followers g.first g.batch + n
    pub stored : IsStored g'.first g'.batch

  pub Gathers-none :
      (port port' : T) (g : Gather) (buffer : List ℕ)
      → IsStored g.first g.batch
      → received port' ≡ received port ++ []
      → Gathers 0 port g port' (record g { read_buffer = buffer })
  Gathers-none port port' g buffer s e = record {
    bytes = [];
    from_device = e;
    into_store = sym (append-nil (gathered g.first g.batch));
    charged = omega arith;
    slots_charged = omega arith;
    counted = omega arith;
    stored = s;
  }

  pub Gathers-then :
      {n m : ℕ} {p p' p'' : T} {g g' g'' : Gather}
      → Gathers n p g p' g'
      → Gathers m p' g' p'' g''
      → Gathers (n + m) p g p'' g''
  Gathers-then {p} {g} a b = record {
    bytes = a.bytes ++ b.bytes;
    from_device =
        b.from_device
        ∙ ap (λ x. x ++ b.bytes) a.from_device
        ∙ append_assoc (received p) a.bytes b.bytes;
    into_store =
        b.into_store
        ∙ ap (λ x. x ++ b.bytes) a.into_store
        ∙ append_assoc (gathered g.first g.batch) a.bytes b.bytes;
    charged = omega (arith, a.charged, b.charged, length-append a.bytes b.bytes);
    slots_charged = omega (arith, a.slots_charged, b.slots_charged);
    counted = omega (arith, a.counted, b.counted);
    stored = b.stored;
  }

  -- A round that ends the loop has read nothing; any other has read once.
  abbrev pub RoundGathers : T → Gather → Round T → Type 0
  RoundGathers port g (leave port' g') = Gathers 0 port g port' g'
  RoundGathers port g (fail port' g' e) = Gathers 0 port g port' g'
  RoundGathers port g (more port' g') = Gathers 1 port g port' g'

grow_fits : (buffer : List ℕ) (n : ℕ) → n ≤ length (grow buffer n)
grow_fits buffer n = ground (
  arith,
  length-append buffer (replicate (n - length buffer) 0),
  length-replicate {A = ℕ} (n - length buffer) 0,
)

-- The front of a buffer is not moved by what follows it.
take_front : (n : ℕ) (xs ys : List ℕ) → n ≤ length xs → take n (xs ++ ys) ≡ take n xs
take_front zero xs ys h = refl
take_front (suc n) [] ys h = absurd (omega arith)
take_front (suc n) (x ∷ xs) ys h = ap (◌∷◌ x) (take_front n xs ys (omega arith))

module _ {T : Type 0} (serial : Serial T) {received sent : T → List ℕ}
    (law : IsSerial serial received sent) where
  unread : (p : T) (g : Gather) → IsStored g.first g.batch → Gathers received 0 p g p g
  unread p g s = Gathers-none received p p g g.read_buffer s (sym (append-nil (received p)))

  keep-Gathers :
      (p p' : T) (g : Gather) (slice rest : List ℕ) (capacity n : ℕ)
      → IsStored g.first g.batch
      → received p' ≡ received p ++ take n slice
      → n ≤ length slice
      → n ≤ g.window.bytes
      → 0 < g.window.slots
      → Gathers received 1 p g p' (keep (record g { read_buffer = slice ++ rest }) capacity n)
  unfolding keep charge
  keep-Gathers p p' g slice rest capacity n s r f b l =
      let e = take_front n slice rest f in
      let q = store_lem g.first g.batch (take n (slice ++ rest)) s in
      record {
        bytes = take n slice;
        from_device = r;
        into_store = q.0 ∙ ap (◌++◌ (gathered g.first g.batch)) e;
        charged = omega (arith, length-take n slice);
        slots_charged = omega arith;
        counted = q.1;
        stored = q.2;
      }

  judge-Gathers :
      (p p' : T) (g : Gather) (slice rest : List ℕ) (capacity : ℕ) (result : IoResult ℕ)
      → IsStored g.first g.batch
      → received p' ≡ received p ++ moved (ready result) slice
      → Fits (ready result) (length slice)
      → length slice ≤ g.window.bytes
      → 0 < g.window.slots
      → RoundGathers received p g
          (judge p' (record g { read_buffer = slice ++ rest }) capacity result)
  judge-Gathers p p' g slice rest capacity (ok n) s r f b l =
      if_cases (RoundGathers received p g) (n == 0) _ _
        (λ h.
          Gathers-none received p p' g (slice ++ rest) s
            (r ∙ ap (λ k. received p ++ take k slice) {x = n} {y = 0} (ground arith)))
        (λ _. keep-Gathers p p' g slice rest capacity n s r f (omega (arith, f, b)) l)
  judge-Gathers p p' g slice rest capacity (err e) s r f b l =
      if_cases (RoundGathers received p g) (is_transient e.kind) _ _
        (λ _. Gathers-none received p p' g (slice ++ rest) s r)
        (λ _. Gathers-none received p p' g (slice ++ rest) s r)

  try_round-Gathers :
      (p : T) (g : Gather)
      → IsStored g.first g.batch
      → 0 < g.window.slots
      → RoundGathers received p g (try_round serial p g)
  unfolding try_round
  try_round-Gathers p g s l =
      let capacity = min g.window.bytes g.window.size in
      let buffer = grow g.read_buffer capacity in
      let slice = take capacity buffer in
      judge-Gathers p _ g _ (drop capacity buffer) capacity _ s (law.try_read_received p slice)
        (rw (law.try_read_length p slice) (law.try_read_fits p slice))
        (omega (arith, law.try_read_length p slice, length-take capacity buffer)) l

  -- What a round reads is gathered in order and charged to the credit.
  pub round-Gathers :
      (seen : Observation) (p : T) (g : Gather)
      → IsStored g.first g.batch
      → RoundGathers received p g (round serial seen p g)
  unfolding round
  round-Gathers seen p g s =
      if_cases (RoundGathers received p g)
        (seen.stopped
          || (not (seen.pending_ops == 0) || (g.window.bytes == 0 || g.window.slots == 0)))
        _ _ (λ _. unread p g s)
        (λ h.
          if_cases (RoundGathers received p g) seen.proceed _ _
            (λ _. try_round-Gathers p g s (ground arith)) (λ _. unread p g s))
