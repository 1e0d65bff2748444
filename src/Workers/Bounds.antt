-- ===== src/Workers/Bounds.antt =====
-- The pool of src/workers.rs never holds more live workers than its limit, so that the array of
-- four slots is never indexed beyond its end.
use node_serialport_rs.Prelude.{
  ℕ, ◌+◌, ◌≤◌, ◌<◌, ◌≡◌, refl, ◌==◌, ltb, if◌then◌else◌, true, false, Option, none, some, List, [],
  ◌∷◌, ◌++◌, map, length, arith, Bool-cases, inl, inr,
}
use node_serialport_rs.Io.{IoResult, ok, err}
use node_serialport_rs.Workers.{
  Acquired, panicked, Worker, Pool, empty_pool, max_workers, limit_of, upgraded, least_busy,
  reusable, kept, leased, grant, select_worker, acquire, uncounted, unheld, drop_count, drop_handle,
  Use, acquires, drops_count, drops_handle, used, uses,
}

-- How many workers of the list can be upgraded.
abbrev pub live : List Worker → ℕ
live [] = 0
live (w ∷ ws) = let rest = live ws in if w.strong == 0 then rest else 1 + rest

live_le_length : (ws : List Worker) → live ws ≤ length ws
live_le_length [] = omega arith
live_le_length (w ∷ ws) = ground (arith, live_le_length ws)

live-append : (xs ys : List Worker) → live (xs ++ ys) ≡ live xs + live ys
live-append [] ys = omega arith
live-append (x ∷ xs) ys = ground (arith, live-append xs ys)

length-map : (f : Worker → Worker) (ws : List Worker) → length (map f ws) ≡ length ws
length-map f [] = refl
length-map f (w ∷ ws) = omega (arith, length-map f ws)

lt_ltb : (a b : ℕ) → a < b → ltb a b ≡ true
lt_ltb a b h = ground arith

-- All live workers fit: the array is indexed within its bounds, and holds all of them.
Upgraded : ℕ → Option (List Worker) → Type 0
Upgraded n none = ⊥
Upgraded n (some active) = length active ≡ n

kept-Upgraded :
    (w : Worker) (n : ℕ) (r : Option (List Worker)) → Upgraded n r → Upgraded (1 + n) (kept w r)
unfolding Upgraded
kept-Upgraded w n none h = h
kept-Upgraded w n (some ws) h = omega arith

upgraded_all :
    (ws : List Worker) (count : ℕ)
    → count + live ws ≤ max_workers
    → Upgraded (live ws) (upgraded count ws)
unfolding Upgraded upgraded
upgraded_all [] count h = refl
upgraded_all (w ∷ ws) count h = elim (Bool-cases (w.strong == 0)) [
  | inl e ↦ rw e (upgraded_all ws count (ground (arith, h)))
  | inr e ↦
      rw (e, lt_ltb count max_workers (ground (arith, h, e)))
        (kept-Upgraded w (live ws) (upgraded (count + 1) ws)
          (upgraded_all ws (count + 1) (ground (arith, h, e))))
]

abbrev pub IsDone : Acquired → Type 0
IsDone panicked = ⊥
IsDone a = Unit {0}

-- The pool is within its limit and its mutex is not poisoned.
pub record IsWithin (limit : ℕ) (p : Pool) : Type 0 where
  pub sound : p.poisoned ≡ false
  pub bounded : live p.workers ≤ limit

module _ (limit : ℕ) where
  abbrev Good : Pool × Acquired → Type 0
  Good r = IsWithin limit r.0 × IsDone r.1

  grant-Good :
      (active : List Worker) (started : IoResult ℕ) (r : Option Worker)
      → length active ≤ limit
      → (r ≡ none → length active < limit)
      → Good (grant active started r)
  grant-Good active started (some w) h k = (
    record {
      sound = refl;
      bounded =
          omega
            (arith, h, live_le_length (map (leased w.id) active), length-map (leased w.id) active);
    },
    tt,
  )
  grant-Good active (err e) none h k =
      (record { sound = refl; bounded = omega (arith, h, live_le_length active) }, tt)
  grant-Good active (ok id) none h k = (
    record {
      sound = refl;
      bounded = omega (
        arith,
        k refl,
        live_le_length active,
        live-append active (record { id = id; ports = 1; strong = 1 } ∷ []),
      );
    },
    tt,
  )

  none-reusable :
      (active : List Worker) (o : Option Worker)
      → 0 < limit
      → (o ≡ none → length active ≡ 0)
      → reusable limit active o ≡ none
      → length active < limit
  none-reusable active none h k e = ground (arith, k refl)
  none-reusable active (some w) h k e = ground arith

  least_busy-none : (active : List Worker) → least_busy active ≡ none → length active ≡ 0
  least_busy-none [] e = refl
  least_busy-none (w ∷ ws) e = cc

  select-Good :
      (p : Pool) (started : IoResult ℕ) (r : Option (List Worker))
      → 0 < limit
      → live p.workers ≤ limit
      → Upgraded (live p.workers) r
      → Good (select_worker limit p started r)
  unfolding Upgraded
  select-Good p started none l h u = absurd u
  select-Good p started (some active) l h u =
      grant-Good active started (reusable limit active (least_busy active)) (omega arith)
        (none-reusable active (least_busy active) l (least_busy-none active))

  acquire-Good :
      (started : IoResult ℕ) (p : Pool)
      → 0 < limit
      → limit ≤ max_workers
      → IsWithin limit p
      → Good (acquire limit started p)
  unfolding acquire
  acquire-Good started p l m w = rw w.sound (
      select-Good p started (upgraded 0 p.workers) l w.bounded
        (upgraded_all p.workers 0 (omega (arith, w.bounded, m))))

live-uncounted : (id : ℕ) (ws : List Worker) → live (map (uncounted id) ws) ≡ live ws
live-uncounted id [] = refl
live-uncounted id (w ∷ ws) = ground (arith, live-uncounted id ws)

live-unheld : (id : ℕ) (ws : List Worker) → live (map (unheld id) ws) ≤ live ws
live-unheld id [] = omega arith
live-unheld id (w ∷ ws) = ground (arith, live-unheld id ws)

used-IsWithin :
    (limit : ℕ) (u : Use) (p : Pool)
    → 0 < limit
    → limit ≤ max_workers
    → IsWithin limit p
    → IsWithin limit (used limit u p)
unfolding used drop_count drop_handle
used-IsWithin limit (acquires started) p l m w = (acquire-Good limit started p l m w).0
used-IsWithin limit (drops_count id) p l m w = record {
  sound = w.sound;
  bounded = omega (arith, w.bounded, live-uncounted id p.workers);
}
used-IsWithin limit (drops_handle id) p l m w = record {
  sound = w.sound;
  bounded = omega (arith, w.bounded, live-unheld id p.workers);
}

uses-IsWithin :
    (limit : ℕ) (us : List Use) (p : Pool)
    → 0 < limit
    → limit ≤ max_workers
    → IsWithin limit p
    → IsWithin limit (uses limit us p)
unfolding uses
uses-IsWithin limit [] p l m w = w
uses-IsWithin limit (u ∷ us) p l m w =
    uses-IsWithin limit us (used limit u p) l m (used-IsWithin limit u p l m w)

limit_of_bounds :
    (parallelism : Option ℕ) → (0 < limit_of parallelism) × (limit_of parallelism ≤ max_workers)
limit_of_bounds none = (omega arith, omega arith)
limit_of_bounds (some n) = ground arith

-- Whatever the machine's parallelism, after any sequence of acquisitions and of the two halves of
-- dropping a lease, the pool's mutex is not poisoned and at most `limit` of its workers are alive;
-- so the next acquisition does not index the array of slots beyond its end either.
pub uses-bounded :
    (parallelism : Option ℕ) (us : List Use) (started : IoResult ℕ)
    → let limit = limit_of parallelism in
      let p = uses limit us empty_pool in
      IsWithin limit p
      × IsWithin limit (acquire limit started p).0
      × IsDone (acquire limit started p).1
uses-bounded parallelism us started =
    let limit = limit_of parallelism in
    let (l, m) = limit_of_bounds parallelism in
    let w =
      uses-IsWithin limit us empty_pool l m (record { sound = refl; bounded = omega arith }) in
    let g = acquire-Good limit started (uses limit us empty_pool) l m w in (w, g.0, g.1)
