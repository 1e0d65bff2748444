-- ===== src/Workers/Choice.antt =====
-- Which worker `acquire` of src/workers.rs chooses.
use node_serialport_rs.Prelude.{
  ℕ, ◌≤◌, ◌<◌, ◌≡◌, ◌⊎◌, inl, inr, refl, ltb, leb, ◌==◌, ◌||◌, true, false, none, some, List, [],
  ◌∷◌, length, arith, if_cases,
}
use node_serialport_rs.Io.{IoResult, ok, err}
use node_serialport_rs.Workers.{
  Worker, Pool, Acquired, granted, failed, panicked, upgraded, least, least_busy, reusable, grant,
  push_started, acquire,
}

-- No worker of the list has fewer ports.
abbrev pub NoneBelow : ℕ → List Worker → Type 0
NoneBelow n [] = Unit {0}
NoneBelow n (w ∷ ws) = (n ≤ w.ports) × NoneBelow n ws

-- A worker of the list has this address and these ports.
abbrev pub IsIn : Worker → List Worker → Type 0
IsIn w [] = ⊥
IsIn w (v ∷ vs) = (w ≡ v) ⊎ IsIn w vs

NoneBelow-le : (m n : ℕ) (ws : List Worker) → m ≤ n → NoneBelow n ws → NoneBelow m ws
NoneBelow-le m n [] h k = tt
NoneBelow-le m n (w ∷ ws) h k = (omega (arith, k.0), NoneBelow-le m n ws h k.1)

-- A least element of a list whose head is `w`.
abbrev IsLeast : Worker → List Worker → Worker → Type 0
IsLeast w ws m = IsIn m (w ∷ ws) × (m.ports ≤ w.ports) × NoneBelow m.ports ws

IsLeast-smaller :
    (w v : Worker) (vs : List Worker) (m : Worker)
    → ltb v.ports w.ports ≡ true
    → IsLeast v vs m
    → IsLeast w (v ∷ vs) m
IsLeast-smaller w v vs m e (i, l, n) = (inr i, ground (arith, l), (l, n))

IsLeast-larger :
    (w v : Worker) (vs : List Worker) (m : Worker)
    → ltb v.ports w.ports ≡ false
    → IsLeast w vs m
    → IsLeast w (v ∷ vs) m
IsLeast-larger w v vs m e (inl i, l, n) = (inl i, l, (ground (arith, l), n))
IsLeast-larger w v vs m e (inr i, l, n) = (inr (inr i), l, (ground (arith, l), n))

least_lem : (w : Worker) (ws : List Worker) → IsLeast w ws (least w ws)
unfolding least
least_lem w [] = (inl refl, omega arith, tt)
least_lem w (v ∷ vs) =
    if_cases (λ x. IsLeast w (v ∷ vs) (least x vs)) (ltb v.ports w.ports) v w
      (λ e. IsLeast-smaller w v vs (least v vs) e (least_lem v vs))
      (λ e. IsLeast-larger w v vs (least w vs) e (least_lem w vs))

-- What `acquire` may grant: a worker of the list that is one of the least busy and idle, or any
-- least busy one where the limit is reached; or a new one, while the limit is not reached and every
-- worker of the list is busy.
abbrev Reuses : ℕ → List Worker → ℕ → Type 0
Reuses limit active id =
    (w : Worker) × IsIn w active
    × (w.id ≡ id)
    × NoneBelow w.ports active
    × ((w.ports ≡ 0) ⊎ (limit ≤ length active))

abbrev Starts : ℕ → List Worker → IoResult ℕ → ℕ → Type 0
Starts limit active started id =
    (started ≡ ok id) × NoneBelow 1 active × ((length active < limit) ⊎ (active ≡ []))

abbrev pub Grants : ℕ → List Worker → IoResult ℕ → Acquired → Type 0
Grants limit active started (granted id) = Reuses limit active id ⊎ Starts limit active started id
Grants limit active started (failed e) =
    (started ≡ err e) × NoneBelow 1 active × ((length active < limit) ⊎ (active ≡ []))
Grants limit active started panicked = ⊥

module _ (limit : ℕ) (started : IoResult ℕ) where
  push-Grants :
      (active : List Worker) (r : IoResult ℕ)
      → started ≡ r
      → NoneBelow 1 active
      → (length active < limit) ⊎ (active ≡ [])
      → Grants limit active started (push_started active r).1
  push-Grants active (ok id) e n h = inr (e, n, h)
  push-Grants active (err x) e n h = (e, n, h)

  grant-Grants :
      (active : List Worker)
      → Grants limit active started
          (grant active started (reusable limit active (least_busy active))).1
  grant-Grants [] = push-Grants [] started refl tt (inr refl)
  grant-Grants (w ∷ ws) =
      let m = least w ws in
      let (i, l, n) = least_lem w ws in
      if_cases (λ r. Grants limit (w ∷ ws) started (grant (w ∷ ws) started r).1)
        (m.ports == 0 || leb limit (length (w ∷ ws))) (some m) none
        (λ e. inl (m, i, refl, (l, n), ground arith))
        (λ e.
          push-Grants (w ∷ ws) started refl
            (ground arith, NoneBelow-le 1 m.ports ws (ground arith) n) (inl (ground arith)))

-- Where the mutex is not poisoned and the live workers fit into `active`, `acquire` grants an idle
-- worker, or a least busy one at the limit, and starts a worker, or fails to, only where all the
-- live ones are busy and fewer than the limit, or there are none.
pub acquire-Grants :
    (limit : ℕ) (started : IoResult ℕ) (p : Pool) (active : List Worker)
    → p.poisoned ≡ false
    → upgraded 0 p.workers ≡ some active
    → Grants limit active started (acquire limit started p).1
unfolding acquire
acquire-Grants limit started p active s u = rw (s, u) (grant-Grants limit started active)
