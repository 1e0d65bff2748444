-- ===== src/Platform/Unix/Loops.antt =====
-- The loops of src/platform/unix.rs end, and a completed transfer moves what it reports.
use node_serialport_rs.Prelude.{
  ℕ, zero, suc, ◌-◌, ◌≤◌, ◌<◌, ◌≡◌, refl, sym, subst, ap, ◌∙◌, Bool, true, false, none, some, List,
  [], ◌++◌, append-nil, length, arith, if_cases,
}
use node_serialport_rs.Io.{IoResult, ok, err, Poll, pending, ready}
use node_serialport_rs.Transfer.Bytes.{moved, Fits}
use node_serialport_rs.Platform.Unix.{Attempt, AsyncFd, Ended, guarded_round, ready_round, io_loop}
use node_serialport_rs.Platform.Unix.Laws.{is_would_block, guarded}

-- What a call leaves of the slice: a read its length, a write all of it.
abbrev pub Keeps : Bool → List ℕ → List ℕ → Type 0
Keeps true b c = c ≡ b
Keeps false b c = length c ≡ length b

Keeps-length : (k : Bool) (b c : List ℕ) → Keeps k b c → length c ≡ length b
Keeps-length true b c h = ap length h
Keeps-length false b c h = h

Keeps-then : (k : Bool) (b c d : List ℕ) → Keeps k b c → Keeps k c d → Keeps k b d
Keeps-then true b c d h g = g ∙ h
Keeps-then false b c d h g = g ∙ h

Keeps-self : (k : Bool) (b : List ℕ) → Keeps k b b
Keeps-self true b = refl
Keeps-self false b = refl

-- What the loop relies on: `into` is the side that the call moves bytes on, `other` the other one.
pub record IsLoop {F : Type 0} (fd : AsyncFd F) (call : Attempt F)
    (readiness : F → F × Poll (IoResult (Unit {0}))) (k : Bool) (into other : F → List ℕ)
    (events : F → ℕ) : Type 0 where
  pub clear_ready : F → F
  pub ready_into : (x : F) → into (readiness x).0 ≡ into x
  pub ready_other : (x : F) → other (readiness x).0 ≡ other x
  pub ready_events : (x : F) → events (readiness x).0 ≤ events x
  pub ready_some : (x : F) → (readiness x).1 ≡ ready (ok tt) → 0 < events (readiness x).0
  pub clear_into : (x : F) → into (clear_ready x) ≡ into x
  pub clear_other : (x : F) → other (clear_ready x) ≡ other x
  pub clear_events : (x : F) → events (clear_ready x) ≡ events x - 1
  pub guard_io_lem :
      (f : Attempt F) (x : F) (b : List ℕ) → fd.guard_io f x b ≡ guarded clear_ready (f x b)
  pub call_into :
      (x : F) (b : List ℕ) → into (call x b).0 ≡ into x ++ moved (ready (call x b).2) (call x b).1
  pub call_other : (x : F) (b : List ℕ) → other (call x b).0 ≡ other x
  pub call_events : (x : F) (b : List ℕ) → events (call x b).0 ≡ events x
  pub call_fits : (x : F) (b : List ℕ) → Fits (ready (call x b).2) (length b)
  pub call_keeps : (x : F) (b : List ℕ) → Keeps k b (call x b).1

module _ {F : Type 0} (k : Bool) (into other : F → List ℕ) where
  -- A poll has moved the bytes that it reports, and nothing else.
  pub record Moves (x : F) (b : List ℕ) (r : F × List ℕ × Poll (IoResult ℕ)) : Type 0 where
    pub bytes_into : into r.0 ≡ into x ++ moved r.2 r.1
    pub bytes_other : other r.0 ≡ other x
    pub fits : Fits r.2 (length b)
    pub kept : Keeps k b r.1

  abbrev pub MovesIf : F → List ℕ → Ended F → Type 0
  MovesIf x b none = ⊥
  MovesIf x b (some r) = Moves x b r

  -- A round that only changed the readiness can be put before.
  Moves-after :
      {x x' : F} (b b' : List ℕ) (r : Ended F)
      → into x' ≡ into x
      → other x' ≡ other x
      → Keeps k b b'
      → MovesIf x' b' r
      → MovesIf x b r
  Moves-after b b' none p q l m = m
  Moves-after b b' (some r) p q l m = record {
    bytes_into = rw (← p) m.bytes_into;
    bytes_other = m.bytes_other ∙ q;
    fits = subst (Fits r.2) (Keeps-length k b b' l) m.fits;
    kept = Keeps-then k b b' r.1 l m.kept;
  }

would_block-moves : (r : IoResult ℕ) (b : List ℕ) → is_would_block r ≡ true → moved (ready r) b ≡ []
would_block-moves (ok n) b h = cc
would_block-moves (err e) b h = refl

module _ {F : Type 0} (fd : AsyncFd F) (call : Attempt F)
    (readiness : F → F × Poll (IoResult (Unit {0}))) (k : Bool) (into other : F → List ℕ)
    (events : F → ℕ) (law : IsLoop fd call readiness k into other events) where
  guarded-Moves :
      (next : F → List ℕ → Ended F) (x x' : F) (b : List ℕ)
      → into x' ≡ into x
      → other x' ≡ other x
      → ((y : F) (c : List ℕ) → events y < events x' → MovesIf k into other y c (next y c))
      → 0 < events x'
      → MovesIf k into other x b (guarded_round fd call next (guarded law.clear_ready (call x' b)))
  guarded-Moves next x x' b p q rest h =
      if_cases (λ r. MovesIf k into other x b (guarded_round fd call next r))
        (is_would_block (call x' b).2) (law.clear_ready (call x' b).0, (call x' b).1, none)
        ((call x' b).0, (call x' b).1, some (call x' b).2)
        (λ w.
          Moves-after k into other b (call x' b).1
            (next (law.clear_ready (call x' b).0) (call x' b).1)
            (law.clear_into (call x' b).0
              ∙ law.call_into x' b
              ∙ ap (λ z. into x' ++ z) (would_block-moves (call x' b).2 (call x' b).1 w)
              ∙ append-nil (into x')
              ∙ p)
            (law.clear_other (call x' b).0 ∙ law.call_other x' b ∙ q) (law.call_keeps x' b)
            (rest (law.clear_ready (call x' b).0) (call x' b).1
              (omega (arith, h, law.clear_events (call x' b).0, law.call_events x' b))))
        (λ _. record {
          bytes_into =
              law.call_into x' b ∙ ap (λ z. z ++ moved (ready (call x' b).2) (call x' b).1) p;
          bytes_other = law.call_other x' b ∙ q;
          fits = law.call_fits x' b;
          kept = law.call_keeps x' b;
        })

  still-Moves :
      (x x' : F) (b : List ℕ) (p : Poll (IoResult ℕ)) {q : Poll (IoResult (Unit {0}))}
      → (x', q) ≡ readiness x
      → moved p b ≡ []
      → Fits p (length b)
      → Moves k into other x b (x', b, p)
  still-Moves x x' b p e m f = record {
    bytes_into =
        ap (λ r. into r.0) e
        ∙ law.ready_into x
        ∙ sym (append-nil (into x))
        ∙ ap (λ z. into x ++ z) (sym m);
    bytes_other = ap (λ r. other r.0) e ∙ law.ready_other x;
    fits = f;
    kept = Keeps-self k b;
  }

  ready-Moves :
      (next : F → List ℕ → Ended F) (x : F) (b : List ℕ) (r : F × Poll (IoResult (Unit {0})))
      → r ≡ readiness x
      → ((y : F) (c : List ℕ) → events y < events x → MovesIf k into other y c (next y c))
      → MovesIf k into other x b (ready_round fd call next b r)
  ready-Moves next x b (x', pending) e rest = still-Moves x x' b pending e refl tt
  ready-Moves next x b (x', ready (err z)) e rest = still-Moves x x' b (ready (err z)) e refl tt
  ready-Moves next x b (x', ready (ok u)) e rest =
      let l = ap (λ r. events r.0) e in
      let some_event = law.ready_some x (ap (λ r. r.1) (sym e)) in
      rw (law.guard_io_lem call x' b) (
        guarded-Moves next x x' b (ap (λ r. into r.0) e ∙ law.ready_into x)
          (ap (λ r. other r.0) e ∙ law.ready_other x)
          (λ y c h. rest y c (omega (arith, h, l, law.ready_events x)))
          (omega (arith, l, some_event)))

  -- With more fuel than there are readiness events, the loop ends.
  pub io_loop-Moves :
      (fuel : ℕ) (x : F) (b : List ℕ)
      → events x < fuel
      → MovesIf k into other x b (io_loop fd call readiness fuel x b)
  unfolding io_loop
  io_loop-Moves zero x b h = absurd (omega arith)
  io_loop-Moves (suc fuel) x b h =
      ready-Moves (λ y c. io_loop fd call readiness fuel y c) x b (readiness x) refl
        (λ y c l. io_loop-Moves fuel y c (omega arith))

  guarded-agree :
      (next next' : F → List ℕ → Ended F) (x' : F) (b : List ℕ)
      → ((y : F) (c : List ℕ) → events y < events x' → next y c ≡ next' y c)
      → 0 < events x'
      → guarded_round fd call next (guarded law.clear_ready (call x' b))
        ≡ guarded_round fd call next' (guarded law.clear_ready (call x' b))
  guarded-agree next next' x' b same h =
      if_cases (λ r. guarded_round fd call next r ≡ guarded_round fd call next' r)
        (is_would_block (call x' b).2) (law.clear_ready (call x' b).0, (call x' b).1, none)
        ((call x' b).0, (call x' b).1, some (call x' b).2)
        (λ _.
          same (law.clear_ready (call x' b).0) (call x' b).1
            (omega (arith, h, law.clear_events (call x' b).0, law.call_events x' b)))
        (λ _. refl)

  ready-agree :
      (next next' : F → List ℕ → Ended F) (x : F) (b : List ℕ) (r : F × Poll (IoResult (Unit {0})))
      → r ≡ readiness x
      → ((y : F) (c : List ℕ) → events y < events x → next y c ≡ next' y c)
      → ready_round fd call next b r ≡ ready_round fd call next' b r
  ready-agree next next' x b (x', pending) e same = refl
  ready-agree next next' x b (x', ready (err z)) e same = refl
  ready-agree next next' x b (x', ready (ok u)) e same =
      let l = ap (λ r. events r.0) e in
      let some_event = law.ready_some x (ap (λ r. r.1) (sym e)) in
      rw (law.guard_io_lem call x' b) (
        guarded-agree next next' x' b (λ y c h. same y c (omega (arith, h, l, law.ready_events x)))
          (omega (arith, l, some_event)))

  -- Any two amounts of fuel above the number of readiness events give the same result.
  pub io_loop-agree :
      (fuel fuel' : ℕ) (x : F) (b : List ℕ)
      → events x < fuel
      → events x < fuel'
      → io_loop fd call readiness fuel x b ≡ io_loop fd call readiness fuel' x b
  unfolding io_loop
  io_loop-agree zero fuel' x b h h' = absurd (omega arith)
  io_loop-agree (suc fuel) zero x b h h' = absurd (omega arith)
  io_loop-agree (suc fuel) (suc fuel') x b h h' =
      ready-agree (λ y c. io_loop fd call readiness fuel y c)
        (λ y c. io_loop fd call readiness fuel' y c) x b (readiness x) refl
        (λ y c l. io_loop-agree fuel fuel' y c (omega arith) (omega arith))
