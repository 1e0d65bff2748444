-- ===== src/Platform/Unix/Drain.antt =====
-- The loop of `drain_output` of src/platform/unix.rs ends and moves no byte.
use node_serialport_rs.Prelude.{
  ℕ, zero, suc, ◌<◌, ◌≡◌, refl, sym, ap, ◌∙◌, Option, none, some, List, arith,
}
use node_serialport_rs.Io.{IoResult, Result, ok, err}
use node_serialport_rs.Platform.Unix.{SystemCalls, Errno, eintr, another, drain_round, drain_loop}
use node_serialport_rs.Platform.Unix.Laws.{AreSystemCalls}

module _ {F : Type 0} (calls : SystemCalls F) {received sent : F → List ℕ} {events signals : F → ℕ}
    (law : AreSystemCalls calls received sent events signals) where
  -- A drain that has ended moved no byte.
  abbrev pub DrainedIf : F → Option (F × IoResult (Unit {0})) → Type 0
  DrainedIf x none = ⊥
  DrainedIf x (some r) = (received r.0 ≡ received x) × (sent r.0 ≡ sent x)

  DrainedIf-after :
      {x x' : F} (r : Option (F × IoResult (Unit {0})))
      → received x' ≡ received x
      → sent x' ≡ sent x
      → DrainedIf x' r
      → DrainedIf x r
  DrainedIf-after none p q d = d
  DrainedIf-after (some r) p q d = (d.0 ∙ p, d.1 ∙ q)

  ended :
      (x x' : F) (q : Result (Unit {0}) Errno)
      → (x', q) ≡ calls.tcdrain x
      → (received x' ≡ received x) × (sent x' ≡ sent x)
  ended x x' q e =
      (ap (λ r. received r.0) e ∙ law.tcdrain_received x, ap (λ r. sent r.0) e ∙ law.tcdrain_sent x)

  drain_round-Drained :
      (next : F → Option (F × IoResult (Unit {0}))) (x : F) (r : F × Result (Unit {0}) Errno)
      → r ≡ calls.tcdrain x
      → ((y : F) → signals y < signals x → DrainedIf y (next y))
      → DrainedIf x (drain_round calls next r)
  drain_round-Drained next x (x', ok u) e rest = ended x x' (ok u) e
  drain_round-Drained next x (x', err (another n)) e rest = ended x x' (err (another n)) e
  drain_round-Drained next x (x', err eintr) e rest =
      let (p, q) = ended x x' (err eintr) e in
      let l = ap (λ r. signals r.0) e in
      DrainedIf-after (next x') p q
        (rest x' (omega (arith, l, law.tcdrain_signals x (ap (λ r. r.1) (sym e)))))

  -- With more fuel than there are signals, the drain ends.
  pub drain_loop-Drained :
      (fuel : ℕ) (x : F) → signals x < fuel → DrainedIf x (drain_loop calls fuel x)
  unfolding drain_loop
  drain_loop-Drained zero x h = absurd (omega arith)
  drain_loop-Drained (suc fuel) x h =
      drain_round-Drained (λ y. drain_loop calls fuel y) x (calls.tcdrain x) refl
        (λ y l. drain_loop-Drained fuel y (omega arith))
