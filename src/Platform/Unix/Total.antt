-- ===== src/Platform/Unix/Total.antt =====
-- The loops of src/platform/unix.rs give a result, and more fuel does not change it.
use node_serialport_rs.Prelude.{
  Bool, true, false, ℕ, zero, suc, ◌<◌, ◌≡◌, refl, sym, ap, ◌∙◌, Option, none, some, List, [], ◌∷◌,
  arith,
}
use node_serialport_rs.Io.{IoResult, Result, ok, err, pending}
use node_serialport_rs.Platform.Unix.{
  AsyncFd, SystemCalls, TtyPort, Errno, eintr, another, Ended, poll_read, poll_write, drain_round,
  drain_loop, ended_or, drained_or, unix_io, unix_serial,
}
use node_serialport_rs.Platform.Unix.Laws.{IsAsyncFd, AreSystemCalls, IsTtyPort}
use node_serialport_rs.Platform.Unix.Loops.{MovesIf, io_loop-agree}
use node_serialport_rs.Platform.Unix.Drain.{DrainedIf, drain_loop-Drained}
use node_serialport_rs.Platform.Unix.Stream.{read-IsLoop, write-IsLoop, read-Moves, write-Moves}

module _ {F : Type 0} (calls : SystemCalls F) {received sent : F → List ℕ} {events signals : F → ℕ}
    (sys : AreSystemCalls calls received sent events signals) where
  round-agree :
      (next next' : F → Option (F × IoResult (Unit {0}))) (x : F) (r : F × Result (Unit {0}) Errno)
      → r ≡ calls.tcdrain x
      → ((y : F) → signals y < signals x → next y ≡ next' y)
      → drain_round calls next r ≡ drain_round calls next' r
  round-agree next next' x (x', ok u) e same = refl
  round-agree next next' x (x', err (another n)) e same = refl
  round-agree next next' x (x', err eintr) e same =
      let l = ap (λ r. signals r.0) e in
      same x' (omega (arith, l, sys.tcdrain_signals x (ap (λ r. r.1) (sym e))))

  drain_loop-agree :
      (fuel fuel' : ℕ) (x : F)
      → signals x < fuel
      → signals x < fuel'
      → drain_loop calls fuel x ≡ drain_loop calls fuel' x
  unfolding drain_loop
  drain_loop-agree zero fuel' x h h' = absurd (omega arith)
  drain_loop-agree (suc fuel) zero x h h' = absurd (omega arith)
  drain_loop-agree (suc fuel) (suc fuel') x h h' =
      round-agree (λ y. drain_loop calls fuel y) (λ y. drain_loop calls fuel' y) x (calls.tcdrain x)
        refl (λ y l. drain_loop-agree fuel fuel' y (omega arith) (omega arith))

  drained_or-some :
      (x : F) (r : Option (F × IoResult (Unit {0})))
      → DrainedIf calls sys x r
      → r ≡ some (drained_or (x, ok tt) r)
  drained_or-some x none d = absurd d
  drained_or-some x (some r) d = refl

ended_or-some :
    {F : Type 0} (k : Bool) (into other : F → List ℕ) (x : F) (b : List ℕ) (r : Ended F)
    → MovesIf k into other x b r
    → r ≡ some (ended_or (x, b, pending) r)
ended_or-some k into other x b none m = absurd m
ended_or-some k into other x b (some r) m = refl

-- The slice of a write is not changed.
slice_kept :
    {F : Type 0} (into other : F → List ℕ) (x : F) (b : List ℕ) (r : Ended F)
    → MovesIf true into other x b r
    → let e = ended_or (x, b, pending) r in r ≡ some (e.0, b, e.2)
slice_kept into other x b none m = absurd m
slice_kept into other x b (some r) m = ap (λ c. some (r.0, c, r.2)) m.kept

module _ {F : Type 0} (fd : AsyncFd F) (calls : SystemCalls F) (tty : TtyPort F)
    {received sent : F → List ℕ} {events signals : F → ℕ} (law : IsAsyncFd fd received sent events)
    (sys : AreSystemCalls calls received sent events signals)
    (port : IsTtyPort tty received sent) where
  read-agree :
      (fuel : ℕ) (x : F) (b : List ℕ)
      → events x < fuel
      → poll_read fd calls fuel x b ≡ poll_read fd calls (suc (events x)) x b
  unfolding poll_read
  read-agree fuel x [] h = refl
  read-agree fuel x (c ∷ b) h =
      io_loop-agree fd calls.read fd.poll_read_ready false received sent events
        (read-IsLoop fd calls tty law sys port) fuel (suc (events x)) x (c ∷ b) h (omega arith)

  write-agree :
      (fuel : ℕ) (x : F) (b : List ℕ)
      → events x < fuel
      → poll_write fd calls fuel x b ≡ poll_write fd calls (suc (events x)) x b
  unfolding poll_write
  write-agree fuel x [] h = refl
  write-agree fuel x (c ∷ b) h =
      io_loop-agree fd calls.write fd.poll_write_ready true sent received events
        (write-IsLoop fd calls tty law sys port) fuel (suc (events x)) x (c ∷ b) h (omega arith)

  -- With any fuel above the readiness events of a descriptor and the signals to come, a read, a
  -- write and a drain each end, with the result that the stream gives.
  pub loops_total :
      (fuel : ℕ) (x : F) (b : List ℕ)
      → events x < fuel
      → signals x < fuel
      → let stream = unix_serial fd calls tty events signals in
        (poll_read fd calls fuel x b ≡ some (stream.io.poll_read x b))
        × (let w = stream.io.poll_write x b in poll_write fd calls fuel x b ≡ some (w.0, b, w.1))
        × (drain_loop calls fuel x ≡ some (stream.drain_output x))
  unfolding unix_serial unix_io
  loops_total fuel x b h l = (
    read-agree fuel x b h
        ∙ ended_or-some false received sent x b (poll_read fd calls (suc (events x)) x b)
            (read-Moves fd calls tty law sys port (suc (events x)) x b (omega arith)),
    write-agree fuel x b h
        ∙ slice_kept sent received x b (poll_write fd calls (suc (events x)) x b)
            (write-Moves fd calls tty law sys port (suc (events x)) x b (omega arith)),
    drain_loop-agree calls sys fuel (suc (signals x)) x l (omega arith)
        ∙ drained_or-some calls sys x (drain_loop calls (suc (signals x)) x)
            (drain_loop-Drained calls sys (suc (signals x)) x (omega arith)),
  )
