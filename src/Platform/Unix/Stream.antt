-- ===== src/Platform/Unix/Stream.antt =====
-- `SerialStream` of src/platform/unix.rs keeps the contract that the reactor relies on.
use node_serialport_rs.Prelude.{
  ℕ, suc, ◌<◌, ◌≡◌, refl, sym, ap, ◌∙◌, Bool, true, false, Option, none, some, List, [], ◌∷◌, ◌++◌,
  append-nil, arith, if_cases, subst,
}
use node_serialport_rs.Io.{IoResult, ok, err, Poll, pending, ready}
use node_serialport_rs.Transfer.Bytes.{moved, IsAsyncPort}
use node_serialport_rs.Serial.Laws.{IsSerial}
use node_serialport_rs.Platform.Unix.{
  AsyncFd, SystemCalls, TtyPort, Ended, poll_read, poll_write, try_read, try_write, drain_loop,
  ended_or, drained_or, unix_io, unix_serial,
}
use node_serialport_rs.Platform.Unix.Laws.{
  is_would_block, attempted, IsAsyncFd, AreSystemCalls, IsTtyPort,
}
use node_serialport_rs.Platform.Unix.Loops.{IsLoop, Moves, MovesIf, io_loop-Moves}
use node_serialport_rs.Platform.Unix.Drain.{DrainedIf, drain_loop-Drained}

module _ {F : Type 0} (fd : AsyncFd F) (calls : SystemCalls F) (tty : TtyPort F)
    {received sent : F → List ℕ} {events signals : F → ℕ} (law : IsAsyncFd fd received sent events)
    (sys : AreSystemCalls calls received sent events signals)
    (port : IsTtyPort tty received sent) where
  pub read-IsLoop : IsLoop fd calls.read fd.poll_read_ready false received sent events
  read-IsLoop = record {
    clear_ready = law.clear_ready;
    ready_into = law.read_ready_received;
    ready_other = law.read_ready_sent;
    ready_events = law.read_ready_events;
    ready_some = law.read_ready_some;
    clear_into = law.clear_received;
    clear_other = law.clear_sent;
    clear_events = law.clear_events;
    guard_io_lem = law.guard_io_lem;
    call_into = sys.read_received;
    call_other = sys.read_sent;
    call_events = sys.read_events;
    call_fits = sys.read_fits;
    call_keeps = sys.read_length;
  }

  pub write-IsLoop : IsLoop fd calls.write fd.poll_write_ready true sent received events
  write-IsLoop = record {
    clear_ready = law.clear_ready;
    ready_into = law.write_ready_sent;
    ready_other = law.write_ready_received;
    ready_events = law.write_ready_events;
    ready_some = law.write_ready_some;
    clear_into = law.clear_sent;
    clear_other = law.clear_received;
    clear_events = law.clear_events;
    guard_io_lem = law.guard_io_lem;
    call_into = λ x b.
        subst (λ c. sent (calls.write x b).0 ≡ sent x ++ moved (ready (calls.write x b).2) c)
          (sym (sys.write_slice x b)) (sys.write_sent x b);
    call_other = sys.write_received;
    call_events = sys.write_events;
    call_fits = sys.write_fits;
    call_keeps = sys.write_slice;
  }

  -- A poll with an empty slice is answered at once.
  pub read-Moves :
      (fuel : ℕ) (x : F) (b : List ℕ)
      → events x < fuel
      → MovesIf false received sent x b (poll_read fd calls fuel x b)
  unfolding poll_read
  read-Moves fuel x [] h = record {
    bytes_into = sym (append-nil (received x));
    bytes_other = refl;
    fits = omega arith;
    kept = refl;
  }
  read-Moves fuel x (c ∷ b) h =
      io_loop-Moves fd calls.read fd.poll_read_ready false received sent events read-IsLoop fuel x
        (c ∷ b) h

  pub write-Moves :
      (fuel : ℕ) (x : F) (b : List ℕ)
      → events x < fuel
      → MovesIf true sent received x b (poll_write fd calls fuel x b)
  unfolding poll_write
  write-Moves fuel x [] h = record {
    bytes_into = sym (append-nil (sent x));
    bytes_other = refl;
    fits = omega arith;
    kept = refl;
  }
  write-Moves fuel x (c ∷ b) h =
      io_loop-Moves fd calls.write fd.poll_write_ready true sent received events write-IsLoop fuel x
        (c ∷ b) h

  ended-Moves :
      (k : Bool) (into other : F → List ℕ) (x : F) (b : List ℕ)
      (default : F × List ℕ × Poll (IoResult ℕ)) (r : Ended F)
      → MovesIf k into other x b r
      → Moves k into other x b (ended_or default r)
  ended-Moves k into other x b default none m = absurd m
  ended-Moves k into other x b default (some r) m = m

  io_read :
      (x : F) (b : List ℕ)
      → Moves false received sent x b
          (ended_or (x, b, pending) (poll_read fd calls (suc (events x)) x b))
  io_read x b =
      ended-Moves false received sent x b (x, b, pending) _
        (read-Moves (suc (events x)) x b (omega arith))

  io_write :
      (x : F) (b : List ℕ)
      → Moves true sent received x b
          (ended_or (x, b, pending) (poll_write fd calls (suc (events x)) x b))
  io_write x b =
      ended-Moves true sent received x b (x, b, pending) _
        (write-Moves (suc (events x)) x b (omega arith))

  io-IsAsyncPort : IsAsyncPort (unix_io fd calls tty events signals) received sent
  unfolding unix_io
  io-IsAsyncPort = record {
    read_received = λ x b. (io_read x b).bytes_into;
    read_sent = λ x b. (io_read x b).bytes_other;
    read_fits = λ x b. (io_read x b).fits;
    read_length = λ x b. (io_read x b).kept;
    write_sent = λ x b.
        (let m = io_write x b in
          m.bytes_into
          ∙ ap
              (λ c.
                sent x
                ++ moved (ended_or (x, b, pending) (poll_write fd calls (suc (events x)) x b)).2 c)
              m.kept);
    write_received = λ x b. (io_write x b).bytes_other;
    write_fits = λ x b. (io_write x b).fits;
  }

  -- The immediate read: what the descriptor's own `try_io` leaves.
  abbrev Tried : F → List ℕ → F × List ℕ × IoResult ℕ → Type 0
  Tried x b r = Moves false received sent x b (r.0, r.1, ready r.2)

  attempted-Tried : (x : F) (b : List ℕ) → Tried x b (attempted law.clear_ready (calls.read x b))
  attempted-Tried x b =
      if_cases (Tried x b) (is_would_block (calls.read x b).2)
        (law.clear_ready (calls.read x b).0, (calls.read x b).1, (calls.read x b).2)
        (calls.read x b)
        (λ _. record {
          bytes_into = law.clear_received (calls.read x b).0 ∙ sys.read_received x b;
          bytes_other = law.clear_sent (calls.read x b).0 ∙ sys.read_sent x b;
          fits = sys.read_fits x b;
          kept = sys.read_length x b;
        })
        (λ _. record {
          bytes_into = sys.read_received x b;
          bytes_other = sys.read_sent x b;
          fits = sys.read_fits x b;
          kept = sys.read_length x b;
        })

  try_read-Tried : (x : F) (b : List ℕ) → Tried x b (try_read fd calls x b)
  unfolding try_read
  try_read-Tried x b = subst (Tried x b) (sym (law.try_io_lem calls.read x b)) (
      if_cases (Tried x b) (law.is_ready x) (attempted law.clear_ready (calls.read x b))
        (x, b, err law.blocked) (λ _. attempted-Tried x b)
        (λ _. record {
          bytes_into = sym (append-nil (received x));
          bytes_other = refl;
          fits = tt;
          kept = refl;
        }))

  drained-quiet :
      (x : F) (r : Option (F × IoResult (Unit {0})))
      → DrainedIf calls sys x r
      → (received (drained_or (x, ok tt) r).0 ≡ received x)
        × (sent (drained_or (x, ok tt) r).0 ≡ sent x)
  drained-quiet x none d = absurd d
  drained-quiet x (some r) d = d

  -- The stream keeps the whole contract of the port that the reactor, `write` and `writev` use:
  -- each call moves exactly the bytes that it reports, in the direction that it is for.
  pub unix_serial-IsSerial : IsSerial (unix_serial fd calls tty events signals) received sent
  unfolding unix_serial try_write
  unix_serial-IsSerial = record {
    async = io-IsAsyncPort;
    try_read_received = λ x b. (try_read-Tried x b).bytes_into;
    try_read_sent = λ x b. (try_read-Tried x b).bytes_other;
    try_read_fits = λ x b. (try_read-Tried x b).fits;
    try_read_length = λ x b. (try_read-Tried x b).kept;
    try_write_sent = sys.write_sent;
    try_write_received = sys.write_received;
    try_write_fits = sys.write_fits;
    drain_quiet = λ x.
        drained-quiet x (drain_loop calls (suc (signals x)) x)
          (drain_loop-Drained calls sys (suc (signals x)) x (omega arith));
    bytes_to_write_quiet = port.bytes_to_write_quiet;
    set_baud_rate_quiet = port.set_baud_rate_quiet;
    baud_rate_quiet = port.baud_rate_quiet;
    dtr_quiet = port.dtr_quiet;
    rts_quiet = port.rts_quiet;
    set_break_quiet = port.set_break_quiet;
    clear_break_quiet = port.clear_break_quiet;
    cts_quiet = port.cts_quiet;
    dsr_quiet = port.dsr_quiet;
    dcd_quiet = port.dcd_quiet;
    clear_quiet = port.clear_quiet;
  }
