-- ===== src/Stream.antt =====
-- The bytes of src/lib.rs and src/reactor.rs on their way to the device: those that the driver has,
-- those of the commands in the reactor's queue, and those of the commands in the channel.
pub mod Quiet
pub mod Serve
pub mod Transfers
pub mod Select
pub mod Receive
pub mod Enqueue
pub mod Write
pub mod Submit
use node_serialport_rs.Prelude.{
  ℕ, zero, suc, ◌≤◌, ◌≡◌, refl, sym, ap, ◌∙◌, Bool, true, false, Option, none, some, List, [], ◌∷◌,
  ◌++◌, arith, length, drop, drop-all, append-nil, append_assoc,
}
use node_serialport_rs.Io.{IoError}
use node_serialport_rs.Command.{Operation, write, Command, ordered, ordered_operation}
use node_serialport_rs.Control.{Control, locked, with_session}
use node_serialport_rs.Reactor.{System}
use node_serialport_rs.Ledger.{WithinFront, WithinOperation}

abbrev pub bytes_of : Operation → List ℕ
bytes_of (write bytes) = bytes
bytes_of op = []

abbrev pub backlog : List Command → List ℕ
backlog [] = []
backlog (c ∷ cs) = bytes_of c.operation ++ backlog cs

-- The reactor's queue, of whose front `written` bytes are with the driver.
abbrev pub outstanding : List Command → ℕ → List ℕ
outstanding [] written = []
outstanding (c ∷ cs) written = drop written (bytes_of c.operation) ++ backlog cs

module _ {T : Type 0} (sent : T → List ℕ) where
  abbrev pub sent_of : Option T → List ℕ
  sent_of none = []
  sent_of (some port) = sent port

  -- A call that hands the driver nothing leaves what it has.
  sent-locked {ℓ} :
      {B : Type ℓ} (c : Control T) (p : Bool) (o : Option T) (body : T → T × B) (fail : IoError → B)
      → o ≡ c.session
      → ((t : T) → sent (body t).0 ≡ sent t)
      → sent_of (locked c p o body fail).0.session ≡ sent_of o
  sent-locked c true o body fail e q = ap sent_of (sym e)
  sent-locked c false none body fail e q = ap sent_of (sym e)
  sent-locked c false (some port) body fail e q = q port

  pub sent-with_session {ℓ} :
      {B : Type ℓ} (c : Control T) (body : T → T × B) (fail : IoError → B)
      → ((t : T) → sent (body t).0 ≡ sent t)
      → sent_of (with_session c body fail).0.session ≡ sent_of c.session
  sent-with_session c body fail q = sent-locked c c.poisoned c.session body fail refl q

module _ {ℓ} {T : Type 0} (sent : T → List ℕ) {B : Type ℓ} (c : Control T) (body : T → T × B)
    (fail : IoError → B) (f : B → List ℕ) (run : (t : T) → sent (body t).0 ≡ sent t ++ f (body t).1)
    (refuse : (e : IoError) → f (fail e) ≡ []) where
  sent-locked_result :
      (p : Bool) (o : Option T)
      → o ≡ c.session
      → sent_of sent (locked c p o body fail).0.session
        ≡ sent_of sent o ++ f (locked c p o body fail).1
  sent-locked_result true o e = rw (refuse, append-nil (sent_of sent o)) (ap (sent_of sent) (sym e))
  sent-locked_result false none e = rw refuse (ap (sent_of sent) (sym e))
  sent-locked_result false (some port) e = run port

  -- A call whose result tells what it handed the driver.
  pub sent-with_session_result :
      sent_of sent (with_session c body fail).0.session
      ≡ sent_of sent c.session ++ f (with_session c body fail).1
  sent-with_session_result = sent-locked_result c.poisoned c.session refl

-- Every byte, in the order in which the driver has it or will have it.
abbrev pub stream : {T C K : Type 0} → (T → List ℕ) → (C → List Command) → System T C K → List ℕ
stream sent queue s =
    sent_of sent s.control.session
    ++ (outstanding s.locals.commands s.locals.written ++ backlog (queue s.channel))

pub backlog-append : (xs ys : List Command) → backlog (xs ++ ys) ≡ backlog xs ++ backlog ys
backlog-append [] ys = refl
backlog-append (x ∷ xs) ys =
    ap (◌++◌ (bytes_of x.operation)) (backlog-append xs ys)
    ∙ sym (append_assoc (bytes_of x.operation) (backlog xs) (backlog ys))

pub outstanding-zero : (cs : List Command) → outstanding cs 0 ≡ backlog cs
outstanding-zero [] = refl
outstanding-zero (c ∷ cs) = refl

-- A command that is received moves from the channel's bytes to the queue's.
pub outstanding-append :
    (cs : List Command) (c : Command) (w : ℕ)
    → WithinFront cs w
    → outstanding (cs ++ (c ∷ [])) w ≡ outstanding cs w ++ bytes_of c.operation
outstanding-append [] c w h = rw h (append-nil (bytes_of c.operation))
outstanding-append (x ∷ xs) c w h =
    rw (backlog-append xs (c ∷ []), append-nil (bytes_of c.operation))
      (sym (append_assoc (drop w (bytes_of x.operation)) (backlog xs) (bytes_of c.operation)))

-- A command that carries no bytes, or whose bytes the driver has, can go.
pub outstanding-release :
    (c : Command) (cs : List Command) (w : ℕ)
    → length (bytes_of c.operation) ≤ w
    → outstanding (c ∷ cs) w ≡ outstanding cs 0
outstanding-release c cs w h = rw (drop-all w (bytes_of c.operation) h) (sym (outstanding-zero cs))

pub bytes_of-unordered : (op : Operation) → ordered_operation op ≡ false → bytes_of op ≡ []
bytes_of-unordered (write bytes) h = cc
bytes_of-unordered _ h = refl
