-- ===== src/Platform/Termios/Speed.antt =====
-- `set_baud_rate` and `baud_rate` of src/platform.rs in the build for macOS.
use node_serialport_rs.Prelude.{◌≡◌, refl, sym, ap, ◌∙◌, ◌==◌, if_cases, false, ℕ, zero, suc, arith}
use node_serialport_rs.Io.{IoError, IoResult, ok, err}
use node_serialport_rs.Error.{invalid}
use node_serialport_rs.Serial.{Serial, after, pure}
use node_serialport_rs.Platform.Termios.{
  Termios, TermiosCalls, with_speed, set_speed, set_baud_rate, posix_speed, baud_rate,
}

-- A port has a speed that the `serialport` crate set, zero if it left the speed alone. The settings of
-- POSIX do not touch it.
pub record HasSpeeds {T R : Type 0} (serial : Serial T) (calls : TermiosCalls T R) (own : T → ℕ)
    : Type 0 where
  pub baud_rate_keeps : (p : T) → own (serial.baud_rate p).0 ≡ own p
  pub baud_rate_lem : (p : T) {n : ℕ} → (serial.baud_rate p).1 ≡ ok n → n ≡ own p
  pub set_baud_rate_lem :
      (n : ℕ) (p : T) → (serial.set_baud_rate n p).1 ≡ ok tt → own (serial.set_baud_rate n p).0 ≡ n
  pub tcgetattr_keeps : (p : T) → own (calls.tcgetattr p).0 ≡ own p
  pub tcsetattr_keeps : (t : Termios R) (p : T) → own (calls.tcsetattr t p).0 ≡ own p

module _ {T R : Type 0} {serial : Serial T} {calls : TermiosCalls T R} {own : T → ℕ}
    (law : HasSpeeds serial calls own) where
  -- A rate that is read from a port with an own speed is this one.
  abbrev Reports : ℕ → T × IoResult ℕ → Type 0
  Reports n (p, ok m) = m ≡ n
  Reports n (p, err e) = Unit {0}

  own-Reports :
      (n : ℕ) (p : T) (r : T × IoResult ℕ)
      → r ≡ serial.baud_rate p
      → own p ≡ n
      → (n == 0) ≡ false
      → Reports n (after r (posix_speed serial calls))
  own-Reports n p (q, err e) h k z = tt
  own-Reports n p (q, ok m) h k z =
      let e : m ≡ n = law.baud_rate_lem p (ap (λ r. r.1) (sym h)) ∙ k in
      if_cases (Reports n) (m == 0) (after (calls.tcgetattr q) (λ t. pure (calls.cfgetospeed t)))
        (pure m q) (λ y. absurd (ground (arith, e, y, z))) (λ y. e)

  -- Why the setting of a rate fails.
  pub data Cause (n : ℕ) (p : T) (e : IoError) : Type 0 where
    zero_rate : n ≡ 0 → e ≡ invalid "Baud rate must be positive" → Cause n p e
    no_speed : (serial.baud_rate p).1 ≡ err e → Cause n p e
    not_set : (serial.set_baud_rate n (serial.baud_rate p).0).1 ≡ err e → Cause n p e
    no_settings : (calls.tcgetattr (serial.baud_rate p).0).1 ≡ err e → Cause n p e
    no_such_speed : (t : Termios R) → calls.cfsetspeed n t ≡ err e → Cause n p e
    not_written : (t : Termios R) (x : T) → (calls.tcsetattr t x).1 ≡ err e → Cause n p e

  -- The settings of POSIX were read, and written with the rate.
  abbrev pub Written : ℕ → T → T × IoResult (Unit {0}) → Type 0
  Written n p r =
      (t : Termios R) × (t' : Termios R) × (x : T) × (calls.tcgetattr (serial.baud_rate p).0
        ≡ (x, ok t))
      × (calls.cfsetspeed n t ≡ ok t')
      × (r ≡ calls.tcsetattr t' x)

  -- By the speed that the port had.
  abbrev pub KeepsKind : ℕ → ℕ → T → T × IoResult (Unit {0}) → Type 0
  KeepsKind zero n p (q, ok u) = (own q ≡ 0) × Written n p (q, ok u)
  KeepsKind zero n p (q, err e) = (own q ≡ 0) × Cause n p e
  KeepsKind (suc before) n p (q, ok u) = Reports n (baud_rate serial calls q)
  KeepsKind (suc before) n p (q, err e) = Cause n p e

  written-KeepsKind :
      (n : ℕ) (p x : T) (t t' : Termios R) (r : T × IoResult (Unit {0}))
      → r ≡ calls.tcsetattr t' x
      → own x ≡ 0
      → calls.tcgetattr (serial.baud_rate p).0 ≡ (x, ok t)
      → calls.cfsetspeed n t ≡ ok t'
      → KeepsKind 0 n p r
  written-KeepsKind n p x t t' (q, ok u) h z a b =
      (ap (λ r. own r.0) h ∙ law.tcsetattr_keeps t' x ∙ z, (t, t', x, a, b, h))
  written-KeepsKind n p x t t' (q, err e) h z a b =
      (ap (λ r. own r.0) h ∙ law.tcsetattr_keeps t' x ∙ z, not_written t' x (ap (λ r. r.1) (sym h)))

  with_speed-KeepsKind :
      (n : ℕ) (p x : T) (t : Termios R) (r : IoResult (Termios R))
      → r ≡ calls.cfsetspeed n t
      → own x ≡ 0
      → calls.tcgetattr (serial.baud_rate p).0 ≡ (x, ok t)
      → KeepsKind 0 n p (with_speed serial calls r x)
  with_speed-KeepsKind n p x t (err e) h z a = (z, no_such_speed t (sym h))
  with_speed-KeepsKind n p x t (ok t') h z a =
      written-KeepsKind n p x t t' (calls.tcsetattr t' x) refl z a (sym h)

  posix-KeepsKind :
      (n : ℕ) (p q : T) (r : T × IoResult (Termios R))
      → r ≡ calls.tcgetattr q
      → q ≡ (serial.baud_rate p).0
      → own q ≡ 0
      → KeepsKind 0 n p (after r (λ t. with_speed serial calls (calls.cfsetspeed n t)))
  posix-KeepsKind n p q (x, err e) h k z = (
    ap (λ r. own r.0) h ∙ law.tcgetattr_keeps q ∙ z,
    no_settings (ap (λ y. (calls.tcgetattr y).1) (sym k) ∙ ap (λ r. r.1) (sym h)),
  )
  posix-KeepsKind n p q (x, ok t) h k z =
      with_speed-KeepsKind n p x t (calls.cfsetspeed n t) refl
        (ap (λ r. own r.0) h ∙ law.tcgetattr_keeps q ∙ z) (ap calls.tcgetattr (sym k) ∙ sym h)

  own-KeepsKind :
      (k n : ℕ) (p q : T) (r : T × IoResult (Unit {0}))
      → r ≡ serial.set_baud_rate n q
      → q ≡ (serial.baud_rate p).0
      → (n == 0) ≡ false
      → KeepsKind (suc k) n p r
  unfolding baud_rate
  own-KeepsKind k n p q (x, err e) h b z =
      not_set (ap (λ y. (serial.set_baud_rate n y).1) (sym b) ∙ ap (λ r. r.1) (sym h))
  own-KeepsKind k n p q (x, ok u) h b z =
      own-Reports n x (serial.baud_rate x) refl
        (ap (λ r. own r.0) h ∙ law.set_baud_rate_lem n q (ap (λ r. r.1) (sym h))) z

  current-KeepsKind :
      (k n : ℕ) (p : T) (r : T × IoResult ℕ)
      → r ≡ serial.baud_rate p
      → own p ≡ k
      → (n == 0) ≡ false
      → KeepsKind k n p (after r (set_speed serial calls n))
  current-KeepsKind zero n p (q, err e) h y z =
      (ap (λ r. own r.0) h ∙ law.baud_rate_keeps p ∙ y, no_speed (ap (λ r. r.1) (sym h)))
  current-KeepsKind (suc k) n p (q, err e) h y z = no_speed (ap (λ r. r.1) (sym h))
  current-KeepsKind zero n p (q, ok c) h y z =
      let e : c ≡ 0 = law.baud_rate_lem p (ap (λ r. r.1) (sym h)) ∙ y in
      if_cases (KeepsKind 0 n p) (c == 0)
        (after (calls.tcgetattr q) (λ t. with_speed serial calls (calls.cfsetspeed n t)))
        (serial.set_baud_rate n q)
        (λ x.
          posix-KeepsKind n p q (calls.tcgetattr q) refl (ap (λ r. r.0) h)
            (ap (λ r. own r.0) h ∙ law.baud_rate_keeps p ∙ y))
        (λ x. absurd (ground (arith, e, x)))
  current-KeepsKind (suc k) n p (q, ok c) h y z =
      let e : c ≡ suc k = law.baud_rate_lem p (ap (λ r. r.1) (sym h)) ∙ y in
      if_cases (KeepsKind (suc k) n p) (c == 0)
        (after (calls.tcgetattr q) (λ t. with_speed serial calls (calls.cfsetspeed n t)))
        (serial.set_baud_rate n q) (λ x. absurd (ground (arith, e, x)))
        (λ x. own-KeepsKind k n p q (serial.set_baud_rate n q) refl (ap (λ r. r.0) h) z)

  refused-KeepsKind :
      (k n : ℕ) (p : T)
      → own p ≡ k
      → n ≡ 0
      → KeepsKind k n p (p, err (invalid "Baud rate must be positive"))
  refused-KeepsKind zero n p h z = (h, zero_rate z refl)
  refused-KeepsKind (suc k) n p h z = zero_rate z refl

  -- A port whose own speed was left alone has it left alone by the setting of a rate, with whatever
  -- result, and success means that its POSIX settings were read and written with the rate; for a
  -- port that has an own speed, once a rate has been set without an error, the rate that is read, if
  -- it can be read, is that one. An error is that for a rate of zero or that of a call which failed.
  pub set_baud_rate-KeepsKind :
      (n : ℕ) (p : T) → KeepsKind (own p) n p (set_baud_rate serial calls n p)
  unfolding set_baud_rate
  set_baud_rate-KeepsKind n p =
      if_cases (KeepsKind (own p) n p) (n == 0) (p, err (invalid "Baud rate must be positive"))
        (after (serial.baud_rate p) (set_speed serial calls n))
        (λ z. refused-KeepsKind (own p) n p refl (ground (arith, z)))
        (λ z. current-KeepsKind (own p) n p (serial.baud_rate p) refl refl z)
