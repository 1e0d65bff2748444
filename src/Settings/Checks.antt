-- ===== src/Settings/Checks.antt =====
-- Which options src/settings.rs accepts.
use node_serialport_rs.Prelude.{
  ℕ, ◌≤◌, ◌<◌, ◌≡◌, ◌≢◌, ◌⊎◌, inl, inr, refl, ap, arith, ◌==◌, String, Bool, true, false, not, ◌&&◌,
  ◌||◌, List, [],
}
use node_serialport_rs.Io.{ErrorKind, IoError, IoResult, ok, err, ◌>>=◌, ◌>>◌}
use node_serialport_rs.Serial.{Serial}
use node_serialport_rs.Error.{invalid}
use node_serialport_rs.Settings.{
  Target, other_unix, windows, StopValue, one, one_and_half, two, unlisted, NativeOptions, Builder,
  Opener, is_unix, is_windows, lacks_mark_space, data_bits_of, stop_bits_of, is_mark_space,
  parity_of, is_one_and_half, refuse, has_zero, is_empty, rejections, builder_of, prepared_builder,
  open_with, open_port, configured,
}
use text.Mathlib.TextEquality.{eq_iff}

-- The result is a value exactly where the property holds, and an error of one of two kinds
-- elsewhere.
abbrev IsRefusal : ErrorKind → Type 0
IsRefusal k = (k ≡ ErrorKind.invalid_input) ⊎ (k ≡ ErrorKind.unsupported)

Decides : {A : Type 0} → Type 0 → IoResult A → Type 0
Decides P (ok a) = P
Decides P (err e) = (P → ⊥) × IsRefusal e.kind

module _ (P Q : Type 0) where
  Decides-second : {B : Type 0} (r : IoResult B) → P → Decides Q r → Decides (P × Q) r
  unfolding Decides
  Decides-second (ok b) p q = (p, q)
  Decides-second (err e) p q = (λ x. q.0 x.1, q.1)

  Decides-bind :
      {A B : Type 0} (r : IoResult A) (f : A → IoResult B)
      → Decides P r
      → ((a : A) → Decides Q (f a))
      → Decides (P × Q) (r >>= f)
  unfolding Decides
  Decides-bind (ok a) f h k = Decides-second (f a) h (k a)
  Decides-bind (err e) f h k = (λ x. h.0 x.0, h.1)

  Decides-then :
      {B : Type 0} (r : IoResult (Unit {0})) (r' : IoResult B)
      → Decides P r
      → Decides Q r'
      → Decides (P × Q) (r >> r')
  unfolding Decides
  Decides-then (ok a) r' h k = Decides-second r' h k
  Decides-then (err e) r' h k = (λ x. h.0 x.0, h.1)

  -- The property may be put in other words.
  Decides-iff : {B : Type 0} (r : IoResult B) → (P → Q) → (Q → P) → Decides P r → Decides Q r
  unfolding Decides
  Decides-iff (ok b) f g h = f h
  Decides-iff (err e) f g h = (λ q. h.0 (g q), h.1)

refuse-Decides :
    (P : Type 0) (b : Bool) (e : IoError)
    → (b ≡ false → P)
    → (P → b ≡ false)
    → IsRefusal e.kind
    → Decides P (refuse b e)
unfolding Decides
refuse-Decides P true e f g k = (λ p. absurd (true_false (g p)), k)
  where
    true_false : true ≡ false → ⊥
    true_false h = cc
refuse-Decides P false e f g k = f refl

bits-Decides : (n : ℕ) → Decides ((5 ≤ n) × (n ≤ 8)) (data_bits_of n)
unfolding Decides data_bits_of invalid
bits-Decides n = ground arith

stops-Decides : (v : StopValue) → Decides ((n : ℕ) → v ≢ unlisted n) (stop_bits_of v)
unfolding Decides invalid
stops-Decides one = λ n e. cc
stops-Decides one_and_half = λ n e. cc
stops-Decides two = λ n e. cc
stops-Decides (unlisted n) = (λ h. h n refl, inl refl)

-- The parities that the code knows.
abbrev IsParity : String → Type 0
IsParity p = (p ≡ "none") ⊎ (p ≡ "odd") ⊎ (p ≡ "even") ⊎ (p ≡ "mark") ⊎ (p ≡ "space")

IsParity-Decides : (p : String) → Decides (IsParity p) (parity_of p)
unfolding Decides parity_of invalid
IsParity-Decides p =
    ground
      (arith, eq_iff p "none", eq_iff p "odd", eq_iff p "even", eq_iff p "mark", eq_iff p "space")

-- What the options must satisfy, each by itself.
pub record IsValid (target : Target) (o : NativeOptions) : Type 0 where
  pub bits : (5 ≤ o.data_bits) × (o.data_bits ≤ 8)
  pub stops : (n : ℕ) → o.stop_bits ≢ unlisted n
  pub parity : IsParity o.parity
  pub half : o.stop_bits ≡ one_and_half → target ≡ windows
  pub mark_space : (o.parity ≡ "mark") ⊎ (o.parity ≡ "space") → target ≢ other_unix
  pub exclusive : target ≡ windows → o.lock ≡ true
  pub path : (o.path ≢ []) × (has_zero o.path ≡ false)
  pub speed : 0 < o.baud_rate

half-Decides :
    (target : Target) (v : StopValue)
    → (((is_unix target && is_one_and_half v) ≡ false) → v ≡ one_and_half → target ≡ windows)
      × ((v ≡ one_and_half → target ≡ windows) → (is_unix target && is_one_and_half v) ≡ false)
half-Decides target v = ground arith

mark_space-Decides :
    (target : Target) (p : String)
    → (((lacks_mark_space target && is_mark_space p) ≡ false)
        → (p ≡ "mark") ⊎ (p ≡ "space")
        → target ≢ other_unix)
      × (((p ≡ "mark") ⊎ (p ≡ "space") → target ≢ other_unix)
          → (lacks_mark_space target && is_mark_space p) ≡ false)
mark_space-Decides target p = ground (arith, eq_iff p "mark", eq_iff p "space")

lock-Decides :
    (target : Target) (b : Bool)
    → (((is_windows target && not b) ≡ false) → target ≡ windows → b ≡ true)
      × ((target ≡ windows → b ≡ true) → (is_windows target && not b) ≡ false)
lock-Decides target b = ground arith

path-Decides :
    (p : List ℕ)
    → (((is_empty p || has_zero p) ≡ false) → (p ≢ []) × (has_zero p ≡ false))
      × ((p ≢ []) × (has_zero p ≡ false) → (is_empty p || has_zero p) ≡ false)
path-Decides p = ground arith

speed-Decides : (n : ℕ) → (((n == 0) ≡ false) → 0 < n) × (0 < n → (n == 0) ≡ false)
speed-Decides n = ground arith

-- A check that is stated with a test's two directions.
test-Decides :
    {P : Type 0} (b : Bool) (e : IoError)
    → (b ≡ false → P) × (P → b ≡ false)
    → IsRefusal e.kind
    → Decides P (refuse b e)
test-Decides {P} b e h k = refuse-Decides P b e h.0 h.1 k

accepted-Decides : {A : Type 0} (a : A) → Decides (Unit {0}) (ok a)
unfolding Decides
accepted-Decides a = tt

prepared_builder-Decides :
    (target : Target) (o : NativeOptions) → Decides (IsValid target o) (prepared_builder target o)
unfolding prepared_builder rejections invalid
prepared_builder-Decides target o =
    Decides-iff _ _ (prepared_builder target o)
      (λ h. record {
        bits = h.0;
        stops = h.1.0;
        parity = h.1.1.0;
        half = h.1.1.1.0.0;
        mark_space = h.1.1.1.0.1.0;
        exclusive = h.1.1.1.0.1.1.0;
        path = h.1.1.1.0.1.1.1.0;
        speed = h.1.1.1.0.1.1.1.1;
      })
      (λ v. (
        v.bits,
        (v.stops, (v.parity, ((v.half, (v.mark_space, (v.exclusive, (v.path, v.speed)))), tt))),
      ))
      (Decides-bind _ _ (data_bits_of o.data_bits) _ (bits-Decides o.data_bits) (λ bits.
        Decides-bind _ _ (stop_bits_of o.stop_bits) _ (stops-Decides o.stop_bits) (λ stops.
          Decides-bind _ _ (parity_of o.parity) _ (IsParity-Decides o.parity) (λ parity.
            Decides-then _ _ (rejections target o) (ok (builder_of target o bits stops parity))
              (Decides-then _ _ _ _ (test-Decides _ _ (half-Decides target o.stop_bits) (inr refl))
                (Decides-then _ _ _ _
                  (test-Decides _ _ (mark_space-Decides target o.parity) (inr refl))
                  (Decides-then _ _ _ _ (test-Decides _ _ (lock-Decides target o.lock) (inr refl)) (
                    Decides-then _ _ _ _ (test-Decides _ _ (path-Decides o.path) (inl refl))
                      (test-Decides _ _ (speed-Decides o.baud_rate) (inl refl))))))
              (accepted-Decides (builder_of target o bits stops parity))))))

-- How `open` ends, from whether the options are valid.
abbrev pub Opens : {W T : Type 0} → Serial T → Opener W T → Target → NativeOptions → W → Type 0
Opens {W} {T} serial opener target o w =
    let r = open_port serial opener target o w in
    (IsValid target o
      × ((b : Builder) × (prepared_builder target o ≡ ok b)
          × (r ≡ configured serial opener o (opener.open_device b w))))
    ⊎ ((IsValid target o → ⊥) × ((e : IoError) × (r ≡ (w, err e)) × IsRefusal e.kind))

Opens-from :
    {W T : Type 0} (serial : Serial T) (opener : Opener W T) (target : Target) (o : NativeOptions)
    (w : W) (r : IoResult Builder)
    → prepared_builder target o ≡ r
    → Decides (IsValid target o) r
    → Opens serial opener target o w
unfolding Decides open_port
Opens-from serial opener target o w (ok b) e h = inl (h, (b, e, ap (open_with serial opener o w) e))
Opens-from serial opener target o w (err x) e h =
    inr (h.0, (x, ap (open_with serial opener o w) e, h.1))

-- Valid options are opened: the device is asked once, and its answer is configured. With any
-- others nothing is asked of the system, which stays as it is, and the error is one of invalid
-- input or of an unsupported setting.
pub open_port-Opens :
    {W T : Type 0} (serial : Serial T) (opener : Opener W T) (target : Target) (o : NativeOptions)
    (w : W)
    → Opens serial opener target o w
open_port-Opens serial opener target o w =
    Opens-from serial opener target o w (prepared_builder target o) refl
      (prepared_builder-Decides target o)
