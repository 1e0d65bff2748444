-- ===== src/Platform/Termios/Flags.antt =====
-- Which settings `configure` of src/platform.rs writes in the builds for Unix.
use node_serialport_rs.Prelude.{◌≡◌, refl, Bool, true, false, ℕ, String}
use node_serialport_rs.Io.{IoResult, ok, err}
use node_serialport_rs.Serial.{after}
use node_serialport_rs.Settings.{
  NativeOptions, Target, linux, android, other_unix, windows, is_mark_space,
}
use node_serialport_rs.Platform.Termios.{
  InputFlag, ixon, ixoff, ixany, other_input, hupcl, cmspar, parenb, parodd, other_control, Termios,
  TermiosCalls, set_input, set_control, with_parity, changed, configure,
}
use text.Mathlib.Text.{◌==◌ as str_eq}

module _ {R : Type 0} where
  -- The three flags of parity, before and after.
  abbrev pub KeepsParity : Termios R → Termios R → Type 0
  KeepsParity old new =
      (new.control_flags cmspar ≡ old.control_flags cmspar)
      × (new.control_flags parenb ≡ old.control_flags parenb)
      × (new.control_flags parodd ≡ old.control_flags parodd)

  abbrev pub HasMarkSpace : String → Termios R → Termios R → Type 0
  HasMarkSpace parity old new =
      (parity ≡ "mark"
        → (new.control_flags cmspar ≡ true)
          × (new.control_flags parenb ≡ true)
          × (new.control_flags parodd ≡ true))
      × (parity ≡ "space"
          → (new.control_flags cmspar ≡ true)
            × (new.control_flags parenb ≡ true)
            × (new.control_flags parodd ≡ false))
      × (is_mark_space parity ≡ false
          → (new.control_flags cmspar ≡ false)
            × (new.control_flags parenb ≡ old.control_flags parenb)
            × (new.control_flags parodd ≡ old.control_flags parodd))

  abbrev pub HasParity : Target → String → Termios R → Termios R → Type 0
  HasParity linux parity old new = HasMarkSpace parity old new
  HasParity android parity old new = HasMarkSpace parity old new
  HasParity other_unix parity old new = KeepsParity old new
  HasParity windows parity old new = KeepsParity old new

  -- The flags are as the options say, and nothing else is touched.
  pub record HasOptions (target : Target) (o : NativeOptions) (old new : Termios R) : Type 0 where
    pub ixon_lem : new.input_flags ixon ≡ o.xon
    pub ixoff_lem : new.input_flags ixoff ≡ o.xoff
    pub ixany_lem : new.input_flags ixany ≡ o.xany
    pub other_input_lem :
        (n : ℕ) → new.input_flags (other_input n) ≡ old.input_flags (other_input n)
    pub hupcl_lem : new.control_flags hupcl ≡ o.hupcl
    pub parity_lem : HasParity target o.parity old new
    pub other_control_lem :
        (n : ℕ) → new.control_flags (other_control n) ≡ old.control_flags (other_control n)
    pub rest_lem : new.rest ≡ old.rest

  abbrev without_parity : NativeOptions → Termios R → Termios R
  without_parity o t =
      set_control hupcl o.hupcl
        (set_input ixany o.xany (set_input ixoff o.xoff (set_input ixon o.xon t)))

  mark_space-HasMarkSpace :
      (parity : String) (t : Termios R)
      → HasMarkSpace parity t (with_parity (is_mark_space parity) (str_eq parity "mark") t)
  mark_space-HasMarkSpace parity t =
      (λ e. rw e (refl, refl, refl), λ e. rw e (refl, refl, refl), λ e. rw e (refl, refl, refl))

  -- Only the flags of parity are touched by the block for Linux and Android.
  record IsApart (old new : Termios R) : Type 0 where
    input_lem : (f : InputFlag) → new.input_flags f ≡ old.input_flags f
    hupcl_lem : new.control_flags hupcl ≡ old.control_flags hupcl
    other_lem : (n : ℕ) → new.control_flags (other_control n) ≡ old.control_flags (other_control n)
    rest_lem : new.rest ≡ old.rest

  parity-IsApart : (sticky mark : Bool) (t : Termios R) → IsApart t (with_parity sticky mark t)
  parity-IsApart true mark t = record {
    input_lem = λ f. refl;
    hupcl_lem = refl;
    other_lem = λ n. refl;
    rest_lem = refl;
  }
  parity-IsApart false mark t = record {
    input_lem = λ f. refl;
    hupcl_lem = refl;
    other_lem = λ n. refl;
    rest_lem = refl;
  }

  sticky-HasOptions :
      (target : Target) (o : NativeOptions) (t new : Termios R)
      → IsApart (without_parity o t) new
      → HasParity target o.parity t new
      → HasOptions target o t new
  sticky-HasOptions target o t new a h = record {
    ixon_lem = a.input_lem ixon;
    ixoff_lem = a.input_lem ixoff;
    ixany_lem = a.input_lem ixany;
    other_input_lem = λ n. a.input_lem (other_input n);
    hupcl_lem = a.hupcl_lem;
    parity_lem = h;
    other_control_lem = a.other_lem;
    rest_lem = a.rest_lem;
  }

  unchanged-IsApart : (t : Termios R) → IsApart t t
  unchanged-IsApart t = record {
    input_lem = λ f. refl;
    hupcl_lem = refl;
    other_lem = λ n. refl;
    rest_lem = refl;
  }

  changed-HasOptions :
      (target : Target) (o : NativeOptions) (t : Termios R)
      → HasOptions target o t (changed target o t)
  changed-HasOptions linux o t =
      sticky-HasOptions linux o t (changed linux o t)
        (parity-IsApart (is_mark_space o.parity) (str_eq o.parity "mark") (without_parity o t))
        (mark_space-HasMarkSpace o.parity (without_parity o t))
  changed-HasOptions android o t =
      sticky-HasOptions android o t (changed android o t)
        (parity-IsApart (is_mark_space o.parity) (str_eq o.parity "mark") (without_parity o t))
        (mark_space-HasMarkSpace o.parity (without_parity o t))
  changed-HasOptions other_unix o t =
      sticky-HasOptions other_unix o t (changed other_unix o t)
        (unchanged-IsApart (without_parity o t)) (refl, refl, refl)
  changed-HasOptions windows o t =
      sticky-HasOptions windows o t (changed windows o t) (unchanged-IsApart (without_parity o t))
        (refl, refl, refl)

module _ {T R : Type 0} (calls : TermiosCalls T R) where
  abbrev pub Configures :
      Target → NativeOptions → T × IoResult (Termios R) → T × IoResult (Unit {0}) → Type 0
  Configures target o (p, ok old) r =
      (new : Termios R) × HasOptions target o old new × (r ≡ calls.tcsetattr new p)
  Configures target o (p, err e) r = r ≡ (p, err e)

  configured-Configures :
      (target : Target) (o : NativeOptions) (a : T × IoResult (Termios R))
      → Configures target o a (after a (λ t. calls.tcsetattr (changed target o t)))
  configured-Configures target o (p, ok old) =
      (changed target o old, changed-HasOptions target o old, refl)
  configured-Configures target o (p, err e) = refl

  -- Where the settings of a port can be read, they are written back once, with the flow control, the
  -- hang-up flag and, on Linux and Android, the mark or space parity of the options, and with nothing
  -- else changed; where they cannot, that error is the result and nothing is written.
  pub configure-Configures :
      (target : Target) (o : NativeOptions) (port : T)
      → Configures target o (calls.tcgetattr port) (configure calls target o port)
  unfolding configure
  configure-Configures target o port = configured-Configures target o (calls.tcgetattr port)
