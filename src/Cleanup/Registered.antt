-- ===== src/Cleanup/Registered.antt =====
-- A control in the registry of its environment (src/lib.rs, `register_cleanup`), and what is kept of it
-- by all that happens to the registries.
use node_serialport_rs.Prelude.{
  ℕ, suc, ◌<◌, ◌≡◌, ◌≢◌, refl, sym, ap, subst, ◌∙◌, ◌==◌, ◌&&◌, ◌||◌, if_cases, Bool, true, false,
  Option, none, some, List, [], ◌∷◌, All, arith, Bool-cases, inl, inr, ==_iff,
}
use node_serialport_rs.Io.{ok, err}
use node_serialport_rs.Event.{JsResult}
use node_serialport_rs.Cleanup.{
  Shared, Environments, set_at, poisoned_error, push, with_entry, register_cleanup, stop_all,
  run_hook,
}
use node_serialport_rs.Cleanup.Sessions.{
  has, set_at-updated, Lists, stop_all-alive, with_session, with_session-Lists,
}

-- What may happen to the registries: another port is opened, the last strong reference to a control
-- goes, or Node runs a hook.
pub data Event (T : Type 0) : Type 0 where
  registers : JsResult (Unit {0}) → ℕ → ℕ → Event T
  releases : ℕ → Event T
  runs : ℕ → ℕ → Event T

abbrev pub has_hook : ℕ → ℕ → List (ℕ × ℕ) → Bool
has_hook key rid [] = false
has_hook key rid ((k, r) ∷ hooks) = (k == key && r == rid) || has_hook key rid hooks

pub not_sym : (i j : ℕ) → (i == j) ≡ false → (j == i) ≡ false
not_sym i j h = ground arith

pub absent : {A : Type 0} {a : A} → some a ≢ none
absent e = cc

module _ {T : Type 0} where
  abbrev pub happen : Event T → Environments T → Environments T
  happen (registers hook key control) s = (register_cleanup hook key control s).0
  happen (releases i) s = record s {
    controls = set_at i (record (s.controls i) { alive = false }) s.controls;
  }
  happen (runs key rid) s = run_hook key rid s

  abbrev pub happen_all : List (Event T) → Environments T → Environments T
  happen_all [] s = s
  happen_all (e ∷ es) s = happen_all es (happen e s)

  -- The event leaves the control alive and the environment's hook alone.
  abbrev pub Spares : ℕ → ℕ → Event T → Type 0
  Spares key control (registers hook k c) = Unit {0}
  Spares key control (releases i) = (i == control) ≡ false
  Spares key control (runs k rid) = (k == key) ≡ false

  -- Each registry that is in use is below `next`, and Node has its hook.
  abbrev pub IsOrderly : Environments T → Type 0
  IsOrderly s =
      (key rid : ℕ)
      → s.registry_of key ≡ some rid
      → (rid < s.next) × (has_hook key rid s.hooks ≡ true)

  -- A control that is alive is in the registry of the environment, whose hook Node was given.
  pub record IsRegistered (key control : ℕ) (s : Environments T) : Type 0 where
    pub rid : ℕ
    pub entry : s.registry_of key ≡ some rid
    pub listed :
        ((s.registries rid).poisoned ≡ false) × (has control (s.registries rid).sessions ≡ true)
    pub hooked : has_hook key rid s.hooks ≡ true
    pub fresh : rid < s.next
    pub living : (s.controls control).alive ≡ true

  -- What the events keep of a registration.
  pub push-IsRegistered :
      (key control rid c : ℕ) (s : Environments T)
      → IsRegistered key control s
      → IsRegistered key control (push rid c s).0
  push-IsRegistered key control rid c s r =
      let next = set_at rid (with_session s c (s.registries rid)) s.registries in
      if_cases (λ (q : Environments T × JsResult (Unit {0})). IsRegistered key control q.0)
        (s.registries rid).poisoned (s, err poisoned_error) (record s { registries = next }, ok tt)
        (λ _. r)
        (λ _. record {
          rid = r.rid;
          entry = r.entry;
          listed =
              subst (Lists control) (sym (set_at-updated s.registries (with_session s c) rid r.rid))
                (if_cases (Lists control) (r.rid == rid) (with_session s c (s.registries r.rid))
                  (s.registries r.rid)
                  (λ e. with_session-Lists s control c (s.registries r.rid) r.living r.listed)
                  (λ e. r.listed));
          hooked = r.hooked;
          fresh = r.fresh;
          living = r.living;
        })

  -- The state in which a new environment's registry is there and empty.
  abbrev pub entered : ℕ → Environments T → Environments T
  entered key s = record s {
    registry_of = set_at key (some s.next) s.registry_of;
    registries = set_at s.next (record { poisoned = false; sessions = [] }) s.registries;
    next = suc s.next;
    hooks = (key, s.next) ∷ s.hooks;
  }

  pub entered-IsRegistered :
      (key control k : ℕ) (s : Environments T)
      → s.registry_of k ≡ none
      → IsRegistered key control s
      → IsRegistered key control (entered k s)
  entered-IsRegistered key control k s v r =
      let apart : (key == k) ≡ false = elim (Bool-cases (key == k)) [
        | inl e ↦ absurd (absent (sym r.entry ∙ ap s.registry_of ((==_iff key k).0 e) ∙ v))
        | inr e ↦ e
      ] in
      let older : (r.rid == s.next) ≡ false = ground (arith, r.fresh) in
      record {
        rid = r.rid;
        entry = rw apart r.entry;
        listed = rw older r.listed;
        hooked = ground (arith, r.hooked);
        fresh = omega (arith, r.fresh);
        living = r.living;
      }

  pub entry-IsRegistered :
      (hook : JsResult (Unit {0})) (key control k c : ℕ) (s : Environments T) (o : Option ℕ)
      → o ≡ s.registry_of k
      → IsRegistered key control s
      → IsRegistered key control (with_entry hook k c s o).0
  entry-IsRegistered hook key control k c s (some rid) e r = push-IsRegistered key control rid c s r
  entry-IsRegistered (err x) key control k c s none e r = r
  entry-IsRegistered (ok u) key control k c s none e r =
      push-IsRegistered key control s.next c (entered k s)
        (entered-IsRegistered key control k s (sym e) r)

  pub happen-IsRegistered :
      (key control : ℕ) (e : Event T) (s : Environments T)
      → Spares key control e
      → IsRegistered key control s
      → IsRegistered key control (happen e s)
  unfolding register_cleanup run_hook
  happen-IsRegistered key control (registers hook k c) s h r =
      if_cases (λ (q : Environments T × JsResult (Unit {0})). IsRegistered key control q.0)
        s.poisoned (s, err poisoned_error) (with_entry hook k c s (s.registry_of k)) (λ _. r)
        (λ _. entry-IsRegistered hook key control k c s (s.registry_of k) refl r)
  happen-IsRegistered key control (releases i) s h r = record {
    rid = r.rid;
    entry = r.entry;
    listed = r.listed;
    hooked = r.hooked;
    fresh = r.fresh;
    living = ground (arith, h, r.living);
  }
  happen-IsRegistered key control (runs k rid) s h r = record {
    rid = r.rid;
    entry =
        if_cases (λ (f : ℕ → Option ℕ). f key ≡ some r.rid) s.poisoned s.registry_of
          (set_at k none s.registry_of) (λ _. r.entry) (λ _. rw (not_sym k key h) r.entry);
    listed = r.listed;
    hooked = r.hooked;
    fresh = r.fresh;
    living =
        if_cases (λ (f : ℕ → Shared T). (f control).alive ≡ true) (s.registries rid).poisoned
          s.controls (stop_all (s.registries rid).sessions s.controls) (λ _. r.living)
          (λ _. stop_all-alive (s.registries rid).sessions s.controls control ∙ r.living);
  }

  pub happen_all-IsRegistered :
      (key control : ℕ) (es : List (Event T)) (s : Environments T)
      → All (Spares key control) es
      → IsRegistered key control s
      → IsRegistered key control (happen_all es s)
  happen_all-IsRegistered key control [] s h r = r
  happen_all-IsRegistered key control (e ∷ es) s h r =
      happen_all-IsRegistered key control es (happen e s) h.1
        (happen-IsRegistered key control e s h.0 r)
