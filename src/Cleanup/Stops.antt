-- ===== src/Cleanup/Stops.antt =====
-- Which controls the hook of src/lib.rs, `register_cleanup`, stops.
use node_serialport_rs.Prelude.{
  ℕ, ◌<◌, ◌≡◌, refl, sym, subst, ◌∙◌, ◌==◌, if_cases, true, Option, none, some, List, [], ◌∷◌, All,
  arith, Bool-cases, inl, inr,
}
use node_serialport_rs.Io.{ok, err}
use node_serialport_rs.Event.{JsResult}
use node_serialport_rs.Cleanup.{
  Environments, set_at, poisoned_error, retained, push, with_entry, register_cleanup, run_hook,
}
use node_serialport_rs.Cleanup.Sessions.{
  has-append, set_at-there, set_at-elsewhere, Lists, stop_all-stopped, with_session,
}
use node_serialport_rs.Cleanup.Registered.{
  Event, registers, releases, runs, has_hook, absent, happen, happen_all, Spares, IsOrderly,
  IsRegistered, entered, happen_all-IsRegistered,
}

module _ {T : Type 0} where
  -- The bookkeeping of the registries, from a start without any.
  push-IsOrderly : (rid c : ℕ) (s : Environments T) → IsOrderly s → IsOrderly (push rid c s).0
  push-IsOrderly rid c s h =
      let next = set_at rid (with_session s c (s.registries rid)) s.registries in
      if_cases (λ (q : Environments T × JsResult (Unit {0})). IsOrderly q.0)
        (s.registries rid).poisoned (s, err poisoned_error) (record s { registries = next }, ok tt)
        (λ _. h) (λ _. h)

  entered-IsOrderly : (k : ℕ) (s : Environments T) → IsOrderly s → IsOrderly (entered k s)
  entered-IsOrderly k s h key rid e = elim (Bool-cases (key == k)) [
    | inl b ↦
        let first : some s.next ≡ some rid =
          sym (set_at-there s.registry_of (some s.next) k key b) ∙ e in
        let new : s.next ≡ rid = cc in (omega (arith, new), ground (arith, new, b))
    | inr b ↦
        let old = h key rid (sym (set_at-elsewhere s.registry_of (some s.next) k key b) ∙ e) in
        (omega (arith, old.0), ground (arith, old.1))
  ]

  entry-IsOrderly :
      (hook : JsResult (Unit {0})) (k c : ℕ) (s : Environments T) (o : Option ℕ)
      → IsOrderly s
      → IsOrderly (with_entry hook k c s o).0
  entry-IsOrderly hook k c s (some rid) h = push-IsOrderly rid c s h
  entry-IsOrderly (err x) k c s none h = h
  entry-IsOrderly (ok u) k c s none h =
      push-IsOrderly s.next c (entered k s) (entered-IsOrderly k s h)

  happen-IsOrderly : (e : Event T) (s : Environments T) → IsOrderly s → IsOrderly (happen e s)
  unfolding register_cleanup run_hook
  happen-IsOrderly (registers hook k c) s h =
      if_cases (λ (q : Environments T × JsResult (Unit {0})). IsOrderly q.0) s.poisoned
        (s, err poisoned_error) (with_entry hook k c s (s.registry_of k)) (λ _. h)
        (λ _. entry-IsOrderly hook k c s (s.registry_of k) h)
  happen-IsOrderly (releases i) s h = h
  happen-IsOrderly (runs k r) s h =
      if_cases
        (λ (f : ℕ → Option ℕ).
          (key rid : ℕ) → f key ≡ some rid → (rid < s.next) × (has_hook key rid s.hooks ≡ true))
        s.poisoned s.registry_of (set_at k none s.registry_of) (λ _. h)
        (λ _. λ key rid e. elim (Bool-cases (key == k)) [
          | inl b ↦ absurd (absent (sym e ∙ set_at-there s.registry_of none k key b))
          | inr b ↦ h key rid (sym (set_at-elsewhere s.registry_of none k key b) ∙ e)
        ])

  pub happen_all-IsOrderly :
      (es : List (Event T)) (s : Environments T) → IsOrderly s → IsOrderly (happen_all es s)
  happen_all-IsOrderly [] s h = h
  happen_all-IsOrderly (e ∷ es) s h = happen_all-IsOrderly es (happen e s) (happen-IsOrderly e s h)

  -- A registration that succeeds.
  push-registers :
      (key control rid : ℕ) (s : Environments T)
      → IsOrderly s
      → s.registry_of key ≡ some rid
      → (s.controls control).alive ≡ true
      → (push rid control s).1 ≡ ok tt
      → IsRegistered key control (push rid control s).0
  push-registers key control rid s h e a =
      let registry = with_session s control (s.registries rid) in
      if_cases
        (λ (q : Environments T × JsResult (Unit {0})). q.1 ≡ ok tt → IsRegistered key control q.0)
        (s.registries rid).poisoned (s, err poisoned_error)
        (record s { registries = set_at rid registry s.registries }, ok tt) (λ _ k. absurd cc)
        (λ p k. record {
          rid = rid;
          entry = e;
          listed =
              subst (Lists control)
                (sym (set_at-there s.registries registry rid rid (ground arith)))
                (
                  p,
                  has-append control (retained s.controls (s.registries rid).sessions) control
                      ∙ ground arith,
                );
          hooked = (h key rid e).1;
          fresh = (h key rid e).0;
          living = a;
        })

  entry-registers :
      (hook : JsResult (Unit {0})) (key control : ℕ) (s : Environments T) (o : Option ℕ)
      → o ≡ s.registry_of key
      → IsOrderly s
      → (s.controls control).alive ≡ true
      → (with_entry hook key control s o).1 ≡ ok tt
      → IsRegistered key control (with_entry hook key control s o).0
  entry-registers hook key control s (some rid) e h a k =
      push-registers key control rid s h (sym e) a k
  entry-registers (err x) key control s none e h a k = absurd cc
  entry-registers (ok u) key control s none e h a k =
      push-registers key control s.next (entered key s) (entered-IsOrderly key s h)
        (set_at-there s.registry_of (some s.next) key key (ground arith)) a k

  pub registers-IsRegistered :
      (hook : JsResult (Unit {0})) (key control : ℕ) (s : Environments T)
      → IsOrderly s
      → (s.controls control).alive ≡ true
      → (register_cleanup hook key control s).1 ≡ ok tt
      → IsRegistered key control (register_cleanup hook key control s).0
  unfolding register_cleanup
  registers-IsRegistered hook key control s h a =
      if_cases
        (λ (q : Environments T × JsResult (Unit {0})). q.1 ≡ ok tt → IsRegistered key control q.0)
        s.poisoned (s, err poisoned_error) (with_entry hook key control s (s.registry_of key))
        (λ _ k. absurd cc) (λ _. entry-registers hook key control s (s.registry_of key) refl h a)

  -- The hook of the environment that Node was given stops the control.
  abbrev pub HookStops : ℕ → ℕ → Environments T → Type 0
  HookStops key control s =
      (rid : ℕ) × (has_hook key rid s.hooks ≡ true)
      × (((run_hook key rid s).controls control).control.stopped ≡ true)

  pub IsRegistered-HookStops :
      (key control : ℕ) (s : Environments T) → IsRegistered key control s → HookStops key control s
  unfolding run_hook
  IsRegistered-HookStops key control s r =
      let registry = s.registries r.rid in
      (
        r.rid,
        r.hooked,
        rw r.listed.0 (stop_all-stopped registry.sessions s.controls control r.living r.listed.1),
      )

  -- After any history from a start without registries, a port that is registered with its
  -- environment is stopped when that environment's hook runs, if it is still referred to and the
  -- hook has not run before, however many other ports are opened and dropped and other environments
  -- end in between.
  pub register_cleanup-HookStops :
      (earlier : List (Event T)) (hook : JsResult (Unit {0})) (key control : ℕ)
      (later : List (Event T))
      → (start : Environments T) → ((k : ℕ) → start.registry_of k ≡ none)
      → let s = happen_all earlier start in
        (s.controls control).alive ≡ true
        → (register_cleanup hook key control s).1 ≡ ok tt
        → All (Spares key control) later
        → HookStops key control (happen_all later (register_cleanup hook key control s).0)
  register_cleanup-HookStops earlier hook key control later start v a k h =
      let s = happen_all earlier start in
      let t = (register_cleanup hook key control s).0 in
      IsRegistered-HookStops key control (happen_all later t) (
        happen_all-IsRegistered key control later t h (
          registers-IsRegistered hook key control s
            (happen_all-IsOrderly earlier start (λ k' rid e. absurd (absent (sym e ∙ v k')))) a k))
