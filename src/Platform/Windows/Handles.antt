-- ===== src/Platform/Windows/Handles.antt =====
-- The handles that `open` of src/platform/windows.rs opens and closes.
use node_serialport_rs.Prelude.{
  ℕ, ◌+◌, ◌-◌, ◌≡◌, refl, sym, ap, subst, ◌∙◌, Option, none, some, List, arith,
}
use node_serialport_rs.Io.{IoError, IoResult, Result, ok, err}
use node_serialport_rs.Settings.{Builder}
use node_serialport_rs.Platform.Unix.Open.{PortError}
use node_serialport_rs.Platform.Windows.{
  WindowsCalls, SerialStream, device_path, dropped, registered, cloned, timed, configured,
  opened_file, with_state, with_name, opened_com, open_stream,
}

-- `handles` counts the open handles of the device: opening and cloning add one, closing takes one
-- away, a handle whose registration fails is closed, and nothing else changes their number.
pub record CountsHandles {W P H S F : Type 0} (calls : WindowsCalls W P H S F) (handles : W → ℕ)
    : Type 0 where
  pub open_com_ok :
      (b : Builder) (w : W) {p : P}
      → (calls.open_com b w).1 ≡ ok p
      → handles (calls.open_com b w).0 ≡ handles w + 1
  pub open_com_err :
      (b : Builder) (w : W) {e : PortError}
      → (calls.open_com b w).1 ≡ err e
      → handles (calls.open_com b w).0 ≡ handles w
  pub get_state_keeps : (p : P) (w : W) → handles (calls.get_state p w).0 ≡ handles w
  pub close_com_lem : (p : P) (w : W) → handles (calls.close_com p w) ≡ handles w - 1
  pub open_file_ok :
      (path : List ℕ) (w : W) {h : H}
      → (calls.open_file path w).1 ≡ ok h
      → handles (calls.open_file path w).0 ≡ handles w + 1
  pub open_file_err :
      (path : List ℕ) (w : W) {e : IoError}
      → (calls.open_file path w).1 ≡ err e
      → handles (calls.open_file path w).0 ≡ handles w
  pub set_state_keeps : (h : H) (s : S) (w : W) → handles (calls.set_state h s w).0 ≡ handles w
  pub set_timeouts_keeps :
      (h : H) (n : ℕ) (w : W) → handles (calls.set_timeouts h n w).0 ≡ handles w
  pub clone_ok :
      (h : H) (w : W) {k : H}
      → (calls.clone h w).1 ≡ ok k
      → handles (calls.clone h w).0 ≡ handles w + 1
  pub clone_err :
      (h : H) (w : W) {e : IoError}
      → (calls.clone h w).1 ≡ err e
      → handles (calls.clone h w).0 ≡ handles w
  pub close_file_lem : (h : H) (w : W) → handles (calls.close_file h w) ≡ handles w - 1
  pub register_ok :
      (h : H) (w : W) {f : F}
      → (calls.register h w).1 ≡ ok f
      → handles (calls.register h w).0 ≡ handles w
  pub register_err :
      (h : H) (w : W) {e : IoError}
      → (calls.register h w).1 ≡ err e
      → handles (calls.register h w).0 ≡ handles w - 1

module _ {W P H S F : Type 0} (calls : WindowsCalls W P H S F) {handles : W → ℕ}
    (law : CountsHandles calls handles) where
  -- Two handles more than `n`, or `n` where the call failed.
  abbrev pub Holds : ℕ → W × Result (SerialStream F H) PortError → Type 0
  Holds n (w, ok s) = handles w ≡ n + 2
  Holds n (w, err e) = handles w ≡ n

  dropped-Holds :
      (n : ℕ) (file : H) (e : IoError) (w : W)
      → handles w ≡ n + 1
      → Holds n (dropped calls file e w)
  dropped-Holds n file e w h = omega (arith, law.close_file_lem file w)

  registered-Holds :
      (n : ℕ) (file control : H) (w : W) (r : W × IoResult F)
      → r ≡ calls.register file w
      → handles w ≡ n + 2
      → Holds n (registered calls control r)
  registered-Holds n file control w (w', ok io) e h =
      ap (λ r. handles r.0) e ∙ law.register_ok file w (ap (λ r. r.1) (sym e)) ∙ h
  registered-Holds n file control w (w', err x) e h =
      let k : handles w' ≡ handles w - 1 =
        ap (λ r. handles r.0) e ∙ law.register_err file w (ap (λ r. r.1) (sym e)) in
      dropped-Holds n control x w' (omega arith)

  cloned-Holds :
      (n : ℕ) (file : H) (w : W) (r : W × IoResult H)
      → r ≡ calls.clone file w
      → handles w ≡ n + 1
      → Holds n (cloned calls file r)
  cloned-Holds n file w (w', ok control) e h =
      let k : handles w' ≡ handles w + 1 =
        ap (λ r. handles r.0) e ∙ law.clone_ok file w (ap (λ r. r.1) (sym e)) in
      registered-Holds n file control w' (calls.register file w') refl (omega arith)
  cloned-Holds n file w (w', err x) e h =
      dropped-Holds n file x w'
        (ap (λ r. handles r.0) e ∙ law.clone_err file w (ap (λ r. r.1) (sym e)) ∙ h)

  timed-Holds :
      (n : ℕ) (file : H) (r : W × IoResult (Unit {0}))
      → handles r.0 ≡ n + 1
      → Holds n (timed calls file r)
  timed-Holds n file (w, ok u) h = cloned-Holds n file w (calls.clone file w) refl h
  timed-Holds n file (w, err x) h = dropped-Holds n file x w h

  configured-Holds :
      (n : ℕ) (file : H) (r : W × IoResult (Unit {0}))
      → handles r.0 ≡ n + 1
      → Holds n (configured calls file r)
  configured-Holds n file (w, ok u) h =
      timed-Holds n file (calls.set_timeouts file 1 w) (law.set_timeouts_keeps file 1 w ∙ h)
  configured-Holds n file (w, err x) h = dropped-Holds n file x w h

  opened_file-Holds :
      (settings : S) (path : List ℕ) (w : W) (r : W × IoResult H)
      → r ≡ calls.open_file path w
      → Holds (handles w) (opened_file calls settings r)
  opened_file-Holds settings path w (w', ok file) e =
      configured-Holds (handles w) file (calls.set_state file settings w') (
        law.set_state_keeps file settings w'
        ∙ ap (λ r. handles r.0) e
        ∙ law.open_file_ok path w (ap (λ r. r.1) (sym e)))
  opened_file-Holds settings path w (w', err x) e =
      ap (λ r. handles r.0) e ∙ law.open_file_err path w (ap (λ r. r.1) (sym e))

  with_state-Holds :
      (n : ℕ) (port : P) (name : List ℕ) (r : W × IoResult S)
      → handles r.0 ≡ n + 1
      → Holds n (with_state calls port name r)
  with_state-Holds n port name (w, ok settings) h =
      let w' = calls.close_com port w in
      let k : handles w' ≡ n = omega (arith, law.close_com_lem port w) in
      subst (λ m. Holds m (with_state calls port name (w, ok settings))) k
        (opened_file-Holds settings (device_path name) w' (calls.open_file (device_path name) w')
          refl)
  with_state-Holds n port name (w, err x) h = omega (arith, law.close_com_lem port w)

  with_name-Holds :
      (n : ℕ) (port : P) (name : Option (List ℕ)) (w : W)
      → handles w ≡ n + 1
      → Holds n (with_name calls port name w)
  with_name-Holds n port (some name) w h =
      with_state-Holds n port name (calls.get_state port w) (law.get_state_keeps port w ∙ h)
  with_name-Holds n port none w h = omega (arith, law.close_com_lem port w)

  opened_com-Holds :
      (b : Builder) (w : W) (r : W × Result P PortError)
      → r ≡ calls.open_com b w
      → Holds (handles w) (opened_com calls r)
  opened_com-Holds b w (w', ok port) e =
      with_name-Holds (handles w) port (calls.name port) w'
        (ap (λ r. handles r.0) e ∙ law.open_com_ok b w (ap (λ r. r.1) (sym e)))
  opened_com-Holds b w (w', err x) e =
      ap (λ r. handles r.0) e ∙ law.open_com_err b w (ap (λ r. r.1) (sym e))

  -- A stream that was opened holds two handles of its device, one for its bytes and one for control;
  -- wherever the opening fails, every handle that it opened is closed again.
  pub open_stream-Holds : (b : Builder) (w : W) → Holds (handles w) (open_stream calls b w)
  unfolding open_stream
  open_stream-Holds b w = opened_com-Holds b w (calls.open_com b w) refl
