-- ===== src/Listing/Metadata/Close.antt =====
-- The device sets that `enrich` of src/platform/windows_list/os.rs opens and destroys.
use node_serialport_rs.Prelude.{
  ℕ, zero, suc, ◌+◌, ◌-◌, ◌≡◌, refl, sym, ap, ◌∙◌, if_cases, Option, none, some, List, [], ◌∷◌,
  arith,
}
use node_serialport_rs.Listing.{PortInfo}
use node_serialport_rs.Listing.Metadata.{
  SetupApi, has_port, metadata_of, with_name, with_device, enumerate, with_set, classes, enrich,
}

-- `sets` counts the device sets that are open: opening one adds one, destroying one takes one away,
-- and nothing else changes their number.
pub record CountsSets {W S D : Type 0} (api : SetupApi W S D) (sets : W → ℕ) : Type 0 where
  pub class_devices_none :
      (c : ℕ) (w : W) → (api.class_devices c w).1 ≡ none → sets (api.class_devices c w).0 ≡ sets w
  pub class_devices_some :
      (c : ℕ) (w : W) {s : S}
      → (api.class_devices c w).1 ≡ some s
      → sets (api.class_devices c w).0 ≡ sets w + 1
  pub destroy_lem : (s : S) (w : W) → sets (api.destroy s w) ≡ sets w - 1
  pub enum_device_lem : (s : S) (i : ℕ) (w : W) → sets (api.enum_device s i w).0 ≡ sets w
  pub port_name_lem : (s : S) (d : D) (w : W) → sets (api.port_name s d w).0 ≡ sets w
  pub instance_id_lem : (s : S) (d : D) (w : W) → sets (api.instance_id s d w).0 ≡ sets w
  pub parent_id_lem : (d : D) (w : W) → sets (api.parent_id d w).0 ≡ sets w
  pub manufacturer_lem : (s : S) (d : D) (w : W) → sets (api.manufacturer s d w).0 ≡ sets w
  pub location_lem : (s : S) (d : D) (w : W) → sets (api.location s d w).0 ≡ sets w
  pub friendly_name_lem : (s : S) (d : D) (w : W) → sets (api.friendly_name s d w).0 ≡ sets w

module _ {W S D : Type 0} (api : SetupApi W S D) {sets : W → ℕ} (law : CountsSets api sets) where
  metadata_of-keeps :
      (set : S) (device : D) (w : W) → sets (metadata_of api set device w).0 ≡ sets w
  metadata_of-keeps set device w =
      let w1 = (api.instance_id set device w).0 in
      let w2 = (api.parent_id device w1).0 in
      let w3 = (api.manufacturer set device w2).0 in
      let w4 = (api.location set device w3).0 in
      law.friendly_name_lem set device w4
      ∙ law.location_lem set device w3
      ∙ law.manufacturer_lem set device w2
      ∙ law.parent_id_lem device w1
      ∙ law.instance_id_lem set device w

  with_name-keeps :
      (set : S) (device : D) (ps : List PortInfo) (r : W × Option (List ℕ))
      → sets (with_name api set device ps r).0 ≡ sets r.0
  with_name-keeps set device ps (w, none) = refl
  with_name-keeps set device ps (w, some name) =
      if_cases (λ (r : W × List PortInfo). sets r.0 ≡ sets w) (has_port name ps) _ _
        (λ h. metadata_of-keeps set device w) (λ h. refl)

  with_device-keeps :
      (next : W → List PortInfo → W × List PortInfo)
      → ((w : W) (qs : List PortInfo) → sets (next w qs).0 ≡ sets w)
      → (set : S) (ps : List PortInfo) (r : W × Option D)
      → sets (with_device api next set ps r).0 ≡ sets r.0
  with_device-keeps next h set ps (w, none) = refl
  with_device-keeps next h set ps (w, some device) =
      let r = with_name api set device ps (api.port_name set device w) in
      h r.0 r.1
      ∙ with_name-keeps set device ps (api.port_name set device w)
      ∙ law.port_name_lem set device w

  enumerate-keeps :
      (rounds : ℕ) (set : S) (index : ℕ) (w : W) (ps : List PortInfo)
      → sets (enumerate api rounds set index w ps).0 ≡ sets w
  unfolding enumerate
  enumerate-keeps zero set index w ps = refl
  enumerate-keeps (suc rounds) set index w ps =
      with_device-keeps (λ w' qs. enumerate api rounds set (index + 1) w' qs)
        (λ w' qs. enumerate-keeps rounds set (index + 1) w' qs) set ps (api.enum_device set index w)
      ∙ law.enum_device_lem set index w

  with_set-keeps :
      (rounds c : ℕ) (w : W) (ps : List PortInfo) (r : W × Option S)
      → r ≡ api.class_devices c w
      → sets (with_set api rounds ps r).0 ≡ sets w
  with_set-keeps rounds c w ps (w', none) e =
      ap (λ r. sets r.0) e ∙ law.class_devices_none c w (ap (λ r. r.1) (sym e))
  with_set-keeps rounds c w ps (w', some set) e =
      let opened : sets w' ≡ sets w + 1 =
        ap (λ r. sets r.0) e ∙ law.class_devices_some c w (ap (λ r. r.1) (sym e)) in
      let r = enumerate api rounds set 0 w' ps in
      omega (arith, law.destroy_lem set r.0, enumerate-keeps rounds set 0 w' ps, opened)

  classes-keeps :
      (rounds : ℕ) (cs : List ℕ) (w : W) (ps : List PortInfo)
      → sets (classes api rounds cs w ps).0 ≡ sets w
  unfolding classes
  classes-keeps rounds [] w ps = refl
  classes-keeps rounds (c ∷ cs) w ps =
      let r = with_set api rounds ps (api.class_devices c w) in
      classes-keeps rounds cs r.0 r.1 ∙ with_set-keeps rounds c w ps (api.class_devices c w) refl

  -- However the queries of the listing fail, each device set that was opened is destroyed: as many
  -- are open after it as before.
  pub enrich-closes_sets :
      (rounds : ℕ) (guids : List ℕ) (w : W) (ps : List PortInfo)
      → sets (enrich api rounds guids w ps).0 ≡ sets w
  unfolding enrich
  enrich-closes_sets rounds guids w [] = refl
  enrich-closes_sets rounds guids w (p ∷ ps) = classes-keeps rounds guids w (p ∷ ps)
