-- ===== src/Listing/Metadata/Enrich.antt =====
-- What `enrich` of src/platform/windows_list/os.rs does to the list of ports.
use node_serialport_rs.Prelude.{
  ℕ, zero, suc, ◌+◌, ◌≡◌, if_cases, Option, none, some, List, [], ◌∷◌, All,
}
use node_serialport_rs.Listing.{PortInfo}
use node_serialport_rs.Listing.Text.{eq_ignore_case}
use node_serialport_rs.Listing.Metadata.{
  Metadata, SetupApi, apply_first, has_port, metadata_of, with_name, with_device, enumerate,
  with_set, classes, normalize_all, enrich, default,
}
use node_serialport_rs.Listing.Metadata.Apply.{
  Enriches, Enriches-refl, Enriches-trans, HasUpper, apply-Enriches, apply-HasUpper,
}

-- The same ports, in the same order, each enriched.
abbrev pub AllEnrich : List PortInfo → List PortInfo → Type 0
AllEnrich [] [] = Unit {0}
AllEnrich [] (q ∷ qs) = [] ≡ q ∷ qs
AllEnrich (p ∷ ps) [] = p ∷ ps ≡ []
AllEnrich (p ∷ ps) (q ∷ qs) = Enriches p q × AllEnrich ps qs

AllEnrich-refl : (ps : List PortInfo) → AllEnrich ps ps
AllEnrich-refl [] = tt
AllEnrich-refl (p ∷ ps) = (Enriches-refl p, AllEnrich-refl ps)

AllEnrich-trans : (ps qs rs : List PortInfo) → AllEnrich ps qs → AllEnrich qs rs → AllEnrich ps rs
AllEnrich-trans [] [] rs h k = k
AllEnrich-trans [] (q ∷ qs) rs h k = absurd cc
AllEnrich-trans (p ∷ ps) [] rs h k = absurd cc
AllEnrich-trans (p ∷ ps) (q ∷ qs) [] h k = absurd cc
AllEnrich-trans (p ∷ ps) (q ∷ qs) (r ∷ rs) h k =
    (Enriches-trans p q r h.0 k.0, AllEnrich-trans ps qs rs h.1 k.1)

apply_first-AllEnrich :
    (name : List ℕ) (m : Metadata) (ps : List PortInfo) → AllEnrich ps (apply_first name m ps)
unfolding apply_first
apply_first-AllEnrich name m [] = tt
apply_first-AllEnrich name m (p ∷ ps) =
    if_cases (AllEnrich (p ∷ ps)) (eq_ignore_case p.path name) _ _
      (λ h. (apply-Enriches m p, AllEnrich-refl ps))
      (λ h. (Enriches-refl p, apply_first-AllEnrich name m ps))

normalize_all-AllEnrich : (ps : List PortInfo) → AllEnrich ps (normalize_all ps)
normalize_all-AllEnrich [] = tt
normalize_all-AllEnrich (p ∷ ps) = (apply-Enriches default p, normalize_all-AllEnrich ps)

normalize_all-HasUpper : (ps : List PortInfo) → All HasUpper (normalize_all ps)
normalize_all-HasUpper [] = tt
normalize_all-HasUpper (p ∷ ps) = (apply-HasUpper default p, normalize_all-HasUpper ps)

module _ {W S D : Type 0} (api : SetupApi W S D) where
  with_name-AllEnrich :
      (set : S) (device : D) (ps : List PortInfo) (r : W × Option (List ℕ))
      → AllEnrich ps (with_name api set device ps r).1
  with_name-AllEnrich set device ps (w, none) = AllEnrich-refl ps
  with_name-AllEnrich set device ps (w, some name) =
      if_cases (λ (r : W × List PortInfo). AllEnrich ps r.1) (has_port name ps) _ _
        (λ h. apply_first-AllEnrich name (metadata_of api set device w).1 ps)
        (λ h. AllEnrich-refl ps)

  with_device-AllEnrich :
      (next : W → List PortInfo → W × List PortInfo)
      → ((w : W) (qs : List PortInfo) → AllEnrich qs (next w qs).1)
      → (set : S) (ps : List PortInfo) (r : W × Option D)
      → AllEnrich ps (with_device api next set ps r).1
  with_device-AllEnrich next h set ps (w, none) = AllEnrich-refl ps
  with_device-AllEnrich next h set ps (w, some device) =
      let r = with_name api set device ps (api.port_name set device w) in
      AllEnrich-trans ps r.1 (next r.0 r.1).1
        (with_name-AllEnrich set device ps (api.port_name set device w)) (h r.0 r.1)

  enumerate-AllEnrich :
      (rounds : ℕ) (set : S) (index : ℕ) (w : W) (ps : List PortInfo)
      → AllEnrich ps (enumerate api rounds set index w ps).1
  unfolding enumerate
  enumerate-AllEnrich zero set index w ps = AllEnrich-refl ps
  enumerate-AllEnrich (suc rounds) set index w ps =
      with_device-AllEnrich (λ w' qs. enumerate api rounds set (index + 1) w' qs)
        (λ w' qs. enumerate-AllEnrich rounds set (index + 1) w' qs) set ps
        (api.enum_device set index w)

  with_set-AllEnrich :
      (rounds : ℕ) (ps : List PortInfo) (r : W × Option S)
      → AllEnrich ps (with_set api rounds ps r).1
  with_set-AllEnrich rounds ps (w, none) = AllEnrich-refl ps
  with_set-AllEnrich rounds ps (w, some set) = enumerate-AllEnrich rounds set 0 w ps

  classes-AllEnrich :
      (rounds : ℕ) (cs : List ℕ) (w : W) (ps : List PortInfo)
      → AllEnrich ps (classes api rounds cs w ps).1
  unfolding classes
  classes-AllEnrich rounds [] w ps = AllEnrich-refl ps
  classes-AllEnrich rounds (c ∷ cs) w ps =
      let r = with_set api rounds ps (api.class_devices c w) in
      AllEnrich-trans ps r.1 (classes api rounds cs r.0 r.1).1
        (with_set-AllEnrich rounds ps (api.class_devices c w)) (classes-AllEnrich rounds cs r.0 r.1)

  -- Whatever the system answers, the ports of the list are the same, in the same order and at the
  -- same paths, nothing that was known of one is missing after, and all their USB ids are in upper
  -- case.
  pub enrich-AllEnrich :
      (rounds : ℕ) (guids : List ℕ) (w : W) (ps : List PortInfo)
      → AllEnrich ps (enrich api rounds guids w ps).1
        × All HasUpper (enrich api rounds guids w ps).1
  unfolding enrich
  enrich-AllEnrich rounds guids w [] = (tt, tt)
  enrich-AllEnrich rounds guids w (p ∷ ps) =
      let qs = (classes api rounds guids w (p ∷ ps)).1 in
      (
        AllEnrich-trans (p ∷ ps) qs (normalize_all qs) (classes-AllEnrich rounds guids w (p ∷ ps))
            (normalize_all-AllEnrich qs),
        normalize_all-HasUpper qs,
      )
