-- ===== src/Listing/Task/Sorted.antt =====
-- What the list is that `ListTask::compute` of src/lib.rs gives.
use mathlib.Core.List.{Perm}
use mathlib.Core.List.Perm
use node_serialport_rs.Prelude.{ℕ, ◌≡◌, refl, ◌∙◌, Option, List, [], ◌∷◌, map, ap₂, subst}
use node_serialport_rs.Io.{ok, err}
use node_serialport_rs.Event.{JsResult, from_reason}
use node_serialport_rs.Listing.{PortInfo}
use node_serialport_rs.Listing.Metadata.{SetupApi, enrich}
use node_serialport_rs.Listing.Metadata.Enrich.{AllEnrich, enrich-AllEnrich}
use node_serialport_rs.Listing.Sort.{sort_by_key, Sorted, sort_by_key-Sorted, sort_by_key-perm}
use node_serialport_rs.Listing.Ids.{DirEntry}
use node_serialport_rs.Listing.Task.{
  Os, linux, macos, windows, other, SerialPortType, usb_port, other_port, SerialPortInfo, Available,
  panicked, refused, available, with_usb, port_infos, platform_ids, enriched, compute,
}

abbrev pub path_of : PortInfo → List ℕ
path_of p = p.path

abbrev pub port_names : List SerialPortInfo → List (List ℕ)
port_names [] = []
port_names (p ∷ ps) = p.port_name ∷ port_names ps

abbrev pub paths : List PortInfo → List (List ℕ)
paths ps = map path_of ps

usb-path : (os : Os) (info : PortInfo) (t : SerialPortType) → (with_usb os info t).path ≡ info.path
usb-path os info other_port = refl
usb-path linux info (usb_port u) = refl
usb-path macos info (usb_port u) = refl
usb-path windows info (usb_port u) = refl
usb-path other info (usb_port u) = refl

port_infos-paths :
    (os : Os) (ids : List (List ℕ × List ℕ)) (ports : List SerialPortInfo)
    → paths (port_infos os ids ports) ≡ port_names ports
unfolding port_infos
port_infos-paths os ids [] = refl
port_infos-paths os ids (p ∷ ps) = ap₂ ◌∷◌ (usb-path os _ p.port_type) (port_infos-paths os ids ps)

AllEnrich-paths : (ps qs : List PortInfo) → AllEnrich ps qs → paths qs ≡ paths ps
AllEnrich-paths [] [] h = refl
AllEnrich-paths [] (q ∷ qs) h = absurd cc
AllEnrich-paths (p ∷ ps) [] h = absurd cc
AllEnrich-paths (p ∷ ps) (q ∷ qs) h = ap₂ ◌∷◌ h.0.0 (AllEnrich-paths ps qs h.1)

-- What `compute` promises of its result.
abbrev pub IsListing : Available → JsResult (List PortInfo) → Type 0
IsListing panicked r = r ≡ err (from_reason "Serial port enumeration failed")
IsListing (refused reason) r = r ≡ err (from_reason reason)
IsListing (available ports) (err reason) = available ports ≡ panicked
IsListing (available ports) (ok infos) =
    Sorted path_of infos × Perm (paths infos) (port_names ports)

module _ {W S D : Type 0} (api : SetupApi W S D) (rounds : ℕ) (guids : List ℕ)
    (lossy : List ℕ → List ℕ) (dir : Option (List (Option DirEntry))) where
  enriched-paths :
      (os : Os) (w : W) (ps : List PortInfo)
      → paths (enriched api rounds guids lossy dir os w ps).1 ≡ paths ps
  enriched-paths windows w ps =
      AllEnrich-paths ps (enrich api rounds guids w ps).1 (enrich-AllEnrich api rounds guids w ps).0
  enriched-paths linux w ps = refl
  enriched-paths macos w ps = refl
  enriched-paths other w ps = refl

  -- The listing gives each port that the system reports, once for each time that it is reported, in
  -- the order of the paths; it fails exactly where the enumeration panics or is refused, with the
  -- reason for it.
  pub compute-IsListing :
      (os : Os) (ports : Available) (w : W)
      → IsListing ports (compute api rounds guids lossy dir os ports w).1
  unfolding compute
  compute-IsListing os panicked w = refl
  compute-IsListing os (refused reason) w = refl
  compute-IsListing os (available ports) w =
      let infos = port_infos os (platform_ids os lossy dir) ports in
      let listed = (enriched api rounds guids lossy dir os w infos).1 in
      (
        sort_by_key-Sorted path_of listed,
        subst (λ (ns : List (List ℕ)). Perm (paths (sort_by_key path_of listed)) ns)
            (enriched-paths os w infos ∙ port_infos-paths os (platform_ids os lossy dir) ports)
            (Perm.map path_of (sort_by_key-perm path_of listed)),
      )
