-- ===== src/Listing/Metadata.antt =====
-- src/platform/windows_list.rs, `Metadata::apply`, and src/platform/windows_list/os.rs, `enrich`,
-- over the calls of SetupAPI and of the registry.
pub mod Apply
pub mod Enrich
pub mod Close
use node_serialport_rs.Prelude.{
  ℕ, zero, suc, ◌+◌, ◌^◌, ◌-◌, ◌==◌, ltb, ◌&&◌, if◌then◌else◌, Bool, true, false, Option, none,
  some, List, [], ◌∷◌,
}
use node_serialport_rs.Listing.{PortInfo}
use node_serialport_rs.Listing.Text.{◌>>=◌, eq_ignore_case, uppercase}
use node_serialport_rs.Listing.Identity.{UsbIdentity, usb_identity}

pub record Metadata : Type 0 where
  pub pnp_id : Option (List ℕ)
  pub parent_id : Option (List ℕ)
  pub manufacturer : Option (List ℕ)
  pub location_id : Option (List ℕ)
  pub friendly_name : Option (List ℕ)

-- `Metadata::default()`
abbrev pub default : Metadata
default = record {
  pnp_id = none;
  parent_id = none;
  manufacturer = none;
  location_id = none;
  friendly_name = none;
}

-- `if let Some(value) = new { old = Some(value) }`
abbrev pub or_old : Option (List ℕ) → Option (List ℕ) → Option (List ℕ)
or_old none old = old
or_old (some value) old = some value

-- `parent.filter(..).map_or(usb.serial, |parent| parent.serial)`
abbrev pub authoritative : UsbIdentity → Option UsbIdentity → List ℕ
authoritative usb none = usb.serial
authoritative usb (some parent) =
    if usb.use_parent
      && (eq_ignore_case parent.vendor usb.vendor && eq_ignore_case parent.product usb.product)
    then parent.serial
    else usb.serial

-- The body of `if let Some(usb) = usb_identity(&id)`.
abbrev pub with_identity : Option (List ℕ) → PortInfo → Option UsbIdentity → PortInfo
with_identity parent_id port none = port
with_identity parent_id port (some usb) = record port {
  vendor_id = some usb.vendor;
  product_id = some usb.product;
  serial_number = some (authoritative usb (parent_id >>= usb_identity));
}

abbrev pub with_pnp_id : Option (List ℕ) → PortInfo → Option (List ℕ) → PortInfo
with_pnp_id parent_id port none = port
with_pnp_id parent_id port (some id) = record (with_identity parent_id port (usb_identity id)) {
  pnp_id = some id;
}

abbrev pub in_uppercase : Option (List ℕ) → Option (List ℕ)
in_uppercase none = none
in_uppercase (some value) = some (uppercase value)

-- The loop at the end of `apply`.
abbrev pub normalized : PortInfo → PortInfo
normalized port = record port {
  vendor_id = in_uppercase port.vendor_id;
  product_id = in_uppercase port.product_id;
}

-- `Metadata::apply`
unfoldable pub apply : Metadata → PortInfo → PortInfo
apply m port = normalized (
    with_pnp_id m.parent_id
      (record port {
        manufacturer = or_old m.manufacturer port.manufacturer;
        location_id = or_old m.location_id port.location_id;
        friendly_name = or_old m.friendly_name port.friendly_name;
      })
      m.pnp_id)

-- The last loop of `enrich`.
abbrev pub normalize_all : List PortInfo → List PortInfo
normalize_all [] = []
normalize_all (port ∷ ports) = apply default port ∷ normalize_all ports

-- SetupAPI and the registry of a system `W`, as `enrich` calls them: the device sets of a class, the
-- devices of a set, and what is asked of a device. A set is closed where it is dropped.
pub record SetupApi (W S D : Type 0) : Type 0 where
  pub class_devices : ℕ → W → W × Option S
  pub enum_device : S → ℕ → W → W × Option D
  pub port_name : S → D → W → W × Option (List ℕ)
  pub instance_id : S → D → W → W × Option (List ℕ)
  pub parent_id : D → W → W × Option (List ℕ)
  pub manufacturer : S → D → W → W × Option (List ℕ)
  pub location : S → D → W → W × Option (List ℕ)
  pub friendly_name : S → D → W → W × Option (List ℕ)
  pub destroy : S → W → W

-- `ports.iter_mut().find(..)`, with what is done to the port that is found; `none` if there is none.
abbrev pub prefixed : PortInfo → Option (List PortInfo) → Option (List PortInfo)
prefixed port none = none
prefixed port (some ports) = some (port ∷ ports)

unfoldable pub has_port : List ℕ → List PortInfo → Bool
has_port name [] = false
has_port name (port ∷ ports) = if eq_ignore_case port.path name then true else has_port name ports

unfoldable pub apply_first : List ℕ → Metadata → List PortInfo → List PortInfo
unfolding apply
apply_first name m [] = []
apply_first name m (port ∷ ports) =
    let rest = apply_first name m ports in
    if eq_ignore_case port.path name then apply m port ∷ ports else port ∷ rest

module _ {W S D : Type 0} (api : SetupApi W S D) where
  -- The record that is built from the five queries, in their order.
  abbrev pub metadata_of : S → D → W → W × Metadata
  metadata_of set device w =
      let (w1, pnp) = api.instance_id set device w in
      let (w2, parent) = api.parent_id device w1 in
      let (w3, maker) = api.manufacturer set device w2 in
      let (w4, place) = api.location set device w3 in
      let (w5, name) = api.friendly_name set device w4 in
      (
        w5,
        record {
          pnp_id = pnp;
          parent_id = parent;
          manufacturer = maker;
          location_id = place;
          friendly_name = name;
        },
      )

  -- The body of the inner loop, from the device's name.
  abbrev pub with_name : S → D → List PortInfo → W × Option (List ℕ) → W × List PortInfo
  with_name set device ports (w, none) = (w, ports)
  with_name set device ports (w, some name) =
      if has_port name ports
      then (let (w', m) = metadata_of set device w in (w', apply_first name m ports))
      else (w, ports)

  abbrev pub with_device :
      (W → List PortInfo → W × List PortInfo) → S → List PortInfo → W × Option D → W × List PortInfo
  with_device next set ports (w, none) = (w, ports)
  with_device next set ports (w, some device) =
      let (w', ports') = with_name set device ports (api.port_name set device w) in next w' ports'

  -- The inner loop, with the rounds left, from `index`.
  unfoldable pub enumerate : ℕ → S → ℕ → W → List PortInfo → W × List PortInfo
  unfolding has_port apply_first
  enumerate zero set index w ports = (w, ports)
  enumerate (suc rounds) set index w ports =
      with_device (λ w' ports'. enumerate rounds set (index + 1) w' ports') set ports
        (api.enum_device set index w)

  abbrev pub with_set : ℕ → List PortInfo → W × Option S → W × List PortInfo
  with_set rounds ports (w, none) = (w, ports)
  with_set rounds ports (w, some set) =
      let (w', ports') = enumerate rounds set 0 w ports in (api.destroy set w', ports')

  -- The outer loop, over the classes that are left.
  unfoldable pub classes : ℕ → List ℕ → W → List PortInfo → W × List PortInfo
  classes rounds [] w ports = (w, ports)
  classes rounds (c ∷ cs) w ports =
      let (w', ports') = with_set rounds ports (api.class_devices c w) in
      classes rounds cs w' ports'

  -- `enrich`; `rounds` is `u32::MAX`, and the classes are those of ports and of modems.
  unfoldable pub enrich : ℕ → List ℕ → W → List PortInfo → W × List PortInfo
  unfolding classes apply
  enrich rounds guids w [] = (w, [])
  enrich rounds guids w (port ∷ ports) =
      let (w', ports') = classes rounds guids w (port ∷ ports) in (w', normalize_all ports')
