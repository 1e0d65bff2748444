-- ===== src/Listing.antt =====
-- src/lib.rs, `PortInfo`, and what src/platform/windows_list.rs, src/platform/macos_list.rs and the
-- listing task do with it. A text that is looked into is the list of its bytes.
pub mod Text
pub mod Identity
pub mod Metadata
pub mod Registry
pub mod Location
pub mod Sort
pub mod Ids
pub mod Task
mod Tests
use node_serialport_rs.Prelude.{ℕ, Option, none, List}

-- `PortInfo`
pub record PortInfo : Type 0 where
  pub path : List ℕ
  pub manufacturer : Option (List ℕ)
  pub serial_number : Option (List ℕ)
  pub vendor_id : Option (List ℕ)
  pub product_id : Option (List ℕ)
  pub pnp_id : Option (List ℕ)
  pub location_id : Option (List ℕ)
  pub friendly_name : Option (List ℕ)

-- `PortInfo { path, ..Default::default() }`
abbrev pub port_at : List ℕ → PortInfo
port_at path = record {
  path = path;
  manufacturer = none;
  serial_number = none;
  vendor_id = none;
  product_id = none;
  pnp_id = none;
  location_id = none;
  friendly_name = none;
}
