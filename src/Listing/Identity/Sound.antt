-- ===== src/Listing/Identity/Sound.antt =====
-- What holds of every identity that src/platform/windows_list.rs finds.
use node_serialport_rs.Prelude.{◌≡◌, ◌≢◌, true, Option, none, some, []}
use node_serialport_rs.Listing.Identity.{UsbIdentity, is_id}

abbrev Sound : Option UsbIdentity → Type 0
Sound none = Unit {0}
Sound (some u) = (is_id u.vendor ≡ true) × (is_id u.product ≡ true) × (u.serial ≢ [])
