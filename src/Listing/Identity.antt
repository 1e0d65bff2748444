-- ===== src/Listing/Identity.antt =====
-- src/platform/windows_list.rs, `usb_identity`: the USB ids and the serial number in a Windows
-- device id.
pub mod RoundTrip
pub mod Sound
use node_serialport_rs.Prelude.{
  ℕ, ◌==◌, not, ◌&&◌, ◌||◌, if◌then◌else◌, Bool, true, false, Option, none, some, List, [], ◌∷◌,
  length,
}
use node_serialport_rs.Listing.Text.{
  ◌>>=◌, split_once, contains, split_fields, strip_prefix, starts_with, strip_last, eq_ignore_case,
  all_hex,
}

pub record UsbIdentity : Type 0 where
  pub vendor : List ℕ
  pub product : List ℕ
  pub serial : List ℕ
  pub use_parent : Bool

abbrev pub backslash : ℕ
backslash = b'\\'

abbrev pub usb : List ℕ
usb = b'U' ∷ b'S' ∷ b'B' ∷ []

abbrev pub ftdibus : List ℕ
ftdibus = b'F' ∷ b'T' ∷ b'D' ∷ b'I' ∷ b'B' ∷ b'U' ∷ b'S' ∷ []

abbrev pub vid : List ℕ
vid = b'V' ∷ b'I' ∷ b'D' ∷ b'_' ∷ []

abbrev pub pid : List ℕ
pid = b'P' ∷ b'I' ∷ b'D' ∷ b'_' ∷ []

abbrev pub mi : List ℕ
mi = b'M' ∷ b'I' ∷ b'_' ∷ []

abbrev pub is_empty : List ℕ → Bool
is_empty [] = true
is_empty (c ∷ cs) = false

-- `value.len() == 4 && value.bytes().all(..)`, which the code tests the negation of.
abbrev pub is_id : List ℕ → Bool
is_id value = length value == 4 && all_hex value

abbrev pub or_whole : List ℕ → Option (List ℕ) → List ℕ
or_whole value none = value
or_whole value (some s) = if is_empty s then value else s

-- The serial number of an FTDI device, less the suffix of its channel.
abbrev pub channel_serial : List ℕ → List ℕ
channel_serial value = or_whole value (strip_last b'A' value)

abbrev pub any_interface : List (List ℕ) → Bool
any_interface [] = false
any_interface (f ∷ fs) = starts_with mi f || any_interface fs

-- The end of `usb_identity`; `rest` are the fields that the iterator has left.
abbrev pub identity_with : Bool → List ℕ → List ℕ → List ℕ → List (List ℕ) → Option UsbIdentity
identity_with ftdi vendor product serial rest =
    if is_empty serial
    then none
    else some (record {
      vendor = vendor;
      product = product;
      serial = serial;
      use_parent = ftdi || any_interface rest;
    })

abbrev pub serial_of : Bool → List ℕ → List ℕ → List ℕ → List (List ℕ) → Option UsbIdentity
serial_of true instance_id vendor product [] = none
serial_of true instance_id vendor product (value ∷ rest) =
    identity_with true vendor product (channel_serial value) rest
serial_of false instance_id vendor product rest =
    identity_with false vendor product instance_id rest

abbrev pub checked_ids : Bool → List ℕ → List ℕ → List ℕ → List (List ℕ) → Option UsbIdentity
checked_ids ftdi instance_id vendor product rest =
    if is_id vendor && is_id product then serial_of ftdi instance_id vendor product rest else none

abbrev pub identity_of : Bool → List ℕ → List (List ℕ) → Option UsbIdentity
identity_of ftdi instance_id (v ∷ p ∷ rest) = do
  vendor ← strip_prefix vid v
  product ← strip_prefix pid p
  checked_ids ftdi instance_id vendor product rest
identity_of ftdi instance_id fields = none

abbrev pub on_bus : List ℕ → List ℕ → List ℕ → Option UsbIdentity
on_bus bus device instance_id =
    let ftdi = eq_ignore_case bus ftdibus in
    if (not ftdi && not (eq_ignore_case bus usb)) || contains backslash instance_id
    then none
    else identity_of ftdi instance_id (split_fields device)

abbrev pub after_bus : List ℕ × List ℕ → Option UsbIdentity
after_bus (bus, rest) = split_once backslash rest >>= λ r. on_bus bus r.0 r.1

unfoldable pub usb_identity : List ℕ → Option UsbIdentity
unfolding split_fields
usb_identity id = split_once backslash id >>= after_bus
