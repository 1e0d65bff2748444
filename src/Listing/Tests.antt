-- ===== src/Listing/Tests.antt =====
-- Runs of the listing and instances of its theorems.
use node_serialport_rs.Prelude.{
  ℕ, ◌+◌, ◌-◌, ◌≡◌, ◌≢◌, refl, ◌==◌, leb, if◌then◌else◌, true, false, Option, none, some, List, [],
  ◌∷◌, ◌++◌, All, drop, length, arith,
}
use node_serialport_rs.Listing.{port_at}
use node_serialport_rs.Listing.Text.{split_fields, split_once, strip_last, contains, uppercase}
use node_serialport_rs.Listing.Identity.{ftdibus, backslash, usb_identity}
use node_serialport_rs.Listing.Identity.RoundTrip.{usb_id, usb_identity-usb_id}
use node_serialport_rs.Listing.Metadata.{
  SetupApi, enrich, enumerate, classes, apply, apply_first, has_port,
}
use node_serialport_rs.Listing.Metadata.Apply.{HasUpper}
use node_serialport_rs.Listing.Metadata.Enrich.{AllEnrich, enrich-AllEnrich}
use node_serialport_rs.Listing.Metadata.Close.{CountsSets, enrich-closes_sets}
use node_serialport_rs.Listing.Registry.{Query, registry_string}
use node_serialport_rs.Listing.Registry.Reads.{HoldsValue, string_of, registry_string-string_of}
use node_serialport_rs.Listing.Location.{format_location}
use node_serialport_rs.Listing.Location.Parse.{decimal}
use node_serialport_rs.Listing.Location.Digits.{location_text, format_location-location_text}
use node_serialport_rs.Listing.Ids.{DirEntry, get, same_path, port_ids}
use node_serialport_rs.Listing.Ids.Least.{name_of, least_name, entries_of, get-port_ids}
use node_serialport_rs.Listing.Task.{windows, other_port, available, compute}
use node_serialport_rs.Listing.Task.Sorted.{IsListing, compute-IsListing}

abbrev vendor : List ℕ
vendor = b'0' ∷ b'4' ∷ b'a' ∷ b'3' ∷ []

abbrev serial : List ℕ
serial = b'S' ∷ b'7' ∷ []

abbrev an_interface : List ℕ
an_interface = b'M' ∷ b'I' ∷ b'_' ∷ b'0' ∷ []

abbrev pnp_id : List ℕ
pnp_id = usb_id vendor vendor (an_interface ∷ []) serial

serial-not_empty : serial ≢ []
serial-not_empty e = cc

serial-plain : contains backslash serial ≡ false
unfolding contains
serial-plain = refl

usb_identity-usb_id_example :
    usb_identity pnp_id
    ≡ some (record { vendor = vendor; product = vendor; serial = serial; use_parent = true })
usb_identity-usb_id_example =
    usb_identity-usb_id vendor vendor (an_interface ∷ []) serial refl refl (refl, tt)
      serial-not_empty serial-plain

-- The serial number of an FTDI device is a field, whose last `A` is the channel.
ftdi_run :
    usb_identity (
      ftdibus
      ++ (backslash ∷ (b'V' ∷ b'I' ∷ b'D' ∷ b'_' ∷ vendor)
          ++ (b'+' ∷ (b'P' ∷ b'I' ∷ b'D' ∷ b'_' ∷ vendor)
              ++ (b'+' ∷ b'F' ∷ b'T' ∷ b'A' ∷ backslash ∷ b'0' ∷ []))))
    ≡ some
        (record { vendor = vendor; product = vendor; serial = b'F' ∷ b'T' ∷ []; use_parent = true })
unfolding usb_identity split_fields split_once strip_last contains
ftdi_run = refl

abbrev com1 : List ℕ
com1 = b'C' ∷ b'O' ∷ b'M' ∷ b'1' ∷ []

-- A system with one device in each class; its state is the number of the sets that are open.
abbrev one_device : SetupApi ℕ ℕ ℕ
one_device = record {
  class_devices = λ c w. (w + 1, some c);
  enum_device = λ s i w. (w, if i == 0 then some s else none);
  port_name = λ s d w. (w, some com1);
  instance_id = λ s d w. (w, some pnp_id);
  parent_id = λ d w. (w, none);
  manufacturer = λ s d w. (w, some serial);
  location = λ s d w. (w, none);
  friendly_name = λ s d w. (w, none);
  destroy = λ s w. w - 1;
}

enrich_run : enrich one_device 5 (7 ∷ []) 0 (port_at com1 ∷ []) ≡ (
  0,
  record (port_at com1) {
    manufacturer = some serial;
    serial_number = some serial;
    vendor_id = some (uppercase vendor);
    product_id = some (uppercase vendor);
    pnp_id = some pnp_id;
  }
      ∷ [],
)
unfolding enrich enumerate classes apply apply_first has_port usb_identity split_fields split_once
    strip_last contains
enrich_run = refl

enrich-AllEnrich_example :
    AllEnrich (port_at com1 ∷ []) (enrich one_device 5 (7 ∷ []) 0 (port_at com1 ∷ [])).1
    × All HasUpper (enrich one_device 5 (7 ∷ []) 0 (port_at com1 ∷ [])).1
enrich-AllEnrich_example = enrich-AllEnrich one_device 5 (7 ∷ []) 0 (port_at com1 ∷ [])

one_device-counts : CountsSets one_device (λ w. w)
one_device-counts = record {
  class_devices_none = λ c w h. absurd cc;
  class_devices_some = λ c w h. refl;
  destroy_lem = λ s w. refl;
  enum_device_lem = λ s i w. refl;
  port_name_lem = λ s d w. refl;
  instance_id_lem = λ s d w. refl;
  parent_id_lem = λ d w. refl;
  manufacturer_lem = λ s d w. refl;
  location_lem = λ s d w. refl;
  friendly_name_lem = λ s d w. refl;
}

enrich-closes_sets_example : (enrich one_device 5 (7 ∷ 8 ∷ []) 0 (port_at com1 ∷ [])).0 ≡ 0
enrich-closes_sets_example =
    enrich-closes_sets one_device one_device-counts 5 (7 ∷ 8 ∷ []) 0 (port_at com1 ∷ [])

-- A value with a NUL behind it, as the registry keeps strings; the state is not used.
abbrev stored : List ℕ
stored = com1 ++ (0 ∷ [])

abbrev holder : Query (Unit {0})
holder buffer kind size w = (
  w,
  record {
    ok = leb 5 (length buffer);
    buffer = if leb 5 (length buffer) then stored ++ drop 5 buffer else buffer;
    kind = 1;
    size = 10;
  },
)

holder-holds : HoldsValue holder 1 stored 0
holder-holds = record {
  odd_bound = omega arith;
  probe_kind = λ k s w. refl;
  probe_size = λ k s w. refl;
  fills = λ buffer k s w h e. ground arith;
}

registry_string-string_of_example :
    (registry_string (λ us. us) holder tt).1 ≡ string_of (λ us. us) 1 stored 0
registry_string-string_of_example = registry_string-string_of (λ us. us) holder holder-holds tt

read_run : string_of (λ us. us) 1 stored 0 ≡ some com1
read_run = refl

format_location-location_text_example :
    format_location (decimal 20) (3 ∷ 2 ∷ []) ≡ location_text 20 (3 ∷ 2 ∷ [])
format_location-location_text_example = format_location-location_text 20 (3 ∷ 2 ∷ []) (omega arith)

abbrev by_id : Option (List (Option DirEntry))
by_id = some (
    some (record { file_name = b'b' ∷ []; target = some com1 })
    ∷ none
    ∷ some (record { file_name = b'a' ∷ []; target = some com1 })
    ∷ some (record { file_name = b'A' ∷ []; target = none })
    ∷ [])

get-port_ids_example :
    get com1 (port_ids (λ s. s) by_id) ≡ name_of (λ s. s) (least_name com1 (entries_of by_id))
get-port_ids_example = get-port_ids (λ s. s) com1 by_id

compute-IsListing_example :
    IsListing
      (available (record { port_name = com1; port_type = other_port } ∷ []))
      (compute one_device 5
        (7 ∷ [])
        (λ s. s)
        none
        windows
        (available (record { port_name = com1; port_type = other_port } ∷ []))
        0).1
compute-IsListing_example =
    compute-IsListing one_device 5 (7 ∷ []) (λ s. s) none windows
      (available (record { port_name = com1; port_type = other_port } ∷ [])) 0

-- A path with a doubled slash and a dot is the same one; a relative one is another.
same_path_run : same_path (b'/' ∷ b'/' ∷ b'.' ∷ b'/' ∷ b'a' ∷ []) (b'/' ∷ b'a' ∷ []) ≡ true
unfolding same_path
same_path_run = refl

other_path_run : same_path (b'a' ∷ []) (b'/' ∷ b'a' ∷ []) ≡ false
unfolding same_path
other_path_run = refl
