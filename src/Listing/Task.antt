-- ===== src/Listing/Task.antt =====
-- src/lib.rs, `ListTask::compute`, with `port_ids` of src/platform.rs and `enrich` of
-- src/platform/windows_list/os.rs behind it. `Os` is the system of the build.
pub mod Sorted
use node_serialport_rs.Prelude.{
  ℕ, if◌then◌else◌, Bool, true, false, Option, none, some, List, [], ◌∷◌, String,
}
use node_serialport_rs.Io.{ok, err}
use node_serialport_rs.Event.{JsResult, from_reason}
use node_serialport_rs.Listing.{PortInfo, port_at}
use node_serialport_rs.Listing.Text.{◌>>=◌}
use node_serialport_rs.Listing.Metadata.{SetupApi, enrich}
use node_serialport_rs.Listing.Location.{hex, format_location}
use node_serialport_rs.Listing.Sort.{sort_by_key}
use node_serialport_rs.Listing.Ids.{DirEntry, get, port_ids}

pub data Os : Type 0 where
  linux : Os
  macos : Os
  windows : Os
  other : Os

-- What the listing uses of `serialport::UsbPortInfo`: `location` has the bus and the chain of ports.
pub record UsbInfo : Type 0 where
  pub vid : ℕ
  pub pid : ℕ
  pub serial_number : Option (List ℕ)
  pub manufacturer : Option (List ℕ)
  pub product : Option (List ℕ)
  pub location : Option (List ℕ × List ℕ)

pub data SerialPortType : Type 0 where
  usb_port : UsbInfo → SerialPortType
  other_port : SerialPortType

pub record SerialPortInfo : Type 0 where
  pub port_name : List ℕ
  pub port_type : SerialPortType

-- What comes of `available_ports` under `catch_unwind`; an error is its text.
pub data Available : Type 0 where
  panicked : Available
  refused : String → Available
  available : List SerialPortInfo → Available

abbrev pub with_location : Os → Option (List ℕ × List ℕ) → PortInfo → PortInfo
with_location macos location info = record info {
  location_id = location >>= λ l. format_location l.0 l.1;
}
with_location linux location info = info
with_location windows location info = info
with_location other location info = info

abbrev pub with_product : Os → Option (List ℕ) → PortInfo → PortInfo
with_product windows product info = record info { friendly_name = product }
with_product linux product info = info
with_product macos product info = info
with_product other product info = info

-- The body of `if let UsbPort(usb)`.
abbrev pub with_usb : Os → PortInfo → SerialPortType → PortInfo
with_usb os info other_port = info
with_usb os info (usb_port usb) =
    let located = with_location os usb.location info in
    with_product os usb.product (record located {
      manufacturer = usb.manufacturer;
      serial_number = usb.serial_number;
      vendor_id = some (hex 4 usb.vid);
      product_id = some (hex 4 usb.pid);
    })

-- One round of the loop.
abbrev pub port_info : Os → List (List ℕ × List ℕ) → SerialPortInfo → PortInfo
port_info os ids port =
    with_usb os (record (port_at port.port_name) { pnp_id = get port.port_name ids }) port.port_type

unfoldable pub port_infos : Os → List (List ℕ × List ℕ) → List SerialPortInfo → List PortInfo
unfolding format_location hex
port_infos os ids [] = []
port_infos os ids (port ∷ ports) = port_info os ids port ∷ port_infos os ids ports

-- `port_ids` of each build.
abbrev pub platform_ids :
    Os → (List ℕ → List ℕ) → Option (List (Option DirEntry)) → List (List ℕ × List ℕ)
platform_ids linux lossy dir = port_ids lossy dir
platform_ids macos lossy dir = []
platform_ids windows lossy dir = []
platform_ids other lossy dir = []

module _ {W S D : Type 0} (api : SetupApi W S D) (rounds : ℕ) (guids : List ℕ)
    (lossy : List ℕ → List ℕ) (dir : Option (List (Option DirEntry))) where
  -- `enrich` is called in the build for Windows.
  abbrev pub enriched : Os → W → List PortInfo → W × List PortInfo
  enriched windows w infos = enrich api rounds guids w infos
  enriched linux w infos = (w, infos)
  enriched macos w infos = (w, infos)
  enriched other w infos = (w, infos)

  abbrev pub sorted : W × List PortInfo → W × JsResult (List PortInfo)
  sorted (w, infos) = (w, ok (sort_by_key (λ (p : PortInfo). p.path) infos))

  -- `ListTask::compute`
  unfoldable pub compute : Os → Available → W → W × JsResult (List PortInfo)
  unfolding port_infos port_ids enrich
  compute os panicked w = (w, err (from_reason "Serial port enumeration failed"))
  compute os (refused reason) w = (w, err (from_reason reason))
  compute os (available ports) w =
      sorted (enriched os w (port_infos os (platform_ids os lossy dir) ports))
