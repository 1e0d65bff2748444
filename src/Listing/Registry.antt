-- ===== src/Listing/Registry.antt =====
-- src/platform/windows_list.rs, `registry_string` and `wide_string`, and the lookups of
-- src/platform/windows_list/os.rs that use them. Texts are UTF-16 code units until `lossy`, which is
-- `String::from_utf16_lossy`.
pub mod Reads
pub mod Keys
mod Tests
use node_serialport_rs.Prelude.{
  ℕ, zero, suc, ◌*◌, ◌/◌, ◌%◌, ◌==◌, ltb, leb, not, ◌&&◌, ◌||◌, if◌then◌else◌, Bool, true, false,
  Option, none, some, List, [], ◌∷◌, length, take, replicate,
}
use node_serialport_rs.Listing.Metadata.{SetupApi}

-- What a query of the registry leaves: whether it succeeded, and the three arguments it writes to.
pub record Answer : Type 0 where
  pub ok : Bool
  pub buffer : List ℕ
  pub kind : ℕ
  pub size : ℕ

-- The closure `query`, with the buffer, the kind and the size that it is given.
abbrev pub Query : Type 0 → Type 0
Query W = List ℕ → ℕ → ℕ → W → W × Answer

-- `position(|&value| value == 0).unwrap_or(len)`
abbrev pub nul_or_end : List ℕ → ℕ
nul_or_end [] = 0
nul_or_end (u ∷ us) = if u == 0 then 0 else suc (nul_or_end us)

module _ (lossy : List ℕ → List ℕ) where
  unfoldable pub wide_string : List ℕ → Option (List ℕ)
  wide_string buffer =
      let end = nul_or_end buffer in if not (end == 0) then some (lossy (take end buffer)) else none

  -- From the second query's answer.
  abbrev pub filled : Answer → Option (List ℕ)
  filled a =
      if not a.ok
      then none
      else if not (a.kind == 1) || not (a.size % 2 == 0)
      then none
      else if leb (a.size / 2) (length a.buffer)
      then wide_string (take (a.size / 2) a.buffer)
      else none

  -- From the first query's answer.
  abbrev pub sized : {W : Type 0} → Query W → W × Answer → W × Option (List ℕ)
  sized query (w, a) =
      if a.size == 0
      then (w, none)
      else if ltb 65536 a.size || not (a.size % 2 == 0)
      then (w, none)
      else (let (w', b) = query (replicate (a.size / 2) 0) a.kind a.size w in (w', filled b))

  unfoldable pub registry_string : {W : Type 0} → Query W → W → W × Option (List ℕ)
  registry_string query w = sized query (query [] 0 0 w)

-- The calls of SetupAPI and of the registry on a device: opening its key, asking for a value of the
-- key or for a property, and its id and its parent's. `id_length` is `MAX_DEVICE_ID_LEN`.
pub record DeviceCalls (W S D K : Type 0) : Type 0 where
  pub open_key : S → D → W → W × Option K
  pub query_value : K → Query W
  pub close_key : K → W → W
  pub get_property : S → D → ℕ → Query W
  pub get_instance_id : S → D → List ℕ → W → W × (Bool × List ℕ)
  pub get_parent : D → W → W × Option ℕ
  pub get_id : ℕ → List ℕ → W → W × (Bool × List ℕ)
  pub id_length : ℕ

module _ {W S D K : Type 0} (lossy : List ℕ → List ℕ) (calls : DeviceCalls W S D K) where
  -- The first closure: the size is that of the buffer, in bytes.
  abbrev pub value_query : K → Query W
  value_query key buffer kind size w = calls.query_value key buffer kind (2 * length buffer) w

  abbrev pub with_key : W × Option K → W × Option (List ℕ)
  with_key (w, none) = (w, none)
  with_key (w, some key) =
      let (w', name) = registry_string lossy (value_query key) w in (calls.close_key key w', name)

  unfoldable pub port_name : S → D → W → W × Option (List ℕ)
  port_name set device w = with_key (calls.open_key set device w)

  abbrev pub property_query : S → D → ℕ → Query W
  property_query set device id buffer kind size w =
      calls.get_property set device id buffer kind (2 * length buffer) w

  unfoldable pub property : S → D → ℕ → W → W × Option (List ℕ)
  property set device id w = registry_string lossy (property_query set device id) w

  -- `then(|| wide_string(&buffer)).flatten()`
  abbrev pub id_of : W × (Bool × List ℕ) → W × Option (List ℕ)
  id_of (w, (ok, buffer)) = (w, if ok then wide_string lossy buffer else none)

  unfoldable pub instance_id : S → D → W → W × Option (List ℕ)
  instance_id set device w =
      id_of (calls.get_instance_id set device (replicate calls.id_length 0) w)

  abbrev pub with_parent : W × Option ℕ → W × Option (List ℕ)
  with_parent (w, none) = (w, none)
  with_parent (w, some parent) = id_of (calls.get_id parent (replicate calls.id_length 0) w)

  unfoldable pub parent_id : D → W → W × Option (List ℕ)
  parent_id device w = with_parent (calls.get_parent device w)

  -- The lookups that `enrich` makes; the three numbers are those of the properties.
  abbrev pub setup_api :
      (ℕ → W → W × Option S) → (S → ℕ → W → W × Option D) → (S → W → W) → ℕ → ℕ → ℕ → SetupApi W S D
  setup_api class_devices enum_device destroy maker place name = record {
    class_devices = class_devices;
    enum_device = enum_device;
    port_name = port_name;
    instance_id = instance_id;
    parent_id = parent_id;
    manufacturer = λ set device w. property set device maker w;
    location = λ set device w. property set device place w;
    friendly_name = λ set device w. property set device name w;
    destroy = destroy;
  }
