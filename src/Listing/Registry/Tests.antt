-- ===== src/Listing/Registry/Tests.antt =====
-- A system that counts its keys, and an instance of the theorem on the lookups of
-- src/platform/windows_list/os.rs.
use node_serialport_rs.Prelude.{ℕ, ◌+◌, ◌-◌, ◌≡◌, refl, true, some, none, [], ◌∷◌}
use node_serialport_rs.Listing.Registry.{
  DeviceCalls, port_name, property, instance_id, parent_id, registry_string, wide_string,
}
use node_serialport_rs.Listing.Registry.Keys.{CountsKeys, lookups-close_keys}

-- Each value is the text `A`, with its NUL; the state is the number of open keys.
abbrev key_counter : DeviceCalls ℕ ℕ ℕ ℕ
key_counter = record {
  open_key = λ s d w. (w + 1, some d);
  query_value =
      λ k b kind size w. (w, record { ok = true; buffer = b'A' ∷ 0 ∷ []; kind = 1; size = 4 });
  close_key = λ k w. w - 1;
  get_property =
      λ s d p b kind size w. (w, record { ok = true; buffer = b'A' ∷ 0 ∷ []; kind = 1; size = 4 });
  get_instance_id = λ s d b w. (w, (true, b'B' ∷ 0 ∷ []));
  get_parent = λ d w. (w, none);
  get_id = λ n b w. (w, (true, b));
  id_length = 200;
}

key_counter-counts : CountsKeys key_counter (λ w. w)
key_counter-counts = record {
  open_key_none = λ s d w h. absurd cc;
  open_key_some = λ s d w h. refl;
  close_key_lem = λ k w. refl;
  query_value_keeps = λ k b kind size w. refl;
  get_property_keeps = λ s d p b kind size w. refl;
  get_instance_id_keeps = λ s d b w. refl;
  get_parent_keeps = λ d w. refl;
  get_id_keeps = λ n b w. refl;
}

name_run : port_name (λ us. us) key_counter 1 2 7 ≡ (7, some (b'A' ∷ []))
unfolding port_name registry_string wide_string
name_run = refl

lookups-close_keys_example :
    ((port_name (λ us. us) key_counter 1 2 7).0 ≡ 7)
    × ((property (λ us. us) key_counter 1 2 3 7).0 ≡ 7)
    × ((instance_id (λ us. us) key_counter 1 2 7).0 ≡ 7)
    × ((parent_id (λ us. us) key_counter 2 7).0 ≡ 7)
lookups-close_keys_example = lookups-close_keys (λ us. us) key_counter key_counter-counts 1 2 3 7
