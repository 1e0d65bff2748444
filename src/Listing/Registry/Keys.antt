-- ===== src/Listing/Registry/Keys.antt =====
-- The registry keys that the lookups of src/platform/windows_list/os.rs open and close.
use node_serialport_rs.Prelude.{
  ℕ, ◌+◌, ◌-◌, ◌*◌, ◌/◌, ◌%◌, ◌≡◌, refl, sym, ap, ◌∙◌, ◌==◌, ltb, not, ◌||◌, if_cases, Option, none,
  some, List, [], length, replicate, arith,
}
use node_serialport_rs.Listing.Registry.{
  Answer, Query, filled, sized, registry_string, DeviceCalls, value_query, property_query, with_key,
  port_name, property, instance_id, with_parent, parent_id,
}

-- Whatever a query keeps, reading a string by it keeps.
module _ {W : Type 0} (lossy : List ℕ → List ℕ) (query : Query W) (measure : W → ℕ)
    (keeps : (b : List ℕ) (k s : ℕ) (w : W) → measure (query b k s w).0 ≡ measure w) where
  sized-keeps : (r : W × Answer) → measure (sized lossy query r).0 ≡ measure r.0
  sized-keeps (w, a) =
      let b = query (replicate (a.size / 2) 0) a.kind a.size w in
      let IsKept : W × Option (List ℕ) → Type 0 = λ r. measure r.0 ≡ measure w in
      if_cases IsKept (a.size == 0) _ _ (λ _. refl)
        (λ _.
          if_cases IsKept (ltb 65536 a.size || not (a.size % 2 == 0)) (w, none)
            (b.0, filled lossy b.1) (λ _. refl)
            (λ _. keeps (replicate (a.size / 2) 0) a.kind a.size w))

  registry_string-keeps : (w : W) → measure (registry_string lossy query w).0 ≡ measure w
  unfolding registry_string
  registry_string-keeps w = sized-keeps (query [] 0 0 w) ∙ keeps [] 0 0 w

-- `keys` counts the registry keys that are open: opening one adds one, closing one takes one away,
-- and no query changes their number.
pub record CountsKeys {W S D K : Type 0} (calls : DeviceCalls W S D K) (keys : W → ℕ) : Type 0 where
  pub open_key_none :
      (s : S) (d : D) (w : W)
      → (calls.open_key s d w).1 ≡ none
      → keys (calls.open_key s d w).0 ≡ keys w
  pub open_key_some :
      (s : S) (d : D) (w : W) {k : K}
      → (calls.open_key s d w).1 ≡ some k
      → keys (calls.open_key s d w).0 ≡ keys w + 1
  pub close_key_lem : (k : K) (w : W) → keys (calls.close_key k w) ≡ keys w - 1
  pub query_value_keeps :
      (k : K) (b : List ℕ) (kind size : ℕ) (w : W)
      → keys (calls.query_value k b kind size w).0 ≡ keys w
  pub get_property_keeps :
      (s : S) (d : D) (p : ℕ) (b : List ℕ) (kind size : ℕ) (w : W)
      → keys (calls.get_property s d p b kind size w).0 ≡ keys w
  pub get_instance_id_keeps :
      (s : S) (d : D) (b : List ℕ) (w : W) → keys (calls.get_instance_id s d b w).0 ≡ keys w
  pub get_parent_keeps : (d : D) (w : W) → keys (calls.get_parent d w).0 ≡ keys w
  pub get_id_keeps : (n : ℕ) (b : List ℕ) (w : W) → keys (calls.get_id n b w).0 ≡ keys w

module _ {W S D K : Type 0} (lossy : List ℕ → List ℕ) (calls : DeviceCalls W S D K) {keys : W → ℕ}
    (law : CountsKeys calls keys) where
  with_key-closes :
      (s : S) (d : D) (w : W) (r : W × Option K)
      → r ≡ calls.open_key s d w
      → keys (with_key lossy calls r).0 ≡ keys w
  with_key-closes s d w (w', none) e =
      ap (λ r. keys r.0) e ∙ law.open_key_none s d w (ap (λ r. r.1) (sym e))
  with_key-closes s d w (w', some key) e =
      let opened : keys w' ≡ keys w + 1 =
        ap (λ r. keys r.0) e ∙ law.open_key_some s d w (ap (λ r. r.1) (sym e)) in
      let q = value_query lossy calls key in
      omega (
        arith,
        opened,
        law.close_key_lem key (registry_string lossy q w').0,
        registry_string-keeps lossy q keys
            (λ b k n v. law.query_value_keeps key b k (2 * length b) v) w',
      )

  parent-keeps : (r : W × Option ℕ) → keys (with_parent lossy calls r).0 ≡ keys r.0
  parent-keeps (w, none) = refl
  parent-keeps (w, some n) = law.get_id_keeps n (replicate calls.id_length 0) w

  -- However they end, the lookups of a device leave as many registry keys open as before.
  pub lookups-close_keys :
      (set : S) (device : D) (id : ℕ) (w : W)
      → (keys (port_name lossy calls set device w).0 ≡ keys w)
        × (keys (property lossy calls set device id w).0 ≡ keys w)
        × (keys (instance_id lossy calls set device w).0 ≡ keys w)
        × (keys (parent_id lossy calls device w).0 ≡ keys w)
  unfolding port_name property instance_id parent_id
  lookups-close_keys set device id w = (
    with_key-closes set device w (calls.open_key set device w) refl,
    registry_string-keeps lossy (property_query lossy calls set device id) keys
        (λ b k n v. law.get_property_keeps set device id b k (2 * length b) v) w,
    law.get_instance_id_keeps set device (replicate calls.id_length 0) w,
    parent-keeps (calls.get_parent device w) ∙ law.get_parent_keeps device w,
  )
