-- ===== src/Listing/Metadata/Apply.antt =====
-- What `Metadata::apply` of src/platform/windows_list.rs does to a port.
use node_serialport_rs.Prelude.{
  ℕ, ◌≡◌, refl, ap, ◌∙◌, Bool, true, false, Option, none, some, List, [], ◌∷◌, arith,
}
use node_serialport_rs.Listing.{PortInfo}
use node_serialport_rs.Listing.Text.{uppercase_idem}
use node_serialport_rs.Listing.Identity.{UsbIdentity, usb_identity}
use node_serialport_rs.Listing.Metadata.{
  Metadata, or_old, with_identity, with_pnp_id, in_uppercase, normalized, apply,
}

abbrev pub is_some : Option (List ℕ) → Bool
is_some none = false
is_some (some s) = true

-- What was there is not lost.
abbrev pub Stays : Option (List ℕ) → Option (List ℕ) → Type 0
Stays old new = is_some old ≡ true → is_some new ≡ true

-- What may be missing.
abbrev pub details : PortInfo → List (Option (List ℕ))
details p =
    p.manufacturer ∷ p.serial_number ∷ p.vendor_id ∷ p.product_id ∷ p.pnp_id ∷ p.location_id
    ∷ p.friendly_name ∷ []

abbrev pub AllStay : List (Option (List ℕ)) → List (Option (List ℕ)) → Type 0
AllStay [] [] = Unit {0}
AllStay [] (b ∷ ys) = Unit {0}
AllStay (a ∷ xs) [] = is_some none ≡ true
AllStay (a ∷ xs) (b ∷ ys) = Stays a b × AllStay xs ys

AllStay-refl : (xs : List (Option (List ℕ))) → AllStay xs xs
AllStay-refl [] = tt
AllStay-refl (a ∷ xs) = (λ h. h, AllStay-refl xs)

AllStay-trans : (xs ys zs : List (Option (List ℕ))) → AllStay xs ys → AllStay ys zs → AllStay xs zs
AllStay-trans [] ys [] h k = tt
AllStay-trans [] ys (c ∷ zs) h k = tt
AllStay-trans (a ∷ xs) [] zs h k = absurd (ground arith)
AllStay-trans (a ∷ xs) (b ∷ ys) [] h k = absurd (ground arith)
AllStay-trans (a ∷ xs) (b ∷ ys) (c ∷ zs) h k = (λ e. k.0 (h.0 e), AllStay-trans xs ys zs h.1 k.1)

-- `q` is the port `p`, at the same path, of which no more is missing than before.
abbrev pub Enriches : PortInfo → PortInfo → Type 0
Enriches p q = (q.path ≡ p.path) × AllStay (details p) (details q)

pub Enriches-refl : (p : PortInfo) → Enriches p p
Enriches-refl p = (refl, AllStay-refl (details p))

pub Enriches-trans : (p q r : PortInfo) → Enriches p q → Enriches q r → Enriches p r
Enriches-trans p q r a b = (b.0 ∙ a.0, AllStay-trans (details p) (details q) (details r) a.1 b.1)

-- Both USB ids are in upper case.
abbrev pub HasUpper : PortInfo → Type 0
HasUpper p = (in_uppercase p.vendor_id ≡ p.vendor_id) × (in_uppercase p.product_id ≡ p.product_id)

in_uppercase_idem : (o : Option (List ℕ)) → in_uppercase (in_uppercase o) ≡ in_uppercase o
in_uppercase_idem none = refl
in_uppercase_idem (some s) = ap some (uppercase_idem s)

or_old-Stays : (new old : Option (List ℕ)) → Stays old (or_old new old)
or_old-Stays none old h = h
or_old-Stays (some s) old h = refl

in_uppercase-Stays : (o : Option (List ℕ)) → Stays o (in_uppercase o)
in_uppercase-Stays none h = h
in_uppercase-Stays (some s) h = refl

normalized-Enriches : (p : PortInfo) → Enriches p (normalized p)
normalized-Enriches p = (
  refl,
  (
    λ h. h,
    (
      λ h. h,
      (
        in_uppercase-Stays p.vendor_id,
        (in_uppercase-Stays p.product_id, (λ h. h, (λ h. h, (λ h. h, tt)))),
      ),
    ),
  ),
)

identity-Enriches :
    (parent : Option (List ℕ)) (p : PortInfo) (u : Option UsbIdentity)
    → Enriches p (with_identity parent p u)
identity-Enriches parent p none = Enriches-refl p
identity-Enriches parent p (some u) =
    (refl, (λ h. h, (λ h. refl, (λ h. refl, (λ h. refl, (λ h. h, (λ h. h, (λ h. h, tt))))))))

pnp_id-Enriches :
    (parent : Option (List ℕ)) (p : PortInfo) (id : Option (List ℕ))
    → Enriches p (with_pnp_id parent p id)
pnp_id-Enriches parent p none = Enriches-refl p
pnp_id-Enriches parent p (some id) =
    let q = with_identity parent p (usb_identity id) in
    Enriches-trans p q (record q { pnp_id = some id })
      (identity-Enriches parent p (usb_identity id))
      (refl, (λ h. h, (λ h. h, (λ h. h, (λ h. h, (λ h. refl, (λ h. h, (λ h. h, tt))))))))

pub apply-Enriches : (m : Metadata) (p : PortInfo) → Enriches p (apply m p)
unfolding apply
apply-Enriches m p =
    let named : PortInfo = record p {
      manufacturer = or_old m.manufacturer p.manufacturer;
      location_id = or_old m.location_id p.location_id;
      friendly_name = or_old m.friendly_name p.friendly_name;
    } in
    let known = with_pnp_id m.parent_id named m.pnp_id in
    Enriches-trans p named (normalized known)
      (
        refl,
        (
          or_old-Stays m.manufacturer p.manufacturer,
          (
            λ h. h,
            (
              λ h. h,
              (
                λ h. h,
                (
                  λ h. h,
                  (
                    or_old-Stays m.location_id p.location_id,
                    (or_old-Stays m.friendly_name p.friendly_name, tt),
                  ),
                ),
              ),
            ),
          ),
        ),
      )
      (Enriches-trans named known (normalized known) (pnp_id-Enriches m.parent_id named m.pnp_id)
        (normalized-Enriches known))

pub apply-HasUpper : (m : Metadata) (p : PortInfo) → HasUpper (apply m p)
unfolding apply
apply-HasUpper m p = (in_uppercase_idem _, in_uppercase_idem _)
