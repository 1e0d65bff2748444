-- ===== src/Listing/Identity/RoundTrip.antt =====
-- Reading back the device ids that Windows writes.
use node_serialport_rs.Prelude.{
  ℕ, ◌≡◌, ◌≢◌, refl, ap, ◌∙◌, ◌==◌, not, ◌&&◌, Bool, true, false, some, List, [], ◌∷◌, ◌++◌, arith,
}
use node_serialport_rs.Listing.Text.{
  ◌>>=◌, contains, is_field_end, split_fields, all_hex, split_once-append,
}
use node_serialport_rs.Listing.Identity.{
  backslash, usb, vid, pid, is_empty, is_id, any_interface, on_bus, after_bus, usb_identity,
}

-- Text without any of the separators.
abbrev pub is_plain : List ℕ → Bool
is_plain [] = true
is_plain (c ∷ cs) = not (c == backslash) && (not (is_field_end c) && is_plain cs)

hex-is_plain : (s : List ℕ) → all_hex s ≡ true → is_plain s ≡ true
hex-is_plain [] h = refl
hex-is_plain (c ∷ s) h = ground (arith, hex-is_plain s)

plain-contains : (s : List ℕ) → is_plain s ≡ true → contains backslash s ≡ false
unfolding contains
plain-contains [] h = refl
plain-contains (c ∷ s) h = ground (arith, plain-contains s)

is_plain-append : (s t : List ℕ) → is_plain s ≡ true → is_plain t ≡ true → is_plain (s ++ t) ≡ true
is_plain-append [] t h k = k
is_plain-append (c ∷ s) t h k = ground (arith, is_plain-append s t)

contains-append :
    (c : ℕ) (s t : List ℕ)
    → contains c s ≡ false
    → contains c t ≡ false
    → contains c (s ++ t) ≡ false
unfolding contains
contains-append c [] t h k = k
contains-append c (d ∷ s) t h k = ground (arith, contains-append c s t)

split_fields-last : (s : List ℕ) → is_plain s ≡ true → split_fields s ≡ s ∷ []
unfolding split_fields
split_fields-last [] h = refl
split_fields-last (c ∷ s) h = ground (arith, split_fields-last s)

split_fields-append :
    (s t : List ℕ) → is_plain s ≡ true → split_fields (s ++ (b'&' ∷ t)) ≡ s ∷ split_fields t
unfolding split_fields
split_fields-append [] t h = refl
split_fields-append (c ∷ s) t h = ground (arith, split_fields-append s t)

-- The further fields of a device, each behind an ampersand.
abbrev pub joined : List ℕ → List (List ℕ) → List ℕ
joined first [] = first
joined first (f ∷ fs) = first ++ (b'&' ∷ joined f fs)

abbrev pub AllPlain : List (List ℕ) → Type 0
AllPlain [] = Unit {0}
AllPlain (f ∷ fs) = (is_plain f ≡ true) × AllPlain fs

split_fields-joined :
    (first : List ℕ) (fs : List (List ℕ))
    → is_plain first ≡ true
    → AllPlain fs
    → split_fields (joined first fs) ≡ first ∷ fs
split_fields-joined first [] h k = split_fields-last first h
split_fields-joined first (f ∷ fs) h k =
    split_fields-append first (joined f fs) h ∙ ap (◌∷◌ first) (split_fields-joined f fs k.0 k.1)

joined-contains :
    (first : List ℕ) (fs : List (List ℕ))
    → is_plain first ≡ true
    → AllPlain fs
    → contains backslash (joined first fs) ≡ false
unfolding contains
joined-contains first [] h k = plain-contains first h
joined-contains first (f ∷ fs) h k =
    contains-append backslash first (b'&' ∷ joined f fs) (plain-contains first h)
      (joined-contains f fs k.0 k.1)

-- `USB\VID_vvvv&PID_pppp&...\instance`
abbrev pub usb_id : List ℕ → List ℕ → List (List ℕ) → List ℕ → List ℕ
usb_id vendor product extra serial =
    usb ++ (backslash ∷ (joined (vid ++ vendor) ((pid ++ product) ∷ extra) ++ (backslash ∷ serial)))

id-plain : (p v : List ℕ) → is_plain p ≡ true → is_id v ≡ true → is_plain (p ++ v) ≡ true
id-plain p v h k = is_plain-append p v h (hex-is_plain v (ground arith))

usb_bus : contains backslash usb ≡ false
unfolding contains
usb_bus = refl

serial-is_empty : (s : List ℕ) → s ≢ [] → is_empty s ≡ false
serial-is_empty [] h = absurd (h refl)
serial-is_empty (c ∷ s) h = refl

on_bus-usb :
    (device serial vendor product : List ℕ) (extra : List (List ℕ))
    → split_fields device ≡ (vid ++ vendor) ∷ (pid ++ product) ∷ extra
    → (is_id vendor && is_id product) ≡ true
    → is_empty serial ≡ false
    → contains backslash serial ≡ false
    → on_bus usb device serial
      ≡ some (record {
        vendor = vendor;
        product = product;
        serial = serial;
        use_parent = any_interface extra;
      })
on_bus-usb device serial vendor product extra e i n b = rw (b, e, i, n)

-- The device id of a USB device with these ids, further fields and serial number is read back as
-- those; its parent is to be asked for the serial number exactly if a field names an interface.
pub usb_identity-usb_id :
    (vendor product : List ℕ) (extra : List (List ℕ)) (serial : List ℕ)
    → is_id vendor ≡ true
    → is_id product ≡ true
    → AllPlain extra
    → serial ≢ []
    → contains backslash serial ≡ false
    → usb_identity (usb_id vendor product extra serial)
      ≡ some (record {
        vendor = vendor;
        product = product;
        serial = serial;
        use_parent = any_interface extra;
      })
unfolding usb_identity
usb_identity-usb_id vendor product extra serial hv hp he hs hb =
    let plain = id-plain vid vendor refl hv in
    let others : AllPlain ((pid ++ product) ∷ extra) = (id-plain pid product refl hp, he) in
    let device = joined (vid ++ vendor) ((pid ++ product) ∷ extra) in
    ap (λ r. r >>= after_bus)
      (split_once-append backslash usb (device ++ (backslash ∷ serial)) usb_bus)
    ∙ ap (λ r. r >>= λ q. on_bus usb q.0 q.1)
        (split_once-append backslash device serial
          (joined-contains (vid ++ vendor) ((pid ++ product) ∷ extra) plain others))
    ∙ on_bus-usb device serial vendor product extra
        (split_fields-joined (vid ++ vendor) ((pid ++ product) ∷ extra) plain others) (rw (hv, hp))
        (serial-is_empty serial hs) hb
