-- ===== src/Listing/Location/Digits.antt =====
-- Which digits `format_location` of src/platform/macos_list.rs prints.
use node_serialport_rs.Prelude.{
  ℕ, zero, suc, ◌+◌, ◌-◌, ◌*◌, ◌/◌, ◌%◌, ◌^◌, ◌≤◌, ◌<◌, ◌≡◌, refl, ap, sym, ◌∙◌, ltb, ◌||◌,
  if◌then◌else◌, if_cases, false, Option, none, some, List, [], ◌∷◌, ◌++◌, length, bit_or,
  append_assoc, append-nil, arith,
}
use node_serialport_rs.Bits.{bit_or_parts}
use node_serialport_rs.Listing.Location.{
  any_large, or_ports, hex_digit, hex, located, format_location,
}
use node_serialport_rs.Listing.Location.Parse.{decimal, parse_u8-decimal}
use native.Mathlib.Nat.{pow-suc, mul-le-mul_right}

-- The ports, one digit each, and zeroes up to `n` digits, as a number.
abbrev port_number : ℕ → List ℕ → ℕ
port_number zero ps = 0
port_number (suc n) [] = 0
port_number (suc n) (p ∷ ps) = p * 2 ^ (4 * n) + port_number n ps

-- As text.
abbrev pub padded : ℕ → List ℕ → List ℕ
padded zero ps = []
padded (suc n) [] = b'0' ∷ padded n []
padded (suc n) (p ∷ ps) = hex_digit p ∷ padded n ps

pow_16 : (n : ℕ) → 2 ^ (4 * suc n) ≡ 16 * 2 ^ (4 * n)
pow_16 n =
    let k = 4 * n in
    ap (λ m. 2 ^ m) {x = 4 * suc n} {y = suc (suc (suc (suc k)))} (omega arith)
    ∙ omega (
      arith,
      pow-suc 2 k,
      pow-suc 2 (suc k),
      pow-suc 2 (suc (suc k)),
      pow-suc 2 (suc (suc (suc k))),
    )

scaled_16 : (n q : ℕ) → q * 2 ^ (4 * suc n) ≡ 16 * (q * 2 ^ (4 * n))
scaled_16 n q = ap (λ (t : ℕ). q * t) (pow_16 n) ∙ omega arith

port_number_bound : (n : ℕ) (ps : List ℕ) → any_large ps ≡ false → port_number n ps < 2 ^ (4 * n)
port_number_bound zero ps h = omega arith
port_number_bound (suc n) [] h = omega (arith, pow_16 n, port_number_bound n [] h)
port_number_bound (suc n) (p ∷ ps) h =
    let small : p ≤ 15 = ground arith in
    let others : any_large ps ≡ false = ground arith in
    omega (
      arith,
      pow_16 n,
      port_number_bound n ps others,
      mul-le-mul_right {m = p} {n = 15} (2 ^ (4 * n)) small,
    )

port_number_nil : (n : ℕ) → port_number n [] ≡ 0
port_number_nil zero = refl
port_number_nil (suc n) = refl

-- The loop puts the ports below the bus.
or_ports_lem :
    (n index : ℕ) (ps : List ℕ) (q : ℕ)
    → index + n ≡ 6
    → length ps ≤ n
    → any_large ps ≡ false
    → or_ports index ps (q * 2 ^ (4 * n)) ≡ q * 2 ^ (4 * n) + port_number n ps
unfolding or_ports
or_ports_lem n index [] q e l h = omega (arith, port_number_nil n)
or_ports_lem zero index (p ∷ ps) q e l h = absurd (omega arith)
or_ports_lem (suc n) index (p ∷ ps) q e l h =
    let small : p ≤ 15 = ground arith in
    let others : any_large ps ≡ false = ground arith in
    let x = 2 ^ (4 * n) in
    let below : p * x < 2 ^ (4 * suc n) =
      omega
        (arith, pow_16 n, mul-le-mul_right {m = p} {n = 15} x small, port_number_bound n [] refl) in
    let sum : bit_or (q * 2 ^ (4 * suc n)) (p * 2 ^ (20 - index * 4)) ≡ (16 * q + p) * x =
      ap (λ k. bit_or (q * 2 ^ (4 * suc n)) (p * 2 ^ k)) {x = 20 - index * 4} {y = 4 * n}
        (omega arith)
      ∙ bit_or_parts (4 * suc n) q (p * x) below
      ∙ omega (arith, scaled_16 n q) in
    ap (or_ports (index + 1) ps) sum
    ∙ or_ports_lem n (index + 1) ps (16 * q + p) (omega arith) (omega arith) others
    ∙ omega (arith, scaled_16 n q)

hex-parts : (m n q r : ℕ) → r < 2 ^ (4 * n) → hex (n + m) (q * 2 ^ (4 * n) + r) ≡ hex m q ++ hex n r
unfolding hex
hex-parts m zero q r h =
    ap (λ k. hex k (q * 1 + r)) {x = 0 + m} {y = m} (omega arith)
    ∙ ap (hex m) {x = q * 1 + r} {y = q} (omega arith)
    ∙ sym (append-nil (hex m q))
hex-parts m (suc n) q r h =
    let quotient : (q * 2 ^ (4 * suc n) + r) / 16 ≡ q * 2 ^ (4 * n) + r / 16 =
      omega (arith, scaled_16 n q) in
    let last : (q * 2 ^ (4 * suc n) + r) % 16 ≡ r % 16 = omega (arith, scaled_16 n q) in
    ap (λ k. hex k (q * 2 ^ (4 * suc n) + r)) {x = suc n + m} {y = suc (n + m)} (omega arith)
    ∙ rw (quotient, last, hex-parts m n q (r / 16) (omega (arith, pow_16 n)), append_assoc)

hex-first :
    (n p r : ℕ)
    → p ≤ 15
    → r < 2 ^ (4 * n)
    → hex (suc n) (p * 2 ^ (4 * n) + r) ≡ hex_digit p ∷ hex n r
unfolding hex
hex-first n p r h l =
    let first : hex 1 p ≡ hex_digit p ∷ [] =
      ap (λ d. hex_digit d ∷ []) {x = p % 16} {y = p} (omega arith) in
    ap (λ k. hex k (p * 2 ^ (4 * n) + r)) {x = suc n} {y = n + 1} (omega arith)
    ∙ hex-parts 1 n p r l
    ∙ ap (λ ds. ds ++ hex n r) first

hex-port_number :
    (n : ℕ) (ps : List ℕ) → any_large ps ≡ false → hex n (port_number n ps) ≡ padded n ps
unfolding hex
hex-port_number zero ps h = refl
hex-port_number (suc n) [] h =
    ap (hex (suc n)) {x = 0} {y = 0 * 2 ^ (4 * n) + port_number n []}
      (omega (arith, port_number_nil n))
    ∙ hex-first n 0 (port_number n []) (omega arith) (port_number_bound n [] refl)
    ∙ ap (◌∷◌ b'0') (hex-port_number n [] refl)
hex-port_number (suc n) (p ∷ ps) h =
    let others : any_large ps ≡ false = ground arith in
    hex-first n p (port_number n ps) (ground arith) (port_number_bound n ps others)
    ∙ ap (◌∷◌ (hex_digit p)) (hex-port_number n ps others)

-- The text that stands for a bus and the ports behind it.
abbrev pub location_text : ℕ → List ℕ → Option (List ℕ)
location_text bus ports =
    if ltb 6 (length ports) || any_large ports then none else some (hex 2 bus ++ padded 6 ports)

located_lem : (bus : ℕ) (ports : List ℕ) → located ports (some bus) ≡ location_text bus ports
unfolding hex or_ports
located_lem bus ports =
    if_cases (λ (t : Option (List ℕ)). t ≡ location_text bus ports)
      (ltb 6 (length ports) || any_large ports) _ _ (λ h. rw h)
      (λ h.
        let others : any_large ports ≡ false = ground arith in
        ap some (
          ap (hex 8) (or_ports_lem 6 0 ports bus refl (ground arith) others)
          ∙ hex-parts 2 6 bus (port_number 6 ports) (port_number_bound 6 ports others)
          ∙ ap (λ ds. hex 2 bus ++ ds) (hex-port_number 6 ports others))
        ∙ sym (rw h))

-- The location of a device on a bus below 256, which is written in decimal, is two hexadecimal
-- digits for the bus, one for each port of the chain and zeroes up to eight; there is none exactly
-- if the chain is longer than six or has a port above 15.
pub format_location-location_text :
    (bus : ℕ) (ports : List ℕ)
    → bus < 256
    → format_location (decimal bus) ports ≡ location_text bus ports
unfolding format_location
format_location-location_text bus ports h =
    ap (located ports) (parse_u8-decimal bus h) ∙ located_lem bus ports
