-- ===== src/Listing/Location.antt =====
-- src/platform/macos_list.rs, `format_location`: the location of a USB device, as eight hexadecimal
-- digits. `parse_u8` is `str::parse::<u8>` and `hex` the `{:08x}` of the standard library.
pub mod Parse
pub mod Digits
use node_serialport_rs.Prelude.{
  ℕ, zero, suc, ◌+◌, ◌-◌, ◌*◌, ◌/◌, ◌%◌, ◌^◌, ◌==◌, ltb, leb, ◌&&◌, ◌||◌, if◌then◌else◌, Bool, true,
  false, Option, none, some, List, [], ◌∷◌, ◌++◌, length, bit_or,
}
use node_serialport_rs.Listing.Text.{is_between}

-- One more decimal digit of a number below 256; `none` where it is no digit or the number overflows.
abbrev pub with_digit : ℕ → ℕ → Option ℕ
with_digit n c =
    let m = 10 * n + (c - b'0') in if is_between b'0' b'9' c && leb m 255 then some m else none

abbrev pub parse_digits : Option ℕ → List ℕ → Option ℕ
parse_digits none cs = none
parse_digits (some n) [] = some n
parse_digits (some n) (c ∷ cs) = parse_digits (with_digit n c) cs

abbrev pub without_sign : List ℕ → List ℕ
without_sign [] = []
without_sign (c ∷ []) = c ∷ []
without_sign (c ∷ d ∷ cs) = if c == b'+' then d ∷ cs else c ∷ d ∷ cs

unfoldable pub parse_u8 : List ℕ → Option ℕ
parse_u8 [] = none
parse_u8 (c ∷ cs) = parse_digits (some 0) (without_sign (c ∷ cs))

abbrev pub any_large : List ℕ → Bool
any_large [] = false
any_large (p ∷ ps) = ltb 15 p || any_large ps

-- The loop, from `index`; the shift does not overflow since a port is below 16.
unfoldable pub or_ports : ℕ → List ℕ → ℕ → ℕ
or_ports index [] id = id
or_ports index (p ∷ ps) id = or_ports (index + 1) ps (bit_or id (p * 2 ^ (20 - index * 4)))

abbrev pub hex_digit : ℕ → ℕ
hex_digit d = if ltb d 10 then b'0' + d else b'a' + (d - 10)

-- The last `n` hexadecimal digits of a number.
unfoldable pub hex : ℕ → ℕ → List ℕ
hex zero id = []
hex (suc n) id = hex n (id / 16) ++ (hex_digit (id % 16) ∷ [])

abbrev pub located : List ℕ → Option ℕ → Option (List ℕ)
located ports none = none
located ports (some bus) =
    if ltb 6 (length ports) || any_large ports
    then none
    else some (hex 8 (or_ports 0 ports (bus * 2 ^ 24)))

unfoldable pub format_location : List ℕ → List ℕ → Option (List ℕ)
unfolding parse_u8 or_ports hex
format_location bus ports = located ports (parse_u8 bus)
