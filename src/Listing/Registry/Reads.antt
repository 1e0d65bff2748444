-- ===== src/Listing/Registry/Reads.antt =====
-- What `registry_string` of src/platform/windows_list.rs reads.
use node_serialport_rs.Prelude.{
  ℕ, ◌+◌, ◌*◌, ◌/◌, ◌%◌, ◌≤◌, ◌<◌, ◌≡◌, refl, sym, ap, ◌∙◌, ◌==◌, ltb, leb, not, ◌&&◌, ◌||◌,
  if◌then◌else◌, if_cases, true, false, Option, none, some, List, [], ◌∷◌, ◌++◌, length, take, drop,
  replicate, arith, length-append, length-replicate, take-append,
}
use node_serialport_rs.Listing.Registry.{
  Answer, Query, nul_or_end, wide_string, filled, sized, registry_string,
}

-- The units in front of the first NUL.
abbrev pub until_nul : List ℕ → List ℕ
until_nul [] = []
until_nul (u ∷ us) = if u == 0 then [] else u ∷ until_nul us

take-until_nul : (us : List ℕ) → take (nul_or_end us) us ≡ until_nul us
take-until_nul [] = refl
take-until_nul (u ∷ us) = ground (arith, take-until_nul us)

abbrev pub text_of : (List ℕ → List ℕ) → List ℕ → Option (List ℕ)
text_of lossy [] = none
text_of lossy (u ∷ us) = some (lossy (u ∷ us))

wide_string_lem :
    (lossy : List ℕ → List ℕ) (us : List ℕ) → wide_string lossy us ≡ text_of lossy (until_nul us)
unfolding wide_string
wide_string_lem lossy [] = refl
wide_string_lem lossy (u ∷ us) = ground (arith, take-until_nul us)

-- A registry that holds a value of this kind, of these units and perhaps one byte behind them: it
-- reports the kind and the size in bytes, and fills a buffer that is long enough.
pub record HoldsValue {W : Type 0} (query : Query W) (kind : ℕ) (value : List ℕ) (odd : ℕ)
    : Type 0 where
  pub odd_bound : odd < 2
  pub probe_kind : (k s : ℕ) (w : W) → (query [] k s w).1.kind ≡ kind
  pub probe_size : (k s : ℕ) (w : W) → (query [] k s w).1.size ≡ 2 * length value + odd
  pub fills :
      (buffer : List ℕ) (k s : ℕ) (w : W)
      → length value ≤ length buffer
      → odd ≡ 0
      → (query buffer k s w).1 ≡ record {
        ok = true;
        buffer = value ++ drop (length value) buffer;
        kind = kind;
        size = 2 * length value;
      }

-- What is to be read of a value.
abbrev pub string_of : (List ℕ → List ℕ) → ℕ → List ℕ → ℕ → Option (List ℕ)
string_of lossy kind value odd =
    if kind == 1 && (odd == 0 && leb (length value) 32768)
    then text_of lossy (until_nul value)
    else none

filled_lem :
    (lossy : List ℕ → List ℕ) (kind : ℕ) (value rest : List ℕ)
    → filled lossy
        (record { ok = true; buffer = value ++ rest; kind = kind; size = 2 * length value })
      ≡ (if kind == 1 then text_of lossy (until_nul value) else none)
filled_lem lossy kind value rest =
    let taken : take (2 * length value / 2) (value ++ rest) ≡ value =
      ap (λ n. take n (value ++ rest)) {x = 2 * length value / 2} {y = length value} (omega arith)
      ∙ take-append value rest in
    let fits : leb (2 * length value / 2) (length (value ++ rest)) ≡ true =
      ground (arith, length-append value rest) in
    let even : ((2 * length value % 2) == 0) ≡ true = ground arith in
    rw (even, fits, taken, wide_string_lem lossy value) ground arith

string_of-refused :
    (lossy : List ℕ → List ℕ) (kind : ℕ) (value : List ℕ) (odd : ℕ)
    → (odd == 0 && leb (length value) 32768) ≡ false
    → string_of lossy kind value odd ≡ none
string_of-refused lossy kind value odd h = ground arith

string_of-empty :
    (lossy : List ℕ → List ℕ) (kind : ℕ) (value : List ℕ) (odd : ℕ)
    → length value ≡ 0
    → string_of lossy kind value odd ≡ none
string_of-empty lossy kind [] odd h = ground arith
string_of-empty lossy kind (u ∷ us) odd h = absurd (omega arith)

string_of-kept :
    (lossy : List ℕ → List ℕ) (kind : ℕ) (value : List ℕ) (odd : ℕ)
    → (odd == 0 && leb (length value) 32768) ≡ true
    → string_of lossy kind value odd ≡ (if kind == 1 then text_of lossy (until_nul value) else none)
string_of-kept lossy kind value odd h = rw h ground arith

module _ {W : Type 0} (lossy : List ℕ → List ℕ) (query : Query W) {kind : ℕ} {value : List ℕ}
    {odd : ℕ} (law : HoldsValue query kind value odd) where
  read_lem :
      (w : W) (a : Answer)
      → a.size ≡ 2 * length value + odd
      → (odd == 0 && leb (length value) 32768) ≡ true
      → filled lossy (query (replicate (a.size / 2) 0) a.kind a.size w).1
        ≡ string_of lossy kind value odd
  read_lem w a e h =
      let buffer : List ℕ = replicate (a.size / 2) 0 in
      let room : length value ≤ length buffer =
        ground (arith, length-replicate {A = ℕ} (a.size / 2) 0) in
      let even : odd ≡ 0 = ground arith in
      ap (filled lossy) (law.fills buffer a.kind a.size w room even)
      ∙ filled_lem lossy kind value (drop (length value) buffer)
      ∙ sym (string_of-kept lossy kind value odd h)

  sized_lem :
      (w : W) (a : Answer)
      → a.size ≡ 2 * length value + odd
      → (sized lossy query (w, a)).1 ≡ string_of lossy kind value odd
  sized_lem w a e =
      let b = query (replicate (a.size / 2) 0) a.kind a.size w in
      let IsRead : W × Option (List ℕ) → Type 0 = λ r. r.1 ≡ string_of lossy kind value odd in
      if_cases IsRead (a.size == 0) _ _
        (λ h. sym (string_of-empty lossy kind value odd (ground arith)))
        (λ h.
          if_cases IsRead (ltb 65536 a.size || not (a.size % 2 == 0)) (w, none)
            (b.0, filled lossy b.1)
            (λ k. sym (string_of-refused lossy kind value odd (ground (arith, law.odd_bound))))
            (λ k. read_lem w a e (ground (arith, law.odd_bound))))

  -- A string of the registry is read whole, up to its first NUL; an empty one, one longer than 64 KiB,
  -- one whose size is odd, and a value that is no string give nothing.
  pub registry_string-string_of :
      (w : W) → (registry_string lossy query w).1 ≡ string_of lossy kind value odd
  unfolding registry_string
  registry_string-string_of w =
      sized_lem (query [] 0 0 w).0 (query [] 0 0 w).1 (law.probe_size 0 0 w)
