-- ===== src/Listing/Ids/Least.antt =====
-- Which name `port_ids` of src/platform.rs gives to a port.
use node_serialport_rs.Prelude.{
  ℕ, ◌≡◌, refl, sym, ap, ap₂, ◌∙◌, if◌then◌else◌, if_cases, Bool, true, false, Option, none, some,
  List, [], ◌∷◌, arith, Bool-cases, inl, inr,
}
use node_serialport_rs.Listing.Sort.{
  text_le, insert, sort_by_key, FromOn, FromOn-trans, Sorted, sort_by_key-Sorted,
}
use node_serialport_rs.Listing.Ids.{
  DirEntry, text_eq, split_slashes, normal_components, same_path, get, or_insert, readable,
  insert_target, insert_all, port_ids,
}

abbrev pub leads_to : List ℕ → Option (List ℕ) → Bool
leads_to path none = false
leads_to path (some target) = same_path target path

-- The name of the first entry that leads to a path.
abbrev first_name : List ℕ → List DirEntry → Option (List ℕ)
first_name path [] = none
first_name path (e ∷ es) =
    let rest = first_name path es in if leads_to path e.target then some e.file_name else rest

abbrev pub or_less : List ℕ → Option (List ℕ) → List ℕ
or_less a none = a
or_less a (some b) = if text_le a b then a else b

-- The least of the names that lead to a path, in any order of the entries.
abbrev pub least_name : List ℕ → List DirEntry → Option (List ℕ)
least_name path [] = none
least_name path (e ∷ es) =
    let rest = least_name path es in
    if leads_to path e.target then some (or_less e.file_name rest) else rest

abbrev pub name_of : (List ℕ → List ℕ) → Option (List ℕ) → Option (List ℕ)
name_of lossy none = none
name_of lossy (some name) = some (lossy name)

abbrev or_else : Option (List ℕ) → Option (List ℕ) → Option (List ℕ)
or_else none o = o
or_else (some a) o = some a

text_eq-eq : (a b : List ℕ) → text_eq a b ≡ true → a ≡ b
text_eq-eq [] [] h = refl
text_eq-eq [] (d ∷ ds) h = absurd (ground arith)
text_eq-eq (c ∷ cs) [] h = absurd (ground arith)
text_eq-eq (c ∷ cs) (d ∷ ds) h = ground (arith, text_eq-eq cs ds)

or_else-none : (o : Option (List ℕ)) → or_else o none ≡ o
or_else-none none = refl
or_else-none (some a) = refl

get-same_path :
    (a b : List ℕ) (ids : List (List ℕ × List ℕ)) → same_path a b ≡ true → get b ids ≡ get a ids
unfolding same_path
get-same_path a b [] h = refl
get-same_path a b ((p, name) ∷ ids) h =
    let key : List ℕ → List ℕ = λ s. normal_components (split_slashes s) in
    ap₂ (λ (k : List ℕ) (rest : Option (List ℕ)). if text_eq (key p) k then some name else rest)
      (sym (text_eq-eq (key a) (key b) h)) (get-same_path a b ids h)

get-or_insert :
    (path target name : List ℕ) (ids : List (List ℕ × List ℕ)) (known : Option (List ℕ))
    → (same_path target path ≡ true → get path ids ≡ known)
    → get path (or_insert target name ids known)
      ≡ or_else (get path ids) (if same_path target path then some name else none)
get-or_insert path target name ids none h =
    if_cases
      (λ (o : Option (List ℕ)).
        o ≡ or_else (get path ids) (if same_path target path then some name else none))
      (same_path target path) _ _ (λ e. rw (e, h e) refl)
      (λ e. rw e (sym (or_else-none (get path ids))))
get-or_insert path target name ids (some old) h = elim (Bool-cases (same_path target path)) [
  | inl e ↦ rw (h e) refl
  | inr e ↦ rw e (sym (or_else-none (get path ids)))
]

-- One entry is put in behind what is known already.
get-insert_target :
    (lossy : List ℕ → List ℕ) (path name : List ℕ) (ids : List (List ℕ × List ℕ))
    (t : Option (List ℕ))
    → get path (insert_target lossy name ids t)
      ≡ or_else (get path ids) (if leads_to path t then some (lossy name) else none)
get-insert_target lossy path name ids none = sym (or_else-none (get path ids))
get-insert_target lossy path name ids (some target) =
    get-or_insert path target (lossy name) ids (get target ids)
      (λ e. get-same_path target path ids e)

get-insert_all :
    (lossy : List ℕ → List ℕ) (path : List ℕ) (es : List DirEntry) (ids : List (List ℕ × List ℕ))
    → get path (insert_all lossy es ids)
      ≡ or_else (get path ids) (name_of lossy (first_name path es))
unfolding insert_all
get-insert_all lossy path [] ids = ground arith
get-insert_all lossy path (e ∷ es) ids =
    get-insert_all lossy path es (insert_target lossy e.file_name ids e.target)
    ∙ ground (arith, get-insert_target lossy path e.file_name ids e.target)

abbrev FromName : List ℕ → Option (List ℕ) → Type 0
FromName k none = Unit {0}
FromName k (some n) = text_le k n ≡ true

abbrev file_name_of : DirEntry → List ℕ
file_name_of e = e.file_name

first_name-FromName :
    (k path : List ℕ) (es : List DirEntry)
    → FromOn file_name_of k es
    → FromName k (first_name path es)
first_name-FromName k path [] h = tt
first_name-FromName k path (e ∷ es) h =
    if_cases (FromName k) (leads_to path e.target) _ _ (λ _. h.0)
      (λ _. first_name-FromName k path es h.1)

or_less_first : (a : List ℕ) (o : Option (List ℕ)) → FromName a o → or_less a o ≡ a
or_less_first a none h = refl
or_less_first a (some b) h = rw h refl

first_name-insert :
    (path : List ℕ) (e : DirEntry) (es : List DirEntry)
    → Sorted file_name_of es
    → first_name path (insert file_name_of e es) ≡ (
        if leads_to path e.target
        then some (or_less e.file_name (first_name path es))
        else first_name path es)
unfolding insert
first_name-insert path e [] s = ground arith
first_name-insert path e (d ∷ ds) s =
    let found = first_name path (d ∷ ds) in
    let fits : List DirEntry → Type 0 = λ r.
      first_name path r
      ≡ (if leads_to path e.target then some (or_less e.file_name found) else found) in
    if_cases fits (text_le e.file_name d.file_name) (e ∷ d ∷ ds) (d ∷ insert file_name_of e ds)
      (λ h.
        ap (λ n. if leads_to path e.target then some n else found)
          (sym (
            or_less_first e.file_name found (
              first_name-FromName e.file_name path (d ∷ ds)
                (h, FromOn-trans file_name_of e.file_name d.file_name ds h s.0)))))
      (λ h. ground (arith, first_name-insert path e ds s.1))

first_name-sort :
    (path : List ℕ) (es : List DirEntry)
    → first_name path (sort_by_key file_name_of es) ≡ least_name path es
unfolding sort_by_key
first_name-sort path [] = refl
first_name-sort path (e ∷ es) =
    first_name-insert path e (sort_by_key file_name_of es) (sort_by_key-Sorted file_name_of es)
    ∙ ap (λ r. if leads_to path e.target then some (or_less e.file_name r) else r)
        (first_name-sort path es)

abbrev pub entries_of : Option (List (Option DirEntry)) → List DirEntry
entries_of none = []
entries_of (some es) = readable es

-- A port has the least of the names of the directory that lead to it, whatever the order in which
-- the directory lists them, and none if no entry that can be read and resolved leads to it.
pub get-port_ids :
    (lossy : List ℕ → List ℕ) (path : List ℕ) (dir : Option (List (Option DirEntry)))
    → get path (port_ids lossy dir) ≡ name_of lossy (least_name path (entries_of dir))
unfolding port_ids
get-port_ids lossy path none = refl
get-port_ids lossy path (some es) =
    get-insert_all lossy path (sort_by_key file_name_of (readable es)) []
    ∙ ap (name_of lossy) (first_name-sort path (readable es))
