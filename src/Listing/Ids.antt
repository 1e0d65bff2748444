-- ===== src/Listing/Ids.antt =====
-- src/platform.rs, `port_ids`: the stable names of the ports of a Linux system.
pub mod Least
use node_serialport_rs.Prelude.{
  ℕ, ◌==◌, ◌&&◌, ◌||◌, ◌++◌, if◌then◌else◌, Bool, true, false, Option, none, some, List, [], ◌∷◌,
}
use node_serialport_rs.Listing.Text.{onto_first}
use node_serialport_rs.Listing.Sort.{sort_by_key}

-- An entry of the directory, with what `canonicalize` makes of its path.
pub record DirEntry : Type 0 where
  pub file_name : List ℕ
  pub target : Option (List ℕ)

abbrev pub text_eq : List ℕ → List ℕ → Bool
text_eq [] [] = true
text_eq [] (d ∷ ds) = false
text_eq (c ∷ cs) [] = false
text_eq (c ∷ cs) (d ∷ ds) = c == d && text_eq cs ds

-- `split('/')`
abbrev pub split_slashes : List ℕ → List (List ℕ)
split_slashes [] = [] ∷ []
split_slashes (c ∷ cs) = let fs = split_slashes cs in if c == b'/' then [] ∷ fs else onto_first c fs

-- The components of a Unix path, each behind a slash: empty ones and single dots are left out.
abbrev pub kept_components : List (List ℕ) → List ℕ
kept_components [] = []
kept_components (f ∷ fs) =
    let rest = kept_components fs in
    if text_eq f [] || text_eq f (b'.' ∷ []) then rest else b'/' ∷ (f ++ rest)

-- A dot in front of a relative path is a component.
abbrev pub normal_components : List (List ℕ) → List ℕ
normal_components [] = []
normal_components (f ∷ []) = if text_eq f (b'.' ∷ []) then f else kept_components (f ∷ [])
normal_components (f ∷ g ∷ fs) =
    if text_eq f []
    then b'/' ∷ kept_components (g ∷ fs)
    else if text_eq f (b'.' ∷ [])
    then f ++ kept_components (g ∷ fs)
    else kept_components (f ∷ g ∷ fs)

-- Two paths are equal by their components, and whether they are absolute.
unfoldable pub same_path : List ℕ → List ℕ → Bool
same_path a b = text_eq (normal_components (split_slashes a)) (normal_components (split_slashes b))

-- The `HashMap`, as an association list.
abbrev pub get : List ℕ → List (List ℕ × List ℕ) → Option (List ℕ)
get path [] = none
get path ((p, name) ∷ ids) = let rest = get path ids in if same_path p path then some name else rest

abbrev pub or_insert :
    List ℕ → List ℕ → List (List ℕ × List ℕ) → Option (List ℕ) → List (List ℕ × List ℕ)
or_insert path name ids none = (path, name) ∷ ids
or_insert path name ids (some old) = ids

-- `flatten` on the entries: those that could not be read are left out.
abbrev pub readable : List (Option DirEntry) → List DirEntry
readable [] = []
readable (none ∷ es) = readable es
readable (some e ∷ es) = e ∷ readable es

-- The body of the loop. `lossy` is `to_string_lossy`.
abbrev pub insert_target :
    (List ℕ → List ℕ) → List ℕ → List (List ℕ × List ℕ) → Option (List ℕ) → List (List ℕ × List ℕ)
insert_target lossy name ids none = ids
insert_target lossy name ids (some path) = or_insert path (lossy name) ids (get path ids)

unfoldable pub insert_all :
    (List ℕ → List ℕ) → List DirEntry → List (List ℕ × List ℕ) → List (List ℕ × List ℕ)
insert_all lossy [] ids = ids
insert_all lossy (e ∷ es) ids = insert_all lossy es (insert_target lossy e.file_name ids e.target)

-- `port_ids`, on what `read_dir` gives: the entries, or none where it fails.
unfoldable pub port_ids :
    (List ℕ → List ℕ) → Option (List (Option DirEntry)) → List (List ℕ × List ℕ)
unfolding insert_all
port_ids lossy none = []
port_ids lossy (some entries) =
    insert_all lossy (sort_by_key (λ (e : DirEntry). e.file_name) (readable entries)) []
