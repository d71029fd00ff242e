-- ===== src/Connectivity.antt =====
-- apps/api/src/connectivity.ts: which objects a commit, a tree or a tag names.
pub mod Examples
pub mod Walk
pub mod Membership
pub mod Soundness
pub mod Ending
use open_relic.Prelude.{
  ℕ, List, [], ◌∷◌, ◌++◌, Bool, true, false, ◌&&◌, ◌==◌, if◌then◌else◌, Option, none, some, Result,
  ok, err, Stop, thrown, out_of_fuel, ◌>>=◌,
}
use open_relic.Prelude.Codes.{Text, codes, text_eq}
use open_relic.Prelude.Strings.{split, trim}
use open_relic.Prelude.Maps.{Map, lookup, insert}
use open_relic.GitObject.{ObjectType, commit, tree, blob, tag, type_name, is_object_id}
use open_relic.TreeEntry.{
  ParsedTreeEntry, ObjectParseError, Scan, cut, tree_entries, tree_mode, gitlink_mode,
}

pub record ObjectLink : Type 0 where
  pub oid : Text
  pub type : ObjectType

-- The throws of this file, and those of the tree scan.
pub data LinkError : Type 0 where
  no_tree bad_parent no_object bad_type : LinkError
  bad_tree : ObjectParseError → LinkError

abbrev pub Fault : Type 0
Fault = Stop LinkError

-- The bytes up to the first blank line.
unfoldable pub header_bytes : List ℕ → List ℕ
header_bytes [] = []
header_bytes (b ∷ []) = b ∷ []
header_bytes (b ∷ c ∷ bytes) =
    let rest = header_bytes (c ∷ bytes) in if b == 10 && c == 10 then [] else b ∷ rest

-- `fields` with the value of one more line.
unfoldable pub add_field : Text → Text → Map (List Text) → Map (List Text)
add_field field value fields = elim (lookup field fields) [
  | none ↦ insert field (value ∷ []) fields
  | some existing ↦ insert field (existing ++ (value ∷ [])) fields
]

-- The loop over the lines.
unfoldable pub fields_loop : List Text → Map (List Text) → Map (List Text)
fields_loop [] fields = fields
fields_loop (line ∷ lines) fields = elim (cut 32 line) [
  | none ↦ fields_loop lines fields
  | some x ↦ fields_loop lines (add_field x.0 (trim x.1) fields)
]

-- `fields.get(name) ?? []`.
abbrev pub or_empty : Option (List Text) → List Text
or_empty none = []
or_empty (some values) = values

-- `const [first] = values`.
abbrev pub first : List Text → Option Text
first [] = none
first (value ∷ values) = some value

pub record CommitHeader : Type 0 where
  pub tree : Text
  pub parents : List Text

-- The loop that checks the parents.
unfoldable pub check_parents : List Text → Result Fault (Unit {0})
check_parents [] = ok tt
check_parents (parent ∷ parents) =
    let rest = check_parents parents in
    if is_object_id parent then rest else err (thrown bad_parent)

unfoldable pub object_type : Text → Option ObjectType
object_type name =
    if text_eq name (type_name commit)
    then some commit
    else if text_eq name (type_name tree)
    then some tree
    else if text_eq name (type_name blob)
    then some blob
    else if text_eq name (type_name tag)
    then some tag
    else none

unfoldable pub parent_links : List Text → List ObjectLink
parent_links [] = []
parent_links (parent ∷ parents) = record { oid = parent; type = commit } ∷ parent_links parents

unfoldable pub tag_link : Option Text → Option Text → Result Fault (List ObjectLink)
tag_link none type = err (thrown no_object)
tag_link (some target) type =
    let typed : Result Fault (List ObjectLink) = elim type [
      | none ↦ err (thrown bad_type)
      | some name ↦ elim (object_type name) [
        | none ↦ err (thrown bad_type)
        | some t ↦ ok (record { oid = target; type = t } ∷ [])
      ]
    ] in
    if is_object_id target then typed else err (thrown no_object)

-- The loop over the entries of a tree.
unfoldable pub entry_links : Bool → List ParsedTreeEntry → List ObjectLink
entry_links include_blobs [] = []
entry_links include_blobs (e ∷ entries) =
    let rest = entry_links include_blobs entries in
    if text_eq e.mode tree_mode
    then record { oid = e.oid; type = tree } ∷ rest
    else if text_eq e.mode gitlink_mode
    then rest
    else if include_blobs
    then record { oid = e.oid; type = blob } ∷ rest
    else rest

-- The links of the entries that were yielded, unless the scan throws in the end.
unfoldable pub scan_links : Bool → Scan → Result Fault (List ObjectLink)
scan_links include_blobs s = elim s.ended [
  | ok u ↦ ok (entry_links include_blobs s.entries)
  | err stop ↦ elim stop [ thrown e ↦ err (thrown (bad_tree e)) | out_of_fuel ↦ err out_of_fuel ]
]

-- `links.slice(0, 1)` of a shallow commit.
abbrev pub cut_shallow : Bool → List ObjectLink → List ObjectLink
cut_shallow false links = links
cut_shallow true [] = []
cut_shallow true (link ∷ links) = link ∷ []

-- `decode` is the `decode` of a TextDecoder.
module _ (decode : List ℕ → Text) where
  unfoldable pub header_fields : List ℕ → Map (List Text)
  header_fields bytes = fields_loop (split 10 (decode (header_bytes bytes))) []

  unfoldable pub header_of : Map (List Text) → Result Fault CommitHeader
  header_of fields = elim (first (or_empty (lookup (codes "tree") fields))) [
    | none ↦ err (thrown no_tree)
    | some t ↦
        let parents = or_empty (lookup (codes "parent") fields) in
        if is_object_id t
        then check_parents parents >>= (λ _. ok (record { tree = t; parents = parents }))
        else err (thrown no_tree)
  ]

  unfoldable pub commit_header : List ℕ → Result Fault CommitHeader
  commit_header bytes = header_of (header_fields bytes)

  unfoldable pub commit_links : List ℕ → Result Fault (List ObjectLink)
  commit_links bytes = do
    header ← commit_header bytes
    ok (record { oid = header.tree; type = tree } ∷ parent_links header.parents)

  unfoldable pub tag_links : List ℕ → Result Fault (List ObjectLink)
  tag_links bytes =
      let fields = header_fields bytes in
      tag_link (first (or_empty (lookup (codes "object") fields)))
        (first (or_empty (lookup (codes "type") fields)))

  unfoldable pub tree_links : List ℕ → Bool → Result Fault (List ObjectLink)
  tree_links bytes include_blobs = scan_links include_blobs (tree_entries decode bytes)

  unfoldable pub links_to_verify : ObjectType → List ℕ → Bool → Result Fault (List ObjectLink)
  links_to_verify commit bytes shallow = do
    links ← commit_links bytes
    ok (cut_shallow shallow links)
  links_to_verify tree bytes shallow = tree_links bytes false
  links_to_verify tag bytes shallow = tag_links bytes
  links_to_verify blob bytes shallow = ok []

  unfoldable pub links_to_reach : ObjectType → List ℕ → Bool → Result Fault (List ObjectLink)
  links_to_reach commit bytes shallow = do
    links ← commit_links bytes
    ok (cut_shallow shallow links)
  links_to_reach tree bytes shallow = tree_links bytes true
  links_to_reach tag bytes shallow = tag_links bytes
  links_to_reach blob bytes shallow = ok []

  unfoldable pub commit_parents : List ℕ → Result Fault (List Text)
  commit_parents bytes = do header ← commit_header bytes; ok header.parents
