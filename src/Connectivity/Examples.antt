-- ===== src/Connectivity/Examples.antt =====
-- A commit and its tree, in a store without an index.
use open_relic.Prelude.{
  ℕ, zero, suc, ◌≤◌, ◌≡◌, sym, ◌∙◌, Bool-cases, inl, inr, length, arith, ◌≢◌, refl, List, [], ◌∷◌,
  ◌++◌, Option, none, some, ok, err, out_of_fuel, if◌then◌else◌,
}
use mathlib.Core.Path.{subst}
use open_relic.Prelude.Codes.{Text, codes, text_eq, text_eq_iff}
use open_relic.GitObject.{ObjectType, commit, tree, is_object_id, is_lower_hex}
use open_relic.Prelude.Strings.{split, trim, trim_start, trim_end, member}
use open_relic.Prelude.Maps.{lookup, insert}
use open_relic.TreeEntry.{cut, tree_entries, entries_loop, entries_step, next_entry}
use open_relic.Connectivity.{
  links_to_verify, commit_links, commit_header, header_of, header_fields, header_bytes, fields_loop,
  add_field, check_parents, parent_links, tree_links, scan_links, entry_links,
}
use open_relic.Connectivity.Walk.{
  parsed_links, links_found, visit_all, visit_frontier, go_on, walk, fresh_ones, distinct, push_all,
  ObjectSource, find_missing_object,
}
use open_relic.Connectivity.Membership.{In}
use open_relic.Connectivity.Ending.{IsBounded, find_missing_object-ends, weigh}

abbrev pub copies : ℕ → ℕ → List ℕ
copies zero x = []
copies (suc n) x = x ∷ copies n x

abbrev pub named : ℕ → Text
named digit = copies 40 digit

abbrev pub ascii : List ℕ → Text
ascii bytes = bytes

abbrev pub commit_bytes : List ℕ
commit_bytes = codes "tree " ++ named 50 ++ codes "\nauthor a\n\nhello"

-- A tree with one file.
abbrev pub tree_bytes : List ℕ
tree_bytes = codes "100644 a" ++ (0 ∷ copies 20 17)

abbrev read_two : Text → Option (ObjectType × List ℕ)
read_two oid =
    if text_eq oid (named 49)
    then some (commit, commit_bytes)
    else if text_eq oid (named 50)
    then some (tree, tree_bytes)
    else none

abbrev pub two : ObjectSource
two = record {
  read = read_two;
  read_connectivity = λ tip known shallow. none;
  read_indexed_objects = λ batch. [];
}

abbrev universe : List Text
universe = named 49 ∷ named 50 ∷ []

parsed_commit :
    (x : Text) → parsed_links ascii two [] x (some (commit, commit_bytes)) ≡ some (named 50 ∷ [])
unfolding parsed_links links_to_verify commit_links commit_header header_of header_fields
    header_bytes fields_loop add_field check_parents parent_links lookup insert split trim
    trim_start trim_end member text_eq is_object_id is_lower_hex cut
parsed_commit x = refl

parsed_tree : (x : Text) → parsed_links ascii two [] x (some (tree, tree_bytes)) ≡ some []
unfolding parsed_links links_to_verify tree_links scan_links entry_links tree_entries entries_loop
    entries_step next_entry cut text_eq
parsed_tree x = refl

-- The walk from the commit finds nothing missing.
pub walked_two :
    find_missing_object ascii two [] [] [] 10 (named 49) ≡ ok (named 50 ∷ named 49 ∷ [])
unfolding find_missing_object walk go_on visit_frontier visit_all links_found parsed_links
    fresh_ones distinct push_all lookup member text_eq links_to_verify commit_links commit_header
    header_of header_fields header_bytes fields_loop add_field check_parents parent_links insert
    split trim trim_start trim_end cut tree_links scan_links entry_links tree_entries entries_loop
    entries_step next_entry
walked_two = refl

-- The two objects have at most one link each.
first_held : In (named 49) universe
unfolding member text_eq
first_held = refl

second_held : In (named 50) universe
unfolding member text_eq
second_held = refl

read_two-IsBounded :
    (oid : Text) (links : List Text)
    → parsed_links ascii two [] oid (read_two oid) ≡ some links
    → (length links ≤ 1) × In oid universe
unfolding member parsed_links
read_two-IsBounded oid links e = elim (Bool-cases (text_eq oid (named 49))) [
  | inl one ↦
      let parsed = rw one at e in
      let same : some links ≡ some (named 50 ∷ []) = sym parsed ∙ parsed_commit oid in
      let fits = subst few (sym same) (omega arith) in
      (fits, subst (λ z. In z universe) (sym ((text_eq_iff oid (named 49)).0 one)) first_held)
  | inr other ↦ elim (Bool-cases (text_eq oid (named 50))) [
    | inl one ↦
        let parsed = rw (other, one) at e in
        let same : some links ≡ some [] = sym parsed ∙ parsed_tree oid in
        let fits = subst few (sym same) (omega arith) in
        (fits, subst (λ z. In z universe) (sym ((text_eq_iff oid (named 50)).0 one)) second_held)
    | inr neither ↦ let bad = rw (other, neither) at e in cc
  ]
]
  where
    few : Option (List Text) → Type 0
    few none = 0 ≤ 0
    few (some x) = length x ≤ 1

two-IsBounded : IsBounded ascii two [] (λ oid. 1) universe
unfolding links_found lookup
two-IsBounded batch oid links e = read_two-IsBounded oid links e

find_missing_object-ends_example :
    find_missing_object ascii two [] [] [] 4 (named 49) ≢ err out_of_fuel
unfolding weigh member
find_missing_object-ends_example =
    find_missing_object-ends ascii two [] (λ oid. 1) universe two-IsBounded [] [] 4 (named 49)
      (omega arith)
