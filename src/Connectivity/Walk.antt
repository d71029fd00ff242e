-- ===== src/Connectivity/Walk.antt =====
-- apps/api/src/connectivity.ts: findMissingObject, the walk that a push must pass.
use open_relic.Prelude.{
  ℕ, zero, suc, List, [], ◌∷◌, ◌++◌, Bool, true, false, ◌&&◌, ◌||◌, not, take, drop, Option, none,
  some, Result, ok, err, Stop, thrown, out_of_fuel, if◌then◌else◌,
}
use open_relic.Prelude.Codes.{Text}
use open_relic.Prelude.Strings.{member}
use open_relic.Prelude.Maps.{Map, lookup}
use open_relic.GitObject.{ObjectType, commit, tree, blob, tag}
use open_relic.Connectivity.{ObjectLink, links_to_verify}

-- An entry of `readIndexedObjects`.
pub record IndexedObject : Type 0 where
  pub type : ObjectType
  pub links : List ObjectLink

-- An `ObjectSource`. Without `readConnectivity` the closure is always `none`, and without
-- `readIndexedObjects` the map is always empty.
pub record ObjectSource : Type 0 where
  pub read : Text → Option (ObjectType × List ℕ)
  pub read_connectivity : Text → List Text → List Text → Option (List Text)
  pub read_indexed_objects : List Text → Map IndexedObject

abbrev pub skips : ObjectType → ObjectType → Bool → Bool
skips tree blob shallow = true
skips commit commit shallow = shallow
skips tree commit shallow = false
skips tree tree shallow = false
skips tree tag shallow = false
skips commit tree shallow = false
skips commit blob shallow = false
skips commit tag shallow = false
skips blob link shallow = false
skips tag link shallow = false

-- The links of an indexed object that are followed.
unfoldable pub indexed_links : ObjectType → Bool → List ObjectLink → List Text
indexed_links type shallow [] = []
indexed_links type shallow (link ∷ links) =
    let rest = indexed_links type shallow links in
    if skips type link.type shallow then rest else link.oid ∷ rest

abbrev pub link_oids : List ObjectLink → List Text
link_oids [] = []
link_oids (link ∷ links) = link.oid ∷ link_oids links

-- `pending.push` of each: the top of the stack is the head of the list.
unfoldable pub push_all : List Text → List Text → List Text
push_all [] pending = pending
push_all (oid ∷ oids) pending = push_all oids (oid ∷ pending)

-- `new Set(list)`, in the order of its first elements.
unfoldable pub distinct : List Text → List Text → List Text
distinct seen [] = []
distinct seen (oid ∷ oids) =
    let skipped = distinct seen oids in
    let kept = distinct (oid ∷ seen) oids in if member oid seen then skipped else oid ∷ kept

unfoldable pub fresh_ones : List Text → List Text → List Text → List Text → List Text
fresh_ones visited verified traversed [] = []
fresh_ones visited verified traversed (oid ∷ oids) =
    let rest = fresh_ones visited verified traversed oids in
    if not (member oid visited) && not (member oid verified) && not (member oid traversed)
    then oid ∷ rest
    else rest

abbrev pub frontier_count : ℕ
frontier_count = 98

-- `decode` is the `decode` of a TextDecoder.
module _ (decode : List ℕ → Text) (source : ObjectSource) (shallow : List Text) where
  unfoldable pub parsed_links : Text → Option (ObjectType × List ℕ) → Option (List Text)
  parsed_links oid none = none
  parsed_links oid (some (type, bytes)) =
      elim (links_to_verify decode type bytes (member oid shallow)) [
        | err e ↦ none
        | ok links ↦ some (link_oids links)
      ]

  -- What a round of the inner loop pushes, unless the object is missing or cannot be parsed.
  unfoldable pub links_found : Text → Option IndexedObject → Option (List Text)
  links_found oid (some cached) = some (indexed_links cached.type (member oid shallow) cached.links)
  links_found oid none = parsed_links oid (source.read oid)

  -- The loop over the frontier: what is pending and traversed after it, or the object that is missing.
  unfoldable pub visit_all :
      Map IndexedObject → List Text → List Text → List Text → Result Text (List Text × List Text)
  visit_all indexed [] pending traversed = ok (pending, traversed)
  visit_all indexed (oid ∷ oids) pending traversed = elim (links_found oid (lookup oid indexed)) [
    | none ↦ err oid
    | some links ↦ visit_all indexed oids (push_all links pending) (oid ∷ traversed)
  ]

  module _ (verified visited : List Text) where
    unfoldable pub visit_frontier : List Text → List Text → Result Text (List Text × List Text)
    visit_frontier pending traversed =
        let frontier =
          fresh_ones visited verified traversed (distinct [] (take frontier_count pending)) in
        visit_all (source.read_indexed_objects frontier) frontier (drop frontier_count pending)
          traversed

    -- What happens after a round, or at its throw.
    unfoldable pub go_on :
        (List Text → List Text → Result (Stop Text) (List Text))
        → Result Text (List Text × List Text)
        → Result (Stop Text) (List Text)
    go_on more (ok (pending, traversed)) = more pending traversed
    go_on more (err oid) = err (thrown oid)

    -- The loop while something is pending: what it has traversed, or what is missing.
    unfoldable pub walk : ℕ → List Text → List Text → Result (Stop Text) (List Text)
    walk zero pending traversed = err out_of_fuel
    walk (suc fuel) [] traversed = ok traversed
    walk (suc fuel) (oid ∷ pending) traversed =
        go_on (walk fuel) (visit_frontier (oid ∷ pending) traversed)

    -- `null` is the set `visited` as it is then, and an oid is a `thrown` one.
    unfoldable pub find_missing_object : ℕ → Text → Result (Stop Text) (List Text)
    find_missing_object fuel tip =
        let walked : Result (Stop Text) (List Text) =
          elim (source.read_connectivity tip (verified ++ visited) shallow) [
            | some closure ↦ ok (closure ++ visited)
            | none ↦ elim (walk fuel (tip ∷ []) []) [
              | err e ↦ err e
              | ok traversed ↦ ok (traversed ++ visited)
            ]
          ] in
        if member tip verified || member tip visited then ok visited else walked
