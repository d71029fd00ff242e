-- ===== src/Store/Revisions.antt =====
-- apps/api/src/repository-store.ts: the commit that a revision names, and the refs of a fetch with the
-- objects that annotated tags lead to.
pub mod Peeling
pub mod Naming
pub mod Uploads
use open_relic.Prelude.{
  ℕ, zero, suc, List, [], ◌∷◌, ◌++◌, Bool, true, false, Option, none, some, Result, ok, err, Stop,
  thrown, out_of_fuel, if◌then◌else◌,
}
use open_relic.Prelude.Codes.{Text, codes, starts_with}
use open_relic.Prelude.Strings.{member}
use open_relic.Prelude.Maps.{Map, lookup}
use open_relic.GitObject.{ObjectType, commit, tree, blob, tag, is_object_id}
use open_relic.Head.{Head, symbolic, detached, branch_ref_prefix}
use open_relic.Connectivity.{ObjectLink, Fault, links_to_reach}
use open_relic.Connectivity.Walk.{ObjectSource}
use open_relic.Store.{Repository, head_of}

-- `ResolvedContentFailure`.
pub data ContentFailure : Type 0 where
  corrupt file_not_found revision_not_found wrong_object_type : ContentFailure

abbrev pub tag_ref_prefix : Text
tag_ref_prefix = codes "refs/tags/"

-- What a revision names before its tags are followed: nothing yet, for a HEAD whose branch has no commit,
-- nothing at all, or an object.
pub data Start : Type 0 where
  unborn unknown : Start
  at_object : Text → Start

abbrev pub object_or : Option Text → Start → Start
object_or none otherwise = otherwise
object_or (some oid) otherwise = at_object oid

abbrev pub head_start : Map Text → Option Head → Start
head_start refs none = unknown
head_start refs (some (detached oid)) = at_object oid
head_start refs (some (symbolic name)) = object_or (lookup name refs) unborn

unfoldable pub start_of : Option Text → Repository → Start
start_of none s = head_start s.refs (head_of s)
start_of (some revision) s =
    let named =
      object_or (lookup (branch_ref_prefix ++ revision) s.refs)
        (object_or (lookup (tag_ref_prefix ++ revision) s.refs) unknown) in
    if is_object_id revision then at_object revision else named

abbrev pub Resolution : Type 0
Resolution = Result (Stop ContentFailure) (Option Text)

module _ (decode : List ℕ → Text) where
  abbrev pub tag_targets : List ℕ → Result Fault (List ObjectLink)
  tag_targets bytes = links_to_reach decode tag bytes false

  abbrev pub follow_target : (Text → Resolution) → Result Fault (List ObjectLink) → Resolution
  follow_target more (err e) = err (thrown corrupt)
  follow_target more (ok []) = err (thrown corrupt)
  follow_target more (ok (target ∷ targets)) = more target.oid

  -- A round of the loop, for the object that was read.
  unfoldable pub resolve_found :
      (Text → Resolution) → Text → Option (ObjectType × List ℕ) → Resolution
  resolve_found more oid none = err (thrown revision_not_found)
  resolve_found more oid (some (commit, bytes)) = ok (some oid)
  resolve_found more oid (some (tag, bytes)) = follow_target more (tag_targets bytes)
  resolve_found more oid (some (tree, bytes)) = err (thrown wrong_object_type)
  resolve_found more oid (some (blob, bytes)) = err (thrown wrong_object_type)

  module _ (source : ObjectSource) where
    unfoldable pub resolve_loop : ℕ → List Text → Text → Resolution
    resolve_loop zero visited oid = err out_of_fuel
    resolve_loop (suc fuel) visited oid =
        let round = resolve_found (resolve_loop fuel (oid ∷ visited)) oid (source.read oid) in
        if member oid visited then err (thrown corrupt) else round

    unfoldable pub resolve_start : ℕ → Start → Resolution
    resolve_start fuel unborn = ok none
    resolve_start fuel unknown = err (thrown revision_not_found)
    resolve_start fuel (at_object oid) = resolve_loop fuel [] oid

    -- The loop of `#peelTag`, where a tag that can not be parsed throws.
    abbrev pub peel_target :
        (Text → Result Fault (Option Text))
        → Result Fault (List ObjectLink)
        → Result Fault (Option Text)
    peel_target more (err e) = err e
    peel_target more (ok []) = ok none
    peel_target more (ok (target ∷ targets)) = more target.oid

    abbrev pub peeled : Bool → Text → Option Text
    peeled annotated current = if annotated then some current else none

    unfoldable pub peel_found :
        (Text → Result Fault (Option Text))
        → Bool
        → Text
        → Option (ObjectType × List ℕ)
        → Result Fault (Option Text)
    peel_found more annotated current none = ok none
    peel_found more annotated current (some (tag, bytes)) = peel_target more (tag_targets bytes)
    peel_found more annotated current (some (commit, bytes)) = ok (peeled annotated current)
    peel_found more annotated current (some (tree, bytes)) = ok (peeled annotated current)
    peel_found more annotated current (some (blob, bytes)) = ok (peeled annotated current)

    unfoldable pub peel_loop : ℕ → List Text → Bool → Text → Result Fault (Option Text)
    peel_loop zero visited annotated current = err out_of_fuel
    peel_loop (suc fuel) visited annotated current =
        let round =
          peel_found (peel_loop fuel (current ∷ visited) true) annotated current
            (source.read current) in
        if member current visited then ok none else round

    unfoldable pub peel_tag : ℕ → Text → Result Fault (Option Text)
    peel_tag fuel oid = peel_loop fuel [] false oid

    abbrev pub with_peeled : Text → Option Text → Map Text → Map Text
    with_peeled name none refs = refs
    with_peeled name (some oid) refs = (name ++ codes "^{}", oid) ∷ refs

    -- `#uploadRefs`, on the refs in the order of their names.
    unfoldable pub upload_refs : ℕ → Map Text → Result Fault (Map Text)
    upload_refs fuel [] = ok []
    upload_refs fuel ((name, oid) ∷ refs) =
        let plain : Result Fault (Map Text) = elim (upload_refs fuel refs) [
          | err e ↦ err e
          | ok rest ↦ ok ((name, oid) ∷ rest)
        ] in
        let followed : Result Fault (Map Text) = elim (peel_tag fuel oid) [
          | err e ↦ err e
          | ok target ↦ elim (upload_refs fuel refs) [
            | err e ↦ err e
            | ok rest ↦ ok ((name, oid) ∷ with_peeled name target rest)
          ]
        ] in
        if starts_with name tag_ref_prefix then followed else plain

  -- `#resolveCommit`.
  unfoldable pub resolve_commit : ℕ → Option Text → Repository → Resolution
  resolve_commit fuel revision s = resolve_start s.objects fuel (start_of revision s)
