-- ===== src/Store/Revisions/Peeling.antt =====
-- A revision is followed over its tags, and this ends.
use open_relic.Prelude.{
  ℕ, zero, suc, ◌≤◌, ◌<◌, ◌≡◌, refl, List, [], ◌∷◌, length, true, false, Option, none, some, Result,
  ok, err, thrown, out_of_fuel, Bool-cases, ◌⊎◌, inl, inr, arith,
}
use mathlib.Core.Path.{subst}
use open_relic.Prelude.Codes.{Text}
use open_relic.Prelude.Strings.{member}
use open_relic.GitObject.{ObjectType, commit, tree, blob, tag}
use open_relic.Connectivity.{ObjectLink, Fault}
use open_relic.Connectivity.Walk.{ObjectSource}
use open_relic.Connectivity.Membership.{In, here_or}
use open_relic.Connectivity.Ending.{weigh, weigh-visit}
use open_relic.Store.Revisions.{
  Resolution, tag_targets, follow_target, resolve_found, resolve_loop, ContentFailure, corrupt,
  file_not_found, revision_not_found, wrong_object_type,
}

abbrev pub one : Text → ℕ
one oid = 1

pub weigh_most : (universe visited : List Text) → weigh one universe visited ≤ length universe
unfolding weigh
weigh_most [] visited = omega arith
weigh_most (u ∷ universe) visited =
    let h = weigh_most universe visited in
    elim (Bool-cases (member u visited)) [
      | inl old ↦ rw (weigh, old) (omega arith)
      | inr new ↦ rw (weigh, new) (omega arith)
    ]

module _ (decode : List ℕ → Text) (source : ObjectSource) where
  -- What an object leads to over annotated tags, each the first target of the one before.
  pub data Peels : Text → Text → Type 0 where
    here : (from : Text) → Peels from from
    onward :
        (from : Text) (bytes : List ℕ) (target : ObjectLink) (others : List ObjectLink) (oid : Text)
        → source.read from ≡ some (tag, bytes)
        → tag_targets decode bytes ≡ ok (target ∷ others)
        → Peels target.oid oid
        → Peels from oid

  -- Each tag that is stored has its id in the list.
  abbrev pub HasTags : List Text → Type 0
  HasTags universe =
      (oid : Text) (bytes : List ℕ) → source.read oid ≡ some (tag, bytes) → In oid universe

  -- A stored tag whose first target leads to the object.
  abbrev pub Leads : Text → Text → Type 0
  Leads from oid =
      (bytes : List ℕ) × (target : ObjectLink) × (others : List ObjectLink) × (source.read from
        ≡ some (tag, bytes))
      × (tag_targets decode bytes ≡ ok (target ∷ others))
      × Peels target.oid oid

  -- A stored tag that can not be parsed, or has no target, or leads back to itself.
  pub data IsBroken : Text → Type 0 where
    unread :
        (oid : Text) (bytes : List ℕ) (fault : Fault)
        → source.read oid ≡ some (tag, bytes)
        → tag_targets decode bytes ≡ err fault
        → IsBroken oid
    no_target :
        (oid : Text) (bytes : List ℕ)
        → source.read oid ≡ some (tag, bytes)
        → tag_targets decode bytes ≡ ok []
        → IsBroken oid
    in_circle :
        (oid : Text) (bytes : List ℕ) (target : ObjectLink) (others : List ObjectLink)
        → source.read oid ≡ some (tag, bytes)
        → tag_targets decode bytes ≡ ok (target ∷ others)
        → Peels target.oid oid
        → IsBroken oid

  -- What a failure tells: the object leads to one that is not stored, to a stored tree or blob, or to a
  -- broken tag.
  unfoldable pub Fails : Text → ContentFailure → Type 0
  Fails from revision_not_found = (oid : Text) × Peels from oid × (source.read oid ≡ none)
  Fails from wrong_object_type =
      (oid : Text) × (type : ObjectType) × (bytes : List ℕ) × Peels from oid
      × (source.read oid ≡ some (type, bytes))
      × ((type ≡ tree) ⊎ (type ≡ blob))
  Fails from file_not_found = true ≡ false
  Fails from corrupt = (oid : Text) × Peels from oid × IsBroken oid

  -- The loop ends, and a commit that it gives is stored and what the object leads to.
  unfoldable pub Resolves : Text → Resolution → Type 0
  Resolves from (ok (some oid)) =
      Peels from oid × ((bytes : List ℕ) × (source.read oid ≡ some (commit, bytes)))
  Resolves from (ok none) = true ≡ false
  Resolves from (err (thrown e)) = Fails from e
  Resolves from (err out_of_fuel) = true ≡ false

  onward-Resolves :
      (from : Text) (bytes : List ℕ) (target : ObjectLink) (others : List ObjectLink)
      (r : Resolution)
      → source.read from ≡ some (tag, bytes)
      → tag_targets decode bytes ≡ ok (target ∷ others)
      → Resolves target.oid r
      → Resolves from r
  unfolding Resolves Fails
  onward-Resolves from bytes target others (ok (some oid)) e f (way, there) =
      (onward from bytes target others oid e f way, there)
  onward-Resolves from bytes target others (ok none) e f h = h
  onward-Resolves from bytes target others (err (thrown revision_not_found)) e f (oid, way, gone) =
      (oid, onward from bytes target others oid e f way, gone)
  onward-Resolves from bytes target others (err (thrown wrong_object_type)) e f
        (oid, type, found, way, there, kind) =
      (oid, type, found, onward from bytes target others oid e f way, there, kind)
  onward-Resolves from bytes target others (err (thrown file_not_found)) e f h = h
  onward-Resolves from bytes target others (err (thrown corrupt)) e f (oid, way, broken) =
      (oid, onward from bytes target others oid e f way, broken)
  onward-Resolves from bytes target others (err out_of_fuel) e f h = h

  found-Resolves :
      (more : Text → Resolution) (from : Text) (found : Option (ObjectType × List ℕ))
      → source.read from ≡ found
      → ((bytes : List ℕ) (target : ObjectLink) (others : List ObjectLink)
          → source.read from ≡ some (tag, bytes)
          → tag_targets decode bytes ≡ ok (target ∷ others)
          → Resolves target.oid (more target.oid))
      → Resolves from (resolve_found decode more from found)
  unfolding resolve_found Resolves Fails
  found-Resolves more from none e k = (from, here from, e)
  found-Resolves more from (some (commit, bytes)) e k = (here from, (bytes, e))
  found-Resolves more from (some (tree, bytes)) e k = (from, tree, bytes, here from, e, inl refl)
  found-Resolves more from (some (blob, bytes)) e k = (from, blob, bytes, here from, e, inr refl)
  found-Resolves more from (some (tag, bytes)) e k = by (tag_targets decode bytes) refl
    where
      by :
          (r : Result Fault (List ObjectLink))
          → tag_targets decode bytes ≡ r
          → Resolves from (follow_target decode more r)
      by (err x) f = (from, here from, unread from bytes x e f)
      by (ok []) f = (from, here from, no_target from bytes e f)
      by (ok (target ∷ others)) f =
          onward-Resolves from bytes target others (more target.oid) e f (k bytes target others e f)

  one_further :
      (from oid : Text) (bytes : List ℕ) (target : ObjectLink) (others : List ObjectLink)
      → Peels from oid
      → source.read oid ≡ some (tag, bytes)
      → tag_targets decode bytes ≡ ok (target ∷ others)
      → Peels from target.oid
  one_further _ _ bytes target others (here from) e f =
      onward from bytes target others target.oid e f (here target.oid)
  one_further _ _ bytes target others (onward from b t o oid g h way) e f =
      onward from b t o target.oid g h (one_further t.oid oid bytes target others way e f)

  pub resolve_loop-Resolves :
      (universe : List Text) (fuel : ℕ) (visited : List Text) (oid : Text)
      → HasTags universe
      → ((x : Text) → In x visited → Leads x oid)
      → weigh one universe visited < fuel
      → Resolves oid (resolve_loop decode source fuel visited oid)
  unfolding resolve_loop Resolves Fails
  resolve_loop-Resolves universe zero visited oid tags trail less = absurd (omega arith)
  resolve_loop-Resolves universe (suc fuel) visited oid tags trail less =
      elim (Bool-cases (member oid visited)) [
        | inl old ↦
            let (bytes, target, others, e, f, way) = trail oid old in
            rw (resolve_loop, old) (oid, here oid, in_circle oid bytes target others e f way)
        | inr new ↦
            rw (resolve_loop, new)
              (found-Resolves (resolve_loop decode source fuel (oid ∷ visited)) oid
                (source.read oid) refl
                (λ bytes target others e f.
                  let lighter = weigh-visit one universe oid visited (tags oid bytes e) new in
                  let trail' = λ (x : Text) (m : In x (oid ∷ visited)).
                    longer bytes target others e f x (here_or x oid visited m) in
                  resolve_loop-Resolves universe fuel (oid ∷ visited) target.oid tags trail'
                    (omega (arith, lighter))))
      ]
    where
      longer :
          (bytes : List ℕ) (target : ObjectLink) (others : List ObjectLink)
          → source.read oid ≡ some (tag, bytes)
          → tag_targets decode bytes ≡ ok (target ∷ others)
          → (x : Text) → (oid ≡ x) ⊎ In x visited
          → Leads x target.oid
      longer bytes target others e f x (inl same) =
          subst (λ y. Leads y target.oid) same (bytes, target, others, e, f, here target.oid)
      longer bytes target others e f x (inr m) =
          let (b, t, o, g, h, way) = trail x m in
          (b, t, o, g, h, one_further t.oid oid bytes target others way e f)
