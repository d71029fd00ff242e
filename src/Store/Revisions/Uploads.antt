-- ===== src/Store/Revisions/Uploads.antt =====
-- The refs of a fetch are peeled to an end.
use open_relic.Prelude.{
  ℕ, zero, suc, ◌<◌, ◌≡◌, ◌≢◌, refl, ap, List, [], ◌∷◌, length, Bool, true, false, Option, none,
  some, Result, ok, err, thrown, out_of_fuel, Bool-cases, Option-cases, inl, inr, arith,
}
use open_relic.Prelude.Codes.{Text, starts_with}
use open_relic.Prelude.Strings.{member}
use open_relic.Prelude.Maps.{Map}
use open_relic.GitObject.{ObjectType, commit, tree, blob, tag, is_object_id}
use open_relic.Connectivity.{
  ObjectLink, Fault, bad_type, object_type, links_to_reach, tag_links, tag_link,
}
use open_relic.Connectivity.Walk.{ObjectSource}
use open_relic.Connectivity.Ending.{weigh, weigh-visit}
use open_relic.Store.Revisions.{
  tag_ref_prefix, tag_targets, peel_target, peel_found, peel_loop, peel_tag, upload_refs,
  with_peeled,
}
use open_relic.Store.Revisions.Peeling.{HasTags, one, weigh_most}

tag_link_ends : (target type : Option Text) → tag_link target type ≢ err out_of_fuel
unfolding tag_link
tag_link_ends none type = λ e. cc
tag_link_ends (some target) type = elim (Bool-cases (is_object_id target)) [
  | inr bad ↦ rw (tag_link, bad) (λ e. cc)
  | inl good ↦ rw (tag_link, good) (by type)
]
  where
    by :
        (type : Option Text)
        → (elim type as (λ _. Result Fault (List ObjectLink)) [
          | none ↦ err (thrown bad_type)
          | some name ↦ elim (object_type name) [
            | none ↦ err (thrown bad_type)
            | some t ↦ ok (record { oid = target; type = t } ∷ [])
          ]
        ])
          ≢ err out_of_fuel
    by none = λ e. cc
    by (some name) = elim (Option-cases (object_type name)) [
      | inl odd ↦ rw odd (λ e. cc)
      | inr (t, even) ↦ rw even (λ e. cc)
    ]

module _ (decode : List ℕ → Text) (source : ObjectSource) where
  targets_end : (bytes : List ℕ) → tag_targets decode bytes ≢ err out_of_fuel
  unfolding links_to_reach tag_links
  targets_end bytes = tag_link_ends _ _

  found_ends :
      (more : Text → Result Fault (Option Text)) (annotated : Bool) (current : Text)
      (found : Option (ObjectType × List ℕ))
      → source.read current ≡ found
      → ((bytes : List ℕ) (oid : Text)
          → source.read current ≡ some (tag, bytes)
          → more oid ≢ err out_of_fuel)
      → peel_found decode source more annotated current found ≢ err out_of_fuel
  unfolding peel_found
  found_ends more annotated current none e k = λ bad. cc
  found_ends more annotated current (some (commit, bytes)) e k = λ bad. cc
  found_ends more annotated current (some (tree, bytes)) e k = λ bad. cc
  found_ends more annotated current (some (blob, bytes)) e k = λ bad. cc
  found_ends more annotated current (some (tag, bytes)) e k =
      by (tag_targets decode bytes) (targets_end bytes)
    where
      by :
          (r : Result Fault (List ObjectLink))
          → r ≢ err out_of_fuel
          → peel_target decode source more r ≢ err out_of_fuel
      by (err x) n = λ f. let same : x ≡ out_of_fuel = cc in n (ap err same)
      by (ok []) n = λ f. cc
      by (ok (target ∷ others)) n = k bytes target.oid e

  peel_loop_ends :
      (universe : List Text) (fuel : ℕ) (visited : List Text) (annotated : Bool) (current : Text)
      → HasTags decode source universe
      → weigh one universe visited < fuel
      → peel_loop decode source fuel visited annotated current ≢ err out_of_fuel
  unfolding peel_loop
  peel_loop_ends universe zero visited annotated current tags less = absurd (omega arith)
  peel_loop_ends universe (suc fuel) visited annotated current tags less =
      elim (Bool-cases (member current visited)) [
        | inl old ↦ rw (peel_loop, old) (λ e. cc)
        | inr new ↦
            rw (peel_loop, new)
              (found_ends (peel_loop decode source fuel (current ∷ visited) true) annotated current
                (source.read current) refl
                (λ bytes target e.
                  let lighter =
                    weigh-visit one universe current visited (tags current bytes e) new in
                  peel_loop_ends universe fuel (current ∷ visited) true target tags
                    (omega (arith, lighter))))
      ]

  -- With more fuel than stored tags, the refs of a fetch are listed, or a tag can not be parsed.
  pub upload_refs_ends :
      (universe : List Text) (fuel : ℕ) (refs : Map Text)
      → HasTags decode source universe
      → length universe < fuel
      → upload_refs decode source fuel refs ≢ err out_of_fuel
  unfolding upload_refs peel_tag
  upload_refs_ends universe fuel [] tags enough = λ e. cc
  upload_refs_ends universe fuel ((name, oid) ∷ refs) tags enough =
      elim (Bool-cases (starts_with name tag_ref_prefix)) [
        | inr other ↦
            rw (upload_refs, other)
              (plain (upload_refs decode source fuel refs)
                (upload_refs_ends universe fuel refs tags enough))
        | inl a_tag ↦
            rw (upload_refs, a_tag)
              (followed (peel_loop decode source fuel [] false oid)
                (peel_loop_ends universe fuel [] false oid tags
                  (omega (arith, weigh_most universe [], enough)))
                (upload_refs decode source fuel refs)
                (upload_refs_ends universe fuel refs tags enough))
      ]
    where
      plain :
          (r : Result Fault (Map Text))
          → r ≢ err out_of_fuel
          → (elim r as (λ _. Result Fault (Map Text)) [
            | err e ↦ err e
            | ok rest ↦ ok ((name, oid) ∷ rest)
          ])
            ≢ err out_of_fuel
      plain (err x) n = n
      plain (ok rest) n = λ f. cc

      followed :
          (p : Result Fault (Option Text))
          → p ≢ err out_of_fuel
          → (r : Result Fault (Map Text)) → r ≢ err out_of_fuel
          → (elim p as (λ _. Result Fault (Map Text)) [
            | err e ↦ err e
            | ok target ↦ elim r [
              | err e ↦ err e
              | ok rest ↦ ok ((name, oid) ∷ with_peeled decode source name target rest)
            ]
          ])
            ≢ err out_of_fuel
      followed (err x) n r k = λ f. let same : x ≡ out_of_fuel = cc in n (ap err same)
      followed (ok target) n (err x) k = λ f. let same : x ≡ out_of_fuel = cc in k (ap err same)
      followed (ok target) n (ok rest) k = λ f. cc
