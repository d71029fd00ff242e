-- ===== src/Store/Closure.antt =====
-- What a walk that finds nothing missing proves: all that the links to verify reach from the tip is stored.
use open_relic.Prelude.{
  ℕ, ◌≡◌, sym, ◌∙◌, List, [], ◌∷◌, ◌++◌, true, ◌||◌, Option, none, some, Result, ok, Stop,
  Bool-cases, Option-cases, Result-cases, ◌⊎◌, inl, inr,
}
use mathlib.Core.Path.{subst}
use open_relic.Prelude.Codes.{Text}
use open_relic.Prelude.Strings.{member}
use open_relic.Connectivity.Walk.{ObjectSource, parsed_links, walk, find_missing_object}
use open_relic.Connectivity.Membership.{none_in, In, at_head, left_part, right_part, which_part}
use open_relic.Connectivity.Soundness.{
  Covered, due, seen, before, IsIndex, AllSettled, walk-AllSettled,
}

-- What can be reached from an object over the links that are to be verified: of a commit its tree, and its
-- parents where it is not shallow, of a tag its target, of a tree its subtrees, by a mode of `40000`. Blobs
-- are not among them.
pub data Reaches (decode : List ℕ → Text) (source : ObjectSource) (shallow : List Text)
    (from : Text) : Text → Type 0 where
  here : Reaches decode source shallow from from
  onward :
      (oid target : Text) (links : List Text)
      → Reaches decode source shallow from oid
      → parsed_links decode source shallow oid (source.read oid) ≡ some links
      → In target links
      → Reaches decode source shallow from target

module _ (decode : List ℕ → Text) (source : ObjectSource) (shallow : List Text) where
  -- The object is stored and can be parsed.
  abbrev pub IsHeld : Text → Type 0
  IsHeld oid =
      (links : List Text) × (parsed_links decode source shallow oid (source.read oid) ≡ some links)

  -- So is everything that it reaches.
  abbrev pub IsComplete : Text → Type 0
  IsComplete oid = (target : Text) → Reaches decode source shallow oid target → IsHeld target

  -- What the store may answer in place of the walk: a set with the tip in it, whose objects are stored
  -- and link to each other or to what is known.
  abbrev pub IsClosureIndex : Type 0
  IsClosureIndex =
      (tip : Text) (known closure : List Text)
      → source.read_connectivity tip known shallow ≡ some closure
      → In tip closure × AllSettled decode source shallow known [] closure

  abbrev pub IsSource : Type 0
  IsSource =
      ((batch : List Text) → IsIndex decode source shallow (source.read_indexed_objects batch))
      × IsClosureIndex

  reached_first :
      (from link target : Text) (links : List Text)
      → parsed_links decode source shallow from (source.read from) ≡ some links
      → In link links
      → Reaches decode source shallow link target
      → Reaches decode source shallow from target
  reached_first from link target links e h here = onward from link links here e h
  reached_first from link target links e h (onward oid _ ls way f g) =
      onward oid target ls (reached_first from link oid links e h way) f g

  link-IsComplete :
      (from link : Text) (links : List Text)
      → IsComplete from
      → parsed_links decode source shallow from (source.read from) ≡ some links
      → In link links
      → IsComplete link
  link-IsComplete from link links c e h target way =
      c target (reached_first from link target links e h way)

  -- A set of stored objects that is closed under links is complete.
  closed-IsComplete :
      (P : Text → Type 0)
      → ((oid : Text) → P oid → IsHeld oid)
      → ((oid target : Text) (links : List Text)
          → P oid
          → parsed_links decode source shallow oid (source.read oid) ≡ some links
          → In target links
          → P target)
      → (oid : Text) → P oid
      → IsComplete oid
  closed-IsComplete P held closed oid p target way = held target (stays target way)
    where
      stays : (x : Text) → Reaches decode source shallow oid x → P x
      stays x here = p
      stays x (onward y _ links way' e h) = closed y x links (stays y way') e h

  -- Objects that are settled on complete ones are complete.
  settled-IsComplete :
      (known traversed : List Text)
      → AllSettled decode source shallow known [] traversed
      → ((oid : Text) → In oid known → IsComplete oid)
      → (oid : Text) → In oid traversed
      → IsComplete oid
  settled-IsComplete known traversed k c oid m =
      closed-IsComplete (λ x. In x traversed ⊎ IsComplete x) held closed oid (inl m)
    where
      held : (x : Text) → In x traversed ⊎ IsComplete x → IsHeld x
      held x (inl h) = let (links, e, covered) = k x h in (links, e)
      held x (inr h) = h x here

      covers : (x : Text) → Covered known [] traversed x → In x traversed ⊎ IsComplete x
      covers x (due h) = absurd (none_in x h)
      covers x (seen h) = inl h
      covers x (before h) = inr (c x h)

      closed :
          (x target : Text) (links : List Text)
          → In x traversed ⊎ IsComplete x
          → parsed_links decode source shallow x (source.read x) ≡ some links
          → In target links
          → In target traversed ⊎ IsComplete target
      closed x target links (inr h) e g = inr (link-IsComplete x target links h e g)
      closed x target links (inl h) e g =
          let (ls, f, covered) = k x h in
          let same : some links ≡ some ls = sym e ∙ f in
          let listed =
            λ (o : Option (List Text)). elim o as (λ _. List Text) [ none ↦ [] | some y ↦ y ] in
          covers target
            (covered target (subst (λ (o : Option (List Text)). In target (listed o)) same g))

  -- A walk from a tip, on objects that are known to be complete: the tip is complete where nothing is
  -- missing, and so is all that is visited then.
  pub find_missing_object-IsComplete :
      (verified visited : List Text) (fuel : ℕ) (tip : Text) (visited' : List Text)
      → IsSource
      → ((oid : Text) → In oid (verified ++ visited) → IsComplete oid)
      → find_missing_object decode source shallow verified visited fuel tip ≡ ok visited'
      → IsComplete tip × ((oid : Text) → In oid visited' → IsComplete oid)
  unfolding find_missing_object
  find_missing_object-IsComplete verified visited fuel tip visited' (index, closures) c e =
      elim (Bool-cases (member tip verified || member tip visited)) [
        | inl old ↦
            let same = rw (find_missing_object, old) at e in
            (
              c tip (tip_in old),
              λ oid m.
                  c oid (right_part oid verified visited (subst (In oid) (sym (is_same same)) m)),
            )
        | inr new ↦
            elim (Option-cases (source.read_connectivity tip (verified ++ visited) shallow)) [
              | inr (closure, given) ↦
                  let same = rw (find_missing_object, new, given) at e in
                  let (there, settled) = closures tip (verified ++ visited) closure given in
                  let all = settled-IsComplete (verified ++ visited) closure settled c in
                  (
                    all tip there,
                    λ oid m. either closure all oid (subst (In oid) (sym (is_same same)) m),
                  )
              | inl alone ↦
                  elim (Result-cases
                    (walk decode source shallow verified visited fuel (tip ∷ []) [])) [
                      | inr (stop, f) ↦ let bad = rw (find_missing_object, new, alone, f) at e in cc
                      | inl (t, f) ↦
                          let same = rw (find_missing_object, new, alone, f) at e in
                          let (k, mono) =
                            walk-AllSettled decode source shallow verified visited fuel (tip ∷ [])
                              [] t index f (λ at m. absurd (none_in at m)) in
                          let all = settled-IsComplete (verified ++ visited) t k c in
                          (
                            tip_covered t all (mono tip (due (at_head tip []))),
                            λ oid m. either t all oid (subst (In oid) (sym (is_same same)) m),
                          )
                    ]
            ]
      ]
    where
      tip_in : (member tip verified || member tip visited) ≡ true → In tip (verified ++ visited)
      tip_in h = elim (Bool-cases (member tip verified)) [
        | inl a ↦ left_part tip verified visited a
        | inr a ↦ right_part tip verified visited (rw a at h)
      ]

      is_same : {a b : List Text} → ◌≡◌ {A = Result (Stop Text) (List Text)} (ok a) (ok b) → a ≡ b
      is_same p = cc

      either :
          (t : List Text)
          → ((oid : Text) → In oid t → IsComplete oid)
          → (oid : Text) → In oid (t ++ visited)
          → IsComplete oid
      either t all oid m = elim (which_part oid t visited m) [
        | inl h ↦ all oid h
        | inr h ↦ c oid (right_part oid verified visited h)
      ]

      tip_covered :
          (t : List Text)
          → ((oid : Text) → In oid t → IsComplete oid)
          → Covered (verified ++ visited) [] t tip
          → IsComplete tip
      tip_covered t all (due h) = absurd (none_in tip h)
      tip_covered t all (seen h) = all tip h
      tip_covered t all (before h) = c tip h
