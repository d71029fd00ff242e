-- ===== src/Connectivity/Soundness.antt =====
-- What a walk that finds nothing missing has seen.
use open_relic.Prelude.{
  ℕ, zero, suc, ◌≡◌, refl, sym, ap, ◌∙◌, List, [], ◌∷◌, ◌++◌, false, ◌&&◌, not, take, drop, some,
  ok, Bool-cases, Option-cases, Result-cases, inl, inr, ok-injective,
}
use mathlib.Core.Path.{subst}
use open_relic.Prelude.Codes.{Text}
use open_relic.Prelude.Strings.{member}
use open_relic.Prelude.Maps.{Map, lookup}
use open_relic.Connectivity.Walk.{
  IndexedObject, ObjectSource, indexed_links, push_all, distinct, fresh_ones, frontier_count,
  parsed_links, links_found, visit_all, visit_frontier, go_on, walk,
}
use open_relic.Connectivity.Membership.{
  In, here_or, at_head, further, left_part, right_part, which_part, halved, pushed_below,
  pushed_all, deduplicated,
}

-- What a walk looks at again: pending, traversed, or known before it began.
pub data Covered (known pending traversed : List Text) (oid : Text) : Type 0 where
  due : In oid pending → Covered known pending traversed oid
  seen : In oid traversed → Covered known pending traversed oid
  before : In oid known → Covered known pending traversed oid

in_fresh_ones :
    (visited verified traversed : List Text) (x : Text) (xs : List Text)
    → In x xs
    → Covered (verified ++ visited) (fresh_ones visited verified traversed xs) traversed x
unfolding fresh_ones member
in_fresh_ones visited verified traversed x [] h = cc
in_fresh_ones visited verified traversed x (y ∷ xs) h =
    let fresh = not (member y visited) && not (member y verified) && not (member y traversed) in
    elim (Bool-cases fresh) [
      | inl new ↦
          rw (fresh_ones, new)
            (elim (here_or x y xs h) [
              | inl same ↦ due (
                  subst (λ z. In x (z ∷ fresh_ones visited verified traversed xs)) (sym same)
                    (at_head x _))
              | inr rest ↦ elim (in_fresh_ones visited verified traversed x xs rest) [
                | due k ↦ due (further x y _ k)
                | seen k ↦ seen k
                | before k ↦ before k
              ]
            ])
      | inr old ↦
          rw (fresh_ones, old)
            (elim (here_or x y xs h) [
              | inl same ↦
                  subst
                    (λ z.
                      Covered (verified ++ visited) (fresh_ones visited verified traversed xs)
                        traversed z)
                    same (held_back y old)
              | inr rest ↦ in_fresh_ones visited verified traversed x xs rest
            ])
    ]
  where
    held_back :
        (z : Text)
        → (not (member z visited) && not (member z verified) && not (member z traversed)) ≡ false
        → Covered (verified ++ visited) (fresh_ones visited verified traversed xs) traversed z
    held_back z e = elim (Bool-cases (member z visited)) [
      | inl a ↦ before (right_part z verified visited a)
      | inr a ↦ elim (Bool-cases (member z verified)) [
        | inl b ↦ before (left_part z verified visited b)
        | inr b ↦ elim (Bool-cases (member z traversed)) [
          | inl c ↦ seen c
          | inr c ↦ let bad = rw (a, b, c) at e in cc
        ]
      ]
    ]

module _ (decode : List ℕ → Text) (source : ObjectSource) (shallow : List Text) where
  -- The index of an object has the links that its contents have.
  abbrev pub IsIndex : Map IndexedObject → Type 0
  IsIndex indexed =
      (oid : Text) (x : IndexedObject)
      → lookup oid indexed ≡ some x
      → (links : List Text) × (parsed_links decode source shallow oid (source.read oid)
          ≡ some links)
        × ((target : Text)
            → In target links
            → In target (indexed_links x.type (member oid shallow) x.links))

  -- The object is stored and can be parsed, and each of its links is covered.
  abbrev pub Settled : List Text → List Text → List Text → Text → Type 0
  Settled known pending traversed oid =
      (links : List Text) × (parsed_links decode source shallow oid (source.read oid) ≡ some links)
      × ((target : Text) → In target links → Covered known pending traversed target)

  abbrev pub AllSettled : List Text → List Text → List Text → Type 0
  AllSettled known pending traversed =
      (oid : Text) → In oid traversed → Settled known pending traversed oid

  -- What is found for an object holds the links of its contents.
  found_links :
      (indexed : Map IndexedObject) (oid : Text) (pushed : List Text)
      → IsIndex indexed
      → links_found decode source shallow oid (lookup oid indexed) ≡ some pushed
      → (links : List Text) × (parsed_links decode source shallow oid (source.read oid)
          ≡ some links)
        × ((target : Text) → In target links → In target pushed)
  unfolding links_found
  found_links indexed oid pushed h e = elim (Option-cases (lookup oid indexed)) [
    | inl gone ↦ (pushed, rw (links_found, gone) at e, λ target k. k)
    | inr (x, there) ↦
        let (links, parsed, all_in) = h oid x there in
        let same = rw (links_found, there) at e in
        (links, parsed, λ target k. subst (In target) (some-injective same) (all_in target k))
  ]
    where
      some-injective : {a b : List Text} → some a ≡ some b → a ≡ b
      some-injective p = cc

  Covered-mono :
      (known p t p' t' : List Text) (x : Text)
      → ((y : Text) → In y p → Covered known p' t' y)
      → ((y : Text) → In y t → Covered known p' t' y)
      → Covered known p t x
      → Covered known p' t' x
  Covered-mono known p t p' t' x f g (due h) = f x h
  Covered-mono known p t p' t' x f g (seen h) = g x h
  Covered-mono known p t p' t' x f g (before h) = before h

  -- Visiting an object moves it from what is to be looked at to what is traversed.
  visited-Covered :
      (known oids pending traversed links : List Text) (oid x : Text)
      → Covered known ((oid ∷ oids) ++ pending) traversed x
      → Covered known (oids ++ push_all links pending) (oid ∷ traversed) x
  visited-Covered known oids pending traversed links oid x =
      Covered-mono known _ traversed _ (oid ∷ traversed) x
        (λ y h. elim (here_or y oid (oids ++ pending) h) [
          | inl same ↦ seen (subst (λ z. In y (z ∷ traversed)) (sym same) (at_head y traversed))
          | inr rest ↦ elim (which_part y oids pending rest) [
            | inl k ↦ due (left_part y oids _ k)
            | inr k ↦ due (right_part y oids _ (pushed_below y links pending k))
          ]
        ])
        (λ y h. seen (further y oid traversed h))

  visit_all-AllSettled :
      (known : List Text) (indexed : Map IndexedObject) (oids pending traversed p t : List Text)
      → IsIndex indexed
      → visit_all decode source shallow indexed oids pending traversed ≡ ok (p, t)
      → AllSettled known (oids ++ pending) traversed
      → AllSettled known p t
        × ((x : Text) → Covered known (oids ++ pending) traversed x → Covered known p t x)
  unfolding visit_all
  visit_all-AllSettled known indexed [] pending traversed p t h e k =
      let same = ok-injective (ok (p, t)) refl (sym e) in
      subst
        (λ (r : List Text × List Text).
          AllSettled known r.0 r.1
          × ((x : Text) → Covered known pending traversed x → Covered known r.0 r.1 x))
        (sym same) (k, λ x c. c)
  visit_all-AllSettled known indexed (oid ∷ oids) pending traversed p t h e k =
      elim (Option-cases (links_found decode source shallow oid (lookup oid indexed))) [
        | inl gone ↦ let bad = rw (visit_all, gone) at e in cc
        | inr (pushed, found) ↦
            let (links, parsed, all_in) = found_links indexed oid pushed h found in
            let onward = visited-Covered known oids pending traversed pushed oid in
            let settled : AllSettled known (oids ++ push_all pushed pending) (oid ∷ traversed) =
              (λ at m. elim (here_or at oid traversed m) [
                | inl same ↦
                    subst (λ z. Settled known (oids ++ push_all pushed pending) (oid ∷ traversed) z)
                      same
                      (
                        links,
                        parsed,
                        λ target g. due (
                            right_part target oids _
                              (pushed_all target pushed pending (all_in target g))),
                      )
                | inr rest ↦
                    let (ls, q, c) = k at rest in (ls, q, λ target g. onward target (c target g))
              ]) in
            let (done, mono) =
              visit_all-AllSettled known indexed oids (push_all pushed pending) (oid ∷ traversed) p
                t h (rw (visit_all, found) at e) settled in
            (done, λ x c. mono x (onward x c))
      ]

  module _ (verified visited : List Text) where
    abbrev known : List Text
    known = verified ++ visited

    frontier-Covered :
        (pending traversed : List Text) (x : Text)
        → Covered known pending traversed x
        → Covered known
            (fresh_ones visited verified traversed (distinct [] (take frontier_count pending))
              ++ drop frontier_count pending)
            traversed
            x
    unfolding member
    frontier-Covered pending traversed x =
        let taken = distinct [] (take frontier_count pending) in
        let frontier = fresh_ones visited verified traversed taken in
        let rest = drop frontier_count pending in
        Covered-mono known pending traversed (frontier ++ rest) traversed x
          (λ y h. elim (halved frontier_count y pending h) [
            | inr k ↦ due (right_part y frontier rest k)
            | inl k ↦ elim (deduplicated [] y (take frontier_count pending) k) [
              | inl none_seen ↦ absurd (let bad = none_seen in cc)
              | inr d ↦
                  Covered-mono known frontier traversed (frontier ++ rest) traversed y
                    (λ z g. due (left_part z frontier rest g)) (λ z g. seen g)
                    (in_fresh_ones visited verified traversed y taken d)
            ]
          ])
          (λ y h. seen h)

    pub walk-AllSettled :
        (fuel : ℕ) (pending traversed t : List Text)
        → ((batch : List Text) → IsIndex (source.read_indexed_objects batch))
        → walk decode source shallow verified visited fuel pending traversed ≡ ok t
        → AllSettled known pending traversed
        → AllSettled known [] t
          × ((x : Text) → Covered known pending traversed x → Covered known [] t x)
    unfolding walk visit_frontier go_on
    walk-AllSettled zero pending traversed t i e k = absurd (let bad = e in cc)
    walk-AllSettled (suc fuel) [] traversed t i e k =
        let same = ok-injective (ok t) refl (sym e) in
        subst
          (λ r.
            AllSettled known [] r
            × ((x : Text) → Covered known [] traversed x → Covered known [] r x))
          (sym same) (k, λ x c. c)
    walk-AllSettled (suc fuel) (oid ∷ pending) traversed t i e k =
        let frontier =
          fresh_ones visited verified traversed
            (distinct [] (take frontier_count (oid ∷ pending))) in
        let rest = drop frontier_count (oid ∷ pending) in
        let onward = frontier-Covered (oid ∷ pending) traversed in
        elim (Result-cases (
          visit_all decode source shallow (source.read_indexed_objects frontier) frontier rest
            traversed)) [
              | inr (gone, f) ↦
                  let bad =
                    sym (
                      ap
                        (go_on decode source shallow verified visited
                          (walk decode source shallow verified visited fuel))
                        f)
                    ∙ e in
                  cc
              | inl ((p, s), f) ↦
                  let (done, mono) =
                    visit_all-AllSettled known (source.read_indexed_objects frontier) frontier rest
                      traversed p s (i frontier) f
                      (λ at m.
                        let (ls, q, c) = k at m in
                        (ls, q, λ target g. onward target (c target g))) in
                  let next =
                    sym (
                      ap
                        (go_on decode source shallow verified visited
                          (walk decode source shallow verified visited fuel))
                        f)
                    ∙ e in
                  let (settled, mono') = walk-AllSettled fuel p s t i next done in
                  (settled, λ x c. mono' x (mono x (onward x c)))
            ]

    -- What a push of `tip` makes reachable, over the links that are to be verified, without what was
    -- known before.
    pub data IsNeeded (tip : Text) : Text → Type 0 where
      start : IsNeeded tip tip
      follow :
          (oid target : Text) (links : List Text)
          → IsNeeded tip oid
          → member oid known ≡ false
          → parsed_links decode source shallow oid (source.read oid) ≡ some links
          → In target links
          → IsNeeded tip target

    -- The object is stored and can be parsed.
    abbrev pub IsHeld : Text → Type 0
    IsHeld oid =
        (links : List Text) × (parsed_links decode source shallow oid (source.read oid)
          ≡ some links)
