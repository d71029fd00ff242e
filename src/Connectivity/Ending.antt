-- ===== src/Connectivity/Ending.antt =====
-- The walk for missing objects ends, over a store that holds finitely many objects.
use open_relic.Prelude.{
  ℕ, zero, suc, ◌+◌, ◌≤◌, ◌<◌, ◌≡◌, ◌≢◌, refl, sym, ap, ◌∙◌, List, [], ◌∷◌, ◌++◌, Bool, true, false,
  ◌&&◌, ◌||◌, not, take, drop, length, some, ok, err, out_of_fuel, if◌then◌else◌, Bool-cases,
  Option-cases, Result-cases, ◌⊎◌, inl, inr, ok-injective, arith,
}
use mathlib.Core.Path.{subst}
use open_relic.Prelude.Codes.{Text}
use open_relic.Prelude.Strings.{member}
use open_relic.Prelude.Maps.{lookup}
use open_relic.Connectivity.Walk.{
  ObjectSource, push_all, distinct, fresh_ones, frontier_count, links_found, visit_all,
  visit_frontier, go_on, walk, find_missing_object,
}
use open_relic.Connectivity.Membership.{In, here_or, at_head, further}

length-push_all :
    (links pending : List Text) → length (push_all links pending) ≡ length links + length pending
unfolding push_all
length-push_all [] pending = omega arith
length-push_all (x ∷ links) pending = let h = length-push_all links (x ∷ pending) in omega arith

length-drop_most : (n : ℕ) (xs : List Text) → length (drop n xs) ≤ length xs
length-drop_most zero xs = omega arith
length-drop_most (suc n) [] = omega arith
length-drop_most (suc n) (x ∷ xs) = let h = length-drop_most n xs in omega arith

-- Each of the ids is new when its turn comes.
unfoldable Fresh : List Text → List Text → Type 0
Fresh [] traversed = Unit {0}
Fresh (oid ∷ oids) traversed = (member oid traversed ≡ false) × Fresh oids (oid ∷ traversed)

empty_member : (x : Text) → member x [] ≡ false
unfolding member
empty_member x = refl

not_there : (x : Text) (xs : List Text) → (In x xs → In x []) → member x xs ≡ false
unfolding member
not_there x xs h = elim (Bool-cases (member x xs)) [
  | inl there ↦ let bad = h there in cc
  | inr gone ↦ gone
]

frontier-Fresh :
    (visited verified traversed now seen xs : List Text)
    → ((x : Text) → In x now → In x seen ⊎ In x traversed)
    → Fresh (fresh_ones visited verified traversed (distinct seen xs)) now
unfolding Fresh fresh_ones distinct member
frontier-Fresh visited verified traversed now seen [] h = tt
frontier-Fresh visited verified traversed now seen (y ∷ xs) h = elim (Bool-cases (member y seen)) [
  | inl old ↦ rw (distinct, old) (frontier-Fresh visited verified traversed now seen xs h)
  | inr new ↦
      let rest = distinct (y ∷ seen) xs in
      rw (distinct, new)
        (elim (Bool-cases
          (not (member y visited) && not (member y verified) && not (member y traversed))) [
            | inr held ↦
                rw (fresh_ones, held)
                  (frontier-Fresh visited verified traversed now (y ∷ seen) xs
                    (λ x m. elim (h x m) [ inl k ↦ inl (further x y seen k) | inr k ↦ inr k ]))
            | inl fresh ↦
                rw (fresh_ones, fresh)
                  (
                    not_there y now (λ m. elim (h y m) [
                      | inl k ↦ let bad = sym k ∙ new in cc
                      | inr k ↦
                          let bad =
                            not_traversed (member y visited) (member y verified)
                              (member y traversed) fresh in
                          let worse = sym k ∙ bad in cc
                    ]),
                    frontier-Fresh visited verified traversed (y ∷ now) (y ∷ seen) xs (λ x m.
                        elim (here_or x y now m) [
                          | inl same ↦
                              inl (subst (λ z. In x (z ∷ seen)) (sym same) (at_head x seen))
                          | inr older ↦ elim (h x older) [
                            | inl k ↦ inl (further x y seen k)
                            | inr k ↦ inr k
                          ]
                        ]),
                  )
          ])
]
  where
    not_traversed : (a b c : Bool) → (not a && not b && not c) ≡ true → c ≡ false
    not_traversed true b c e = cc
    not_traversed false true c e = cc
    not_traversed false false true e = cc
    not_traversed false false false e = refl

module _ (cost : Text → ℕ) where
  -- The links of the objects that are not traversed yet.
  unfoldable pub weigh : List Text → List Text → ℕ
  weigh [] traversed = 0
  weigh (u ∷ universe) traversed =
      let rest = weigh universe traversed in if member u traversed then rest else cost u + rest

  weigh_mono :
      (universe : List Text) (oid : Text) (traversed : List Text)
      → weigh universe (oid ∷ traversed) ≤ weigh universe traversed
  unfolding weigh
  weigh_mono [] oid traversed = omega arith
  weigh_mono (u ∷ universe) oid traversed =
      let h = weigh_mono universe oid traversed in
      elim (Bool-cases (member u traversed)) [
        | inl old ↦ rw (weigh, old, further u oid traversed old) h
        | inr new ↦ elim (Bool-cases (member u (oid ∷ traversed))) [
          | inl now ↦ rw (weigh, new, now) (omega arith)
          | inr still ↦ rw (weigh, new, still) (omega arith)
        ]
      ]

  pub weigh-visit :
      (universe : List Text) (oid : Text) (traversed : List Text)
      → In oid universe
      → member oid traversed ≡ false
      → weigh universe (oid ∷ traversed) + cost oid ≤ weigh universe traversed
  unfolding weigh
  weigh-visit [] oid traversed m new = let bad = sym (empty_member oid) ∙ m in cc
  weigh-visit (u ∷ universe) oid traversed m new = elim (here_or oid u universe m) [
    | inl same ↦
        let h = weigh_mono universe oid traversed in
        let c = ap cost same in
        let gone = subst (λ z. member z traversed ≡ false) (sym same) new in
        let now = subst (λ z. In z (oid ∷ traversed)) (sym same) (at_head oid traversed) in
        rw (weigh, gone, now) (omega arith)
    | inr rest ↦
        let h = weigh-visit universe oid traversed rest new in
        elim (Bool-cases (member u traversed)) [
          | inl old ↦ rw (weigh, old, further u oid traversed old) h
          | inr fresh ↦ elim (Bool-cases (member u (oid ∷ traversed))) [
            | inl now ↦ rw (weigh, fresh, now) (omega arith)
            | inr still ↦ rw (weigh, fresh, still) (omega arith)
          ]
        ]
  ]

module _ (decode : List ℕ → Text) (source : ObjectSource) (shallow : List Text) where
  -- The store holds objects of the universe only, each with no more links than its cost.
  abbrev pub IsBounded : (Text → ℕ) → List Text → Type 0
  IsBounded cost universe =
      (batch : List Text) (oid : Text) (links : List Text)
      → links_found decode source shallow oid (lookup oid (source.read_indexed_objects batch))
        ≡ some links
      → (length links ≤ cost oid) × In oid universe

  module _ (cost : Text → ℕ) (universe : List Text) (bounded : IsBounded cost universe) where
    visit_all-weighs :
        (batch oids pending traversed p t : List Text)
        → Fresh oids traversed
        → visit_all decode source shallow (source.read_indexed_objects batch) oids pending traversed
          ≡ ok (p, t)
        → length p + weigh cost universe t ≤ length pending + weigh cost universe traversed
    unfolding visit_all Fresh
    visit_all-weighs batch [] pending traversed p t f e =
        let same = ok-injective (ok (p, t)) refl (sym e) in
        subst
          (λ (r : List Text × List Text).
            length r.0 + weigh cost universe r.1 ≤ length pending + weigh cost universe traversed)
          (sym same) (omega arith)
    visit_all-weighs batch (oid ∷ oids) pending traversed p t (new, f) e =
        elim (Option-cases (
          links_found decode source shallow oid (lookup oid (source.read_indexed_objects batch)))) [
            | inl gone ↦ let bad = rw (visit_all, gone) at e in cc
            | inr (links, found) ↦
                let (few, held) = bounded batch oid links found in
                let later =
                  visit_all-weighs batch oids (push_all links pending) (oid ∷ traversed) p t f
                    (rw (visit_all, found) at e) in
                let pushed = length-push_all links pending in
                let less = weigh-visit cost universe oid traversed held new in omega arith
          ]

    module _ (verified visited : List Text) where
      walk-ends :
          (fuel : ℕ) (pending traversed : List Text)
          → length pending + weigh cost universe traversed < fuel
          → walk decode source shallow verified visited fuel pending traversed ≢ err out_of_fuel
      unfolding walk visit_frontier go_on
      walk-ends zero pending traversed h e = absurd (omega arith)
      walk-ends (suc fuel) [] traversed h e = cc
      walk-ends (suc fuel) (oid ∷ pending) traversed h e =
          let frontier =
            fresh_ones visited verified traversed
              (distinct [] (take frontier_count (oid ∷ pending))) in
          let rest = drop frontier_count (oid ∷ pending) in
          let onward =
            go_on decode source shallow verified visited
              (walk decode source shallow verified visited fuel) in
          elim (Result-cases (
            visit_all decode source shallow (source.read_indexed_objects frontier) frontier rest
              traversed)) [
                | inr (gone, f) ↦ let bad = sym (ap onward f) ∙ e in cc
                | inl ((p, t), f) ↦
                    let fresh =
                      frontier-Fresh visited verified traversed traversed []
                        (take frontier_count (oid ∷ pending)) (λ x m. inr m) in
                    let w = visit_all-weighs frontier frontier rest traversed p t fresh f in
                    let d = length-drop_most 97 pending in
                    walk-ends fuel p t (omega arith) (sym (ap onward f) ∙ e)
              ]

      -- Over a store that holds objects of a finite universe only, one round for each of their links and
      -- two more are rounds enough: the walk gives an answer, whatever was known before it.
      pub find_missing_object-ends :
          (fuel : ℕ) (tip : Text)
          → weigh cost universe [] + 1 < fuel
          → find_missing_object decode source shallow verified visited fuel tip ≢ err out_of_fuel
      unfolding find_missing_object
      find_missing_object-ends fuel tip h =
          elim (Bool-cases (member tip verified || member tip visited)) [
            | inl old ↦ rw (find_missing_object, old) (λ e. cc)
            | inr new ↦
                elim (Option-cases (source.read_connectivity tip (verified ++ visited) shallow)) [
                  | inr (closure, indexed) ↦ rw (find_missing_object, new, indexed) (λ e. cc)
                  | inl alone ↦
                      elim (Result-cases
                        (walk decode source shallow verified visited fuel (tip ∷ []) [])) [
                          | inl (t, f) ↦ rw (find_missing_object, new, alone, f) (λ e. cc)
                          | inr (stop, f) ↦
                              rw (find_missing_object, new, alone, f)
                                (λ e. walk-ends fuel (tip ∷ []) [] (omega arith) (f ∙ e))
                        ]
                ]
          ]
