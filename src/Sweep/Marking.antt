-- ===== src/Sweep/Marking.antt =====
-- What is marked stays marked, and the links of what was walked are marked.
use open_relic.Prelude.{
  ◌≡◌, refl, sym, ap, ◌∙◌, List, [], ◌∷◌, true, false, length, Option, none, some, arith,
  Bool-cases, Option-cases, inl, inr, ◌⊎◌,
}
use open_relic.Prelude.Codes.{Text, text_eq, text_eq_iff}
use open_relic.Prelude.Strings.{member}
use open_relic.Prelude.Maps.{Map, lookup, insert, lookup-insert}
use open_relic.GitObject.{ObjectType}
use mathlib.Core.Path.{subst}
use open_relic.Connectivity.{ObjectLink}
use open_relic.Sweep.{Mark, linked, mark_link, mark_links, mark_walked, root_marks, pending_rows}

-- An id with a row in the mark set.
abbrev pub Marked : Text → Map Mark → Type 0
Marked oid reachable = (m : Mark) × (lookup oid reachable ≡ some m)

-- Every row that is walked in `after` was walked in `before`.
abbrev pub Unwalked : Map Mark → Map Mark → Type 0
Unwalked before after =
    (oid : Text) (m : Mark)
    → lookup oid after ≡ some m
    → m.pending ≡ false
    → (x : Mark) × (lookup oid before ≡ some x) × (x.pending ≡ false)

abbrev pub targets : List ObjectLink → List Text
targets [] = []
targets (link ∷ links) = link.oid ∷ targets links

insert-Marked :
    (key : Text) (value : Mark) (oid : Text) (reachable : Map Mark)
    → Marked oid reachable
    → Marked oid (insert key value reachable)
insert-Marked key value oid reachable (m, e) = elim (Bool-cases (text_eq key oid)) [
  | inl same ↦ (value, lookup-insert key oid value reachable ∙ rw same refl)
  | inr other ↦ (m, lookup-insert key oid value reachable ∙ rw other e)
]

inserted-Marked :
    (key : Text) (value : Mark) (reachable : Map Mark) → Marked key (insert key value reachable)
inserted-Marked key value reachable =
    let same : text_eq key key ≡ true = (text_eq_iff key key).1 refl in
    (value, lookup-insert key key value reachable ∙ rw same refl)

pub mark_link-Marked :
    (link : ObjectLink) (oid : Text) (reachable : Map Mark)
    → Marked oid reachable
    → Marked oid (mark_link link reachable)
unfolding mark_link
mark_link-Marked link oid reachable = insert-Marked link.oid _ oid reachable

link_after :
    (link : ObjectLink) (oid : Text) (reachable : Map Mark)
    → link.oid ≡ oid
    → Marked oid (mark_link link reachable)
unfolding mark_link
link_after link oid reachable e =
    subst (λ x. Marked x (mark_link link reachable)) e (inserted-Marked link.oid _ reachable)

pub mark_links-Marked :
    (links : List ObjectLink) (oid : Text) (reachable : Map Mark)
    → Marked oid reachable
    → Marked oid (mark_links links reachable)
unfolding mark_links
mark_links-Marked [] oid reachable h = h
mark_links-Marked (link ∷ links) oid reachable h =
    mark_links-Marked links oid (mark_link link reachable) (mark_link-Marked link oid reachable h)

-- Every target is marked.
pub mark_links-targets :
    (links : List ObjectLink) (oid : Text) (reachable : Map Mark)
    → member oid (targets links) ≡ true
    → Marked oid (mark_links links reachable)
unfolding mark_links member
mark_links-targets [] oid reachable h = cc
mark_links-targets (link ∷ links) oid reachable h = elim (Bool-cases (text_eq link.oid oid)) [
  | inl same ↦
      mark_links-Marked links oid (mark_link link reachable)
        (link_after link oid reachable ((text_eq_iff link.oid oid).0 same))
  | inr other ↦ mark_links-targets links oid (mark_link link reachable) (rw other at h)
]

-- The row that `markLink` writes is walked only if the row before it was.
linked_walked :
    (type : ObjectType) (old : Option Mark)
    → (linked type old).pending ≡ false
    → (x : Mark) × (old ≡ some x) × (x.pending ≡ false)
linked_walked type none w = cc
linked_walked type (some x) w = (x, refl, w)

mark_link-Unwalked :
    (link : ObjectLink) (reachable : Map Mark) → Unwalked reachable (mark_link link reachable)
unfolding mark_link
mark_link-Unwalked link reachable oid m e w =
    let row =
      sym (lookup-insert link.oid oid (linked link.type (lookup link.oid reachable)) reachable)
      ∙ e in
    elim (Bool-cases (text_eq link.oid oid)) [
      | inr other ↦ (m, rw other at row, w)
      | inl same ↦
          let k = (text_eq_iff link.oid oid).0 same in
          let written = some-injective (rw same at row) in
          let (x, f, v) =
            linked_walked link.type (lookup link.oid reachable) (ap (λ y. y.pending) written ∙ w) in
          (x, ap (λ y. lookup y reachable) (sym k) ∙ f, v)
    ]
  where
    some-injective : {a b : Mark} → some a ≡ some b → a ≡ b
    some-injective h = cc

pub mark_links-Unwalked :
    (links : List ObjectLink) (reachable : Map Mark)
    → Unwalked reachable (mark_links links reachable)
unfolding mark_links
mark_links-Unwalked [] reachable oid m e w = (m, e, w)
mark_links-Unwalked (link ∷ links) reachable oid m e w =
    let (x, f, v) = mark_links-Unwalked links (mark_link link reachable) oid m e w in
    mark_link-Unwalked link reachable oid x f v

-- Finishing a row: what is marked stays marked, and no other row counts as walked.
pub mark_walked-Marked :
    (key oid : Text) (reachable : Map Mark)
    → Marked oid reachable
    → Marked oid (mark_walked key reachable)
unfolding mark_walked
mark_walked-Marked key oid reachable h = elim (Option-cases (lookup key reachable)) [
  | inl gone ↦ rw (mark_walked, gone) h
  | inr (m, there) ↦ rw (mark_walked, there) (insert-Marked key _ oid reachable h)
]

pub mark_walked-cases :
    (key oid : Text) (reachable : Map Mark) (m : Mark)
    → lookup oid (mark_walked key reachable) ≡ some m
    → (oid ≡ key) ⊎ (lookup oid reachable ≡ some m)
unfolding mark_walked
mark_walked-cases key oid reachable m e = elim (Option-cases (lookup key reachable)) [
  | inl gone ↦ inr (rw (mark_walked, gone) at e)
  | inr (x, there) ↦ elim (Bool-cases (text_eq key oid)) [
    | inl same ↦ inl (sym ((text_eq_iff key oid).0 same))
    | inr other ↦
        let row = rw (mark_walked, there) at e in
        let written =
          sym (lookup-insert key oid (record { expected = x.expected; pending = false }) reachable)
          ∙ row in
        inr (rw other at written)
  ]
]

-- The rows of a new snapshot: each root, and no row is walked.
pub root_marks-Marked :
    (roots : List Text) (oid : Text) (reachable : Map Mark)
    → Marked oid reachable
    → Marked oid (root_marks roots reachable)
unfolding root_marks
root_marks-Marked [] oid reachable h = h
root_marks-Marked (r ∷ roots) oid reachable h = elim (Option-cases (lookup r reachable)) [
  | inl new ↦
      rw (root_marks, new)
        (root_marks-Marked roots oid (insert r _ reachable) (insert-Marked r _ oid reachable h))
  | inr (m, old) ↦ rw (root_marks, old) (root_marks-Marked roots oid reachable h)
]

pub root_marks-roots :
    (roots : List Text) (oid : Text) (reachable : Map Mark)
    → member oid roots ≡ true
    → Marked oid (root_marks roots reachable)
unfolding member root_marks
root_marks-roots [] oid reachable h = cc
root_marks-roots (r ∷ roots) oid reachable h = elim (Bool-cases (text_eq r oid)) [
  | inr other ↦ elim (Option-cases (lookup r reachable)) [
    | inl new ↦
        rw (root_marks, new) (root_marks-roots roots oid (insert r _ reachable) (rw other at h))
    | inr (m, old) ↦ rw (root_marks, old) (root_marks-roots roots oid reachable (rw other at h))
  ]
  | inl same ↦
      let e = (text_eq_iff r oid).0 same in
      let here = λ (x : Map Mark) (k : Marked r x).
        root_marks-Marked roots oid x (subst (λ y. Marked y x) e k) in
      elim (Option-cases (lookup r reachable)) [
        | inl new ↦
            rw (root_marks, new) (here (insert r _ reachable) (inserted-Marked r _ reachable))
        | inr (m, old) ↦ rw (root_marks, old) (here reachable (m, old))
      ]
]

-- No row of the map is walked.
abbrev pub AllPending : Map Mark → Type 0
AllPending reachable = (oid : Text) (m : Mark) → lookup oid reachable ≡ some m → m.pending ≡ true

insert-AllPending :
    (key : Text) (reachable : Map Mark)
    → AllPending reachable
    → AllPending (insert key (record { expected = none; pending = true }) reachable)
insert-AllPending key reachable h oid m e =
    let row =
      sym (lookup-insert key oid (record { expected = none; pending = true }) reachable) ∙ e in
    elim (Bool-cases (text_eq key oid)) [
      | inl same ↦ let written = rw same at row in cc
      | inr other ↦ h oid m (rw other at row)
    ]

pub root_marks-AllPending :
    (roots : List Text) (reachable : Map Mark)
    → AllPending reachable
    → AllPending (root_marks roots reachable)
unfolding root_marks
root_marks-AllPending [] reachable h = h
root_marks-AllPending (r ∷ roots) reachable h = elim (Option-cases (lookup r reachable)) [
  | inl new ↦
      rw (root_marks, new)
        (root_marks-AllPending roots (insert r _ reachable) (insert-AllPending r reachable h))
  | inr (m, old) ↦ rw (root_marks, old) (root_marks-AllPending roots reachable h)
]

-- Where nothing is pending, every row is walked.
pub none_pending :
    (reachable : Map Mark) (oid : Text) (m : Mark)
    → length (pending_rows reachable) ≡ 0
    → lookup oid reachable ≡ some m
    → m.pending ≡ false
unfolding pending_rows lookup
none_pending [] oid m h e = cc
none_pending ((key, x) ∷ rows) oid m h e = elim (Bool-cases x.pending) [
  | inl waits ↦ absurd (omega (arith, rw waits at h))
  | inr walked ↦ elim (Bool-cases (text_eq key oid)) [
    | inl same ↦ let row = rw same at e in cc
    | inr other ↦ none_pending rows oid m (rw walked at h) (rw other at e)
  ]
]
