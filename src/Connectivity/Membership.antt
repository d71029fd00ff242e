-- ===== src/Connectivity/Membership.antt =====
-- Membership in the lists of the walk: what is pushed, and what a frontier takes off the stack.
use open_relic.Prelude.{
  ℕ, zero, suc, ◌≡◌, ◌≢◌, refl, sym, List, [], ◌∷◌, ◌++◌, true, take, drop, Bool-cases, ◌⊎◌, inl,
  inr,
}
use mathlib.Core.Path.{subst}
use open_relic.Prelude.Codes.{Text, text_eq, text_eq_iff}
use open_relic.Prelude.Strings.{member}
use open_relic.Connectivity.Walk.{push_all, distinct}

abbrev pub In : Text → List Text → Type 0
In x xs = member x xs ≡ true

pub none_in : (x : Text) → member x [] ≢ true
unfolding member
none_in x h = cc

pub here_or : (x y : Text) (ys : List Text) → In x (y ∷ ys) → (y ≡ x) ⊎ In x ys
unfolding member
here_or x y ys h = elim (Bool-cases (text_eq y x)) [
  | inl same ↦ inl ((text_eq_iff y x).0 same)
  | inr other ↦ inr (rw other at h)
]

pub at_head : (x : Text) (ys : List Text) → In x (x ∷ ys)
unfolding member
at_head x ys = rw ((text_eq_iff x x).1 refl) refl

pub further : (x y : Text) (ys : List Text) → In x ys → In x (y ∷ ys)
unfolding member
further x y ys h = elim (Bool-cases (text_eq y x)) [
  | inl same ↦ rw same refl
  | inr other ↦ rw other h
]

pub left_part : (x : Text) (xs ys : List Text) → In x xs → In x (xs ++ ys)
unfolding member
left_part x [] ys h = cc
left_part x (y ∷ xs) ys h = elim (here_or x y xs h) [
  | inl same ↦ subst (λ z. In x (z ∷ (xs ++ ys))) (sym same) (at_head x (xs ++ ys))
  | inr rest ↦ further x y (xs ++ ys) (left_part x xs ys rest)
]

pub right_part : (x : Text) (xs ys : List Text) → In x ys → In x (xs ++ ys)
right_part x [] ys h = h
right_part x (y ∷ xs) ys h = further x y (xs ++ ys) (right_part x xs ys h)

pub which_part : (x : Text) (xs ys : List Text) → In x (xs ++ ys) → In x xs ⊎ In x ys
which_part x [] ys h = inr h
which_part x (y ∷ xs) ys h = elim (here_or x y (xs ++ ys) h) [
  | inl same ↦ inl (subst (λ z. In x (z ∷ xs)) (sym same) (at_head x xs))
  | inr rest ↦ elim (which_part x xs ys rest) [ inl k ↦ inl (further x y xs k) | inr k ↦ inr k ]
]

pub halved : (n : ℕ) (x : Text) (xs : List Text) → In x xs → In x (take n xs) ⊎ In x (drop n xs)
halved zero x xs h = inr h
halved (suc n) x [] h = inl h
halved (suc n) x (y ∷ xs) h = elim (here_or x y xs h) [
  | inl same ↦ inl (subst (λ z. In x (z ∷ take n xs)) (sym same) (at_head x (take n xs)))
  | inr rest ↦ elim (halved n x xs rest) [ inl k ↦ inl (further x y (take n xs) k) | inr k ↦ inr k ]
]

pub pushed_below :
    (x : Text) (links pending : List Text) → In x pending → In x (push_all links pending)
unfolding push_all
pushed_below x [] pending h = h
pushed_below x (y ∷ links) pending h = pushed_below x links (y ∷ pending) (further x y pending h)

pub pushed_all : (x : Text) (links pending : List Text) → In x links → In x (push_all links pending)
unfolding push_all member
pushed_all x [] pending h = cc
pushed_all x (y ∷ links) pending h = elim (here_or x y links h) [
  | inl same ↦
      pushed_below x links (y ∷ pending)
        (subst (λ z. In x (z ∷ pending)) (sym same) (at_head x pending))
  | inr rest ↦ pushed_all x links (y ∷ pending) rest
]

pub deduplicated :
    (seen : List Text) (x : Text) (xs : List Text) → In x xs → In x seen ⊎ In x (distinct seen xs)
unfolding distinct member
deduplicated seen x [] h = cc
deduplicated seen x (y ∷ xs) h = elim (Bool-cases (member y seen)) [
  | inl old ↦
      rw (distinct, old)
        (elim (here_or x y xs h) [
          | inl same ↦ inl (subst (λ z. In z seen) same old)
          | inr rest ↦ deduplicated seen x xs rest
        ])
  | inr new ↦
      rw (distinct, new)
        (elim (here_or x y xs h) [
          | inl same ↦ inr (subst (λ z. In x (z ∷ distinct (y ∷ seen) xs)) (sym same) (at_head x _))
          | inr rest ↦ elim (deduplicated (y ∷ seen) x xs rest) [
            | inr k ↦ inr (further x y _ k)
            | inl k ↦ elim (here_or x y seen k) [
              | inl same ↦
                  inr (subst (λ z. In x (z ∷ distinct (y ∷ seen) xs)) (sym same) (at_head x _))
              | inr older ↦ inl older
            ]
          ]
        ])
]
