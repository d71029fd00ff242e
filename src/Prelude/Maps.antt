-- ===== src/Prelude/Maps.antt =====
-- JavaScript's Map with text keys: its entries in the order of insertion, each key once.
use mathlib.Core.Path.{◌≡◌, refl, sym, subst}
use mathlib.Core.Logic.{inl, inr}
use mathlib.Core.Option.{Option, none, some}
use mathlib.Core.List.{List, [], ◌∷◌}
use native.Mathlib.Omega.{arith}
use open_relic.Prelude.Tests.{if◌then◌else◌, Bool-cases}
use open_relic.Prelude.Codes.{Text, text_eq, text_eq_iff}

abbrev pub Map {ℓ} : Type ℓ → Type ℓ
Map V = List (Text × V)

module _ {ℓ} {V : Type ℓ} where
  unfoldable pub lookup : Text → Map V → Option V
  lookup k [] = none
  lookup k ((j, v) ∷ m) = if text_eq j k then some v else lookup k m

  -- `set` replaces the value of a key that is there, and adds any other key at the end.
  unfoldable pub insert : Text → V → Map V → Map V
  insert k v [] = (k, v) ∷ []
  insert k v ((j, w) ∷ m) =
      let rest = insert k v m in if text_eq j k then (j, v) ∷ m else (j, w) ∷ rest

  unfoldable pub without : Text → Map V → Map V
  without k [] = []
  without k ((j, v) ∷ m) = let rest = without k m in if text_eq j k then rest else (j, v) ∷ rest

  pub lookup-insert :
      (k j : Text) (v : V) (m : Map V)
      → lookup j (insert k v m) ≡ (if text_eq k j then some v else lookup j m)
  unfolding lookup insert
  lookup-insert k j v [] = refl
  lookup-insert k j v ((i, w) ∷ m) =
      ground (arith, text_eq_iff k j, text_eq_iff i k, text_eq_iff i j, lookup-insert k j v m)

  pub lookup-without :
      (k j : Text) (m : Map V) → lookup j (without k m) ≡ (if text_eq k j then none else lookup j m)
  unfolding lookup without
  lookup-without k j [] = ground arith
  lookup-without k j ((i, v) ∷ m) =
      ground (arith, text_eq_iff k j, text_eq_iff i k, text_eq_iff i j, lookup-without k j m)

  -- Each value satisfies a predicate at its key.
  abbrev pub Entries : (Text → V → Type 0) → Map V → Type 0
  Entries P [] = Unit {0}
  Entries P ((k, v) ∷ m) = P k v × Entries P m

  pub lookup-Entries :
      (P : Text → V → Type 0) (m : Map V) (k : Text) (v : V)
      → Entries P m
      → lookup k m ≡ some v
      → P k v
  unfolding lookup
  lookup-Entries P [] k v h e = let bad = e in cc
  lookup-Entries P ((j, w) ∷ m) k v (p, h) e = elim (Bool-cases (text_eq j k)) [
    | inl same ↦
        let held : ◌≡◌ {A = Option V} (some w) (some v) = rw same at e in
        let value : w ≡ v = cc in
        subst (λ x. P x v) ((text_eq_iff j k).0 same) (subst (P j) value p)
    | inr other ↦ lookup-Entries P m k v h (rw other at e)
  ]

  pub insert-Entries :
      (P : Text → V → Type 0) (m : Map V) (k : Text) (v : V)
      → P k v
      → Entries P m
      → Entries P (insert k v m)
  unfolding insert
  insert-Entries P [] k v p h = (p, tt)
  insert-Entries P ((j, w) ∷ m) k v p (q, h) = elim (Bool-cases (text_eq j k)) [
    | inl same ↦ rw same (subst (λ x. P x v) (sym ((text_eq_iff j k).0 same)) p, h)
    | inr other ↦ rw other (q, insert-Entries P m k v p h)
  ]

  pub without-Entries :
      (P : Text → V → Type 0) (m : Map V) (k : Text) → Entries P m → Entries P (without k m)
  unfolding without
  without-Entries P [] k h = tt
  without-Entries P ((j, w) ∷ m) k (q, h) = elim (Bool-cases (text_eq j k)) [
    | inl same ↦ rw same (without-Entries P m k h)
    | inr other ↦ rw other (q, without-Entries P m k h)
  ]
