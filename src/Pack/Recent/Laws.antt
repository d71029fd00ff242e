-- ===== src/Pack/Recent/Laws.antt =====
-- The window stays within its bounds, counts its bytes right, and answers with what it was given.
use open_relic.Prelude.{ℕ, ◌+◌, ◌≤◌, ◌≡◌, refl, [], ◌∷◌, none, some, length, arith}
use open_relic.Prelude.Codes.{Text, text_eq_iff}
use open_relic.Prelude.Maps.{Map, lookup, insert, without, lookup-insert, lookup-without}
use open_relic.Pack.{PackBase}
use open_relic.Pack.Recent.{RecentPackBases}

-- The bytes of all entries.
abbrev pub total : Map PackBase → ℕ
total [] = 0
total ((oid, object) ∷ m) = length object.bytes + total m

-- Each name stands in the map once.
abbrev pub Distinct : Map PackBase → Type 0
Distinct [] = Unit
Distinct ((oid, object) ∷ m) = (lookup oid m ≡ none) × Distinct m

-- The invariant of the window.
pub record IsRecent (r : RecentPackBases) : Type 0 where
  pub counted : r.bytes ≡ total r.entries
  pub few : length r.entries ≤ 256
  pub small : r.bytes ≤ 4194304
  pub distinct : Distinct r.entries

without-absent :
    (k : Text) (m : Map PackBase)
    → lookup k m ≡ none
    → (total (without k m) ≡ total m) × (length (without k m) ≡ length m)
unfolding lookup without
without-absent k [] h = omega arith
without-absent k ((j, v) ∷ m) h = ground (arith, without-absent k m)

absent_after : (k j : Text) (m : Map PackBase) → lookup j m ≡ none → lookup j (without k m) ≡ none
absent_after k j m h = ground (arith, lookup-without k j m)

pub without-Distinct : (k : Text) (m : Map PackBase) → Distinct m → Distinct (without k m)
unfolding without
without-Distinct k [] h = tt
without-Distinct k ((j, v) ∷ m) (h, hs) =
    ground (arith, without-Distinct k m hs, absent_after k j m h)

pub without-present :
    (k : Text) (m : Map PackBase) (v : PackBase)
    → Distinct m
    → lookup k m ≡ some v
    → (total (without k m) + length v.bytes ≡ total m) × (length (without k m) + 1 ≡ length m)
unfolding lookup without
without-present k [] v d h = cc
without-present k ((j, w) ∷ m) v (d, ds) h =
    ground (arith, without-present k m v ds, without-absent k m, text_eq_iff j k)

pub insert-absent :
    (k : Text) (v : PackBase) (m : Map PackBase)
    → lookup k m ≡ none
    → (total (insert k v m) ≡ total m + length v.bytes) × (length (insert k v m) ≡ length m + 1)
unfolding lookup insert
insert-absent k v [] h = omega arith
insert-absent k v ((j, w) ∷ m) h = ground (arith, insert-absent k v m)

pub insert-Distinct :
    (k : Text) (v : PackBase) (m : Map PackBase)
    → lookup k m ≡ none
    → Distinct m
    → Distinct (insert k v m)
unfolding lookup insert
insert-Distinct k v [] h d = (refl, tt)
insert-Distinct k v ((j, w) ∷ m) h (d, ds) =
    ground (arith, insert-Distinct k v m, lookup-insert k j v m, text_eq_iff k j, text_eq_iff j k)
