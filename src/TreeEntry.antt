-- ===== src/TreeEntry.antt =====
-- apps/api/src/tree-entry.ts: the entries of a tree object.
mod Examples
pub mod RoundTrip
pub mod Ending
use open_relic.Prelude.{
  ℕ, zero, suc, ◌+◌, ◌-◌, List, [], ◌∷◌, ◌++◌, Bool, true, false, ◌&&◌, ◌||◌, not, all, length,
  take, drop, leb, ltb, ◌==◌, if◌then◌else◌, Option, none, some, Result, ok, err, Stop, thrown,
  out_of_fuel,
}
use open_relic.Prelude.Codes.{Text, codes}
use open_relic.Hex.{to_hex}

abbrev pub tree_mode : Text
tree_mode = codes "40000"

abbrev pub gitlink_mode : Text
gitlink_mode = codes "160000"

pub record ParsedTreeEntry : Type 0 where
  pub mode : Text
  pub name : List ℕ
  pub oid : Text

-- The throws of `treeEntries`.
pub data ObjectParseError : Type 0 where
  no_mode ends_midway not_a_mode : ObjectParseError

-- The bytes in front of the first `byte` and the bytes behind it; what `indexOf` is used for.
unfoldable pub cut : ℕ → List ℕ → Option (List ℕ × List ℕ)
cut byte [] = none
cut byte (b ∷ bytes) =
    let more : Option (List ℕ × List ℕ) = elim (cut byte bytes) [
      | none ↦ none
      | some x ↦ some (b ∷ x.0, x.1)
    ] in
    if b == byte then some ([], bytes) else more

-- `/^[0-7]{5,6}$/`.
abbrev pub is_mode : Text → Bool
is_mode mode = (length mode == 5 || length mode == 6) && all (λ c. leb 48 c && leb c 55) mode

pub data Parsed : Type 0 where
  entry : ParsedTreeEntry → List ℕ → Parsed
  failed : ObjectParseError → Parsed

-- What the generator yields, and how it ends: behind the last entry, or by a throw.
pub record Scan : Type 0 where
  pub entries : List ParsedTreeEntry
  pub ended : Result (Stop ObjectParseError) (Unit {0})

-- A round's result, where `more` goes on with the loop.
unfoldable pub entries_step : (List ℕ → Scan) → Parsed → Scan
entries_step more (failed e) = record { entries = []; ended = err (thrown e) }
entries_step more (entry e rest) = record {
  entries = e ∷ (more rest).entries;
  ended = (more rest).ended;
}

-- `decode` is the `decode` of a TextDecoder.
module _ (decode : List ℕ → Text) where
  -- A round of the loop: the entry at the start of `bytes`, and the bytes behind it.
  unfoldable pub next_entry : List ℕ → Parsed
  next_entry bytes = elim (cut 0x20 bytes) [
    | none ↦ failed no_mode
    | some x ↦ elim (cut 0x00 x.1) [
      | none ↦ failed ends_midway
      | some y ↦
          if ltb (length y.1) 20
          then failed ends_midway
          else if is_mode (decode x.0)
          then entry (record { mode = decode x.0; name = y.0; oid = to_hex (take 20 y.1) })
              (drop 20 y.1)
          else failed not_a_mode
    ]
  ]

  unfoldable pub entries_loop : ℕ → List ℕ → Scan
  entries_loop fuel [] = record { entries = []; ended = ok tt }
  entries_loop zero (b ∷ bytes) = record { entries = []; ended = err out_of_fuel }
  entries_loop (suc fuel) (b ∷ bytes) = entries_step (entries_loop fuel) (next_entry (b ∷ bytes))

  -- Each entry takes at least 21 bytes.
  unfoldable pub tree_entries : List ℕ → Scan
  tree_entries bytes = entries_loop (length bytes) bytes
