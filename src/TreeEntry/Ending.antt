-- ===== src/TreeEntry/Ending.antt =====
-- The scan of a tree ends, whatever the bytes are.
use open_relic.Prelude.{
  ℕ, zero, suc, ◌≤◌, ◌<◌, ◌≡◌, ◌≢◌, refl, List, [], ◌∷◌, length, arith, none, some, take, drop, ltb,
  ◌==◌, ◌⊎◌, inl, inr, Bool-cases, err, out_of_fuel, length-drop,
}
use open_relic.Prelude.Codes.{Text}
use open_relic.Hex.{to_hex}
use open_relic.TreeEntry.{
  ParsedTreeEntry, ObjectParseError, entry, failed, no_mode, ends_midway, not_a_mode, cut, is_mode,
  next_entry, entries_loop, entries_step, tree_entries,
}

cut_cases :
    (byte : ℕ) (bytes : List ℕ)
    → (cut byte bytes ≡ none)
      ⊎ ((a : List ℕ) × (b : List ℕ) × (cut byte bytes ≡ some (a, b)) × (length b < length bytes))
unfolding cut
cut_cases byte [] = inl refl
cut_cases byte (x ∷ bytes) = elim (Bool-cases (x == byte)) [
  | inl same ↦ inr ([], bytes, rw same refl, omega arith)
  | inr other ↦ elim (cut_cases byte bytes) [
    | inl missing ↦ inl (rw (other, missing) refl)
    | inr (a, b, e, shorter) ↦ inr (x ∷ a, b, rw (other, e) refl, omega arith)
  ]
]

module _ (decode : List ℕ → Text) where
  -- A round throws, or yields an entry and leaves fewer bytes.
  round_cases :
      (bytes : List ℕ)
      → ((e : ObjectParseError) × (next_entry decode bytes ≡ failed e))
        ⊎ ((e : ParsedTreeEntry) × (rest : List ℕ) × (next_entry decode bytes ≡ entry e rest)
            × (length rest < length bytes))
  unfolding next_entry
  round_cases bytes = elim (cut_cases 0x20 bytes) [
    | inl missing ↦ inl (no_mode, rw (next_entry, missing) refl)
    | inr (mode, tail, e, shorter) ↦ elim (cut_cases 0x00 tail) [
      | inl missing ↦ inl (ends_midway, rw (next_entry, e, missing) refl)
      | inr (name, id, f, shorter') ↦ elim (Bool-cases (ltb (length id) 20)) [
        | inl few ↦ inl (ends_midway, rw (next_entry, e, f, few) refl)
        | inr enough ↦ elim (Bool-cases (is_mode (decode mode))) [
          | inr bad ↦ inl (not_a_mode, rw (next_entry, e, f, enough, bad) refl)
          | inl octal ↦ inr (
            record { mode = decode mode; name = name; oid = to_hex (take 20 id) },
            drop 20 id,
            rw (next_entry, e, f, enough, octal) refl,
            omega (arith, length-drop 20 id),
          )
        ]
      ]
    ]
  ]

  loop_ends :
      (fuel : ℕ) (bytes : List ℕ)
      → length bytes ≤ fuel
      → (entries_loop decode fuel bytes).ended ≢ err out_of_fuel
  unfolding entries_loop entries_step
  loop_ends fuel [] b = λ e. cc
  loop_ends zero (x ∷ bytes) b = absurd (omega arith)
  loop_ends (suc fuel) (x ∷ bytes) b = elim (round_cases (x ∷ bytes)) [
    | inl (e, h) ↦ rw h (λ f. cc)
    | inr (e, rest, h, shorter) ↦ rw h (loop_ends fuel rest (omega arith))
  ]

-- The loop of `treeEntries` ends on every sequence of bytes: the scan ends behind the last entry or
-- by a throw, and never for want of fuel.
pub tree_entries-ne-out_of_fuel :
    (decode : List ℕ → Text) (bytes : List ℕ) → (tree_entries decode bytes).ended ≢ err out_of_fuel
unfolding tree_entries
tree_entries-ne-out_of_fuel decode bytes = loop_ends decode (length bytes) bytes (omega arith)
