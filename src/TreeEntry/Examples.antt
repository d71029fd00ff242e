-- ===== src/TreeEntry/Examples.antt =====
-- A tree of two entries.
use open_relic.Prelude.{
  ℕ, ◌≡◌, ◌≢◌, refl, List, [], ◌∷◌, map, ok, err, out_of_fuel, arith, replicate,
}
use open_relic.Prelude.Codes.{codes}
use open_relic.Prelude.Strings.{IsDecoder}
use open_relic.TreeEntry.{tree_mode, tree_entries}
use open_relic.TreeEntry.RoundTrip.{
  RawEntry, IsRawEntry, write_tree, parsed, tree_entries-write_tree,
}
use open_relic.TreeEntry.Ending.{tree_entries-ne-out_of_fuel}

abbrev ascii : List ℕ → List ℕ
ascii bytes = bytes

ascii-IsDecoder : IsDecoder ascii
ascii-IsDecoder bytes h = refl

abbrev readme : RawEntry
readme = record { mode = codes "100644"; name = codes "README"; id = replicate 20 7 }

abbrev source : RawEntry
source = record { mode = tree_mode; name = codes "src"; id = replicate 20 255 }

readme-IsRawEntry : IsRawEntry readme
readme-IsRawEntry = record { octal = refl; no_nul = ground arith; twenty = refl }

source-IsRawEntry : IsRawEntry source
source-IsRawEntry = record { octal = refl; no_nul = ground arith; twenty = refl }

tree_entries-write_tree_example :
    tree_entries ascii (write_tree (readme ∷ source ∷ []))
    ≡ record { entries = map parsed (readme ∷ source ∷ []); ended = ok tt }
tree_entries-write_tree_example =
    tree_entries-write_tree ascii (readme ∷ source ∷ []) ascii-IsDecoder
      (readme-IsRawEntry, (source-IsRawEntry, tt))

tree_entries-ne-out_of_fuel_example :
    (tree_entries ascii (codes "100644 README")).ended ≢ err out_of_fuel
tree_entries-ne-out_of_fuel_example = tree_entries-ne-out_of_fuel ascii (codes "100644 README")
