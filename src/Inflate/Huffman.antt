-- ===== src/Inflate/Huffman.antt =====
-- apps/api/src/inflate.ts: the canonical Huffman tables, and the tables that the format fixes.
use open_relic.Prelude.{
  ℕ, zero, suc, ◌+◌, ◌%◌, ◌^◌, List, [], ◌∷◌, ◌++◌, set, get_elem?, replicate, length, none, some,
  if◌then◌else◌, ◌==◌,
}

abbrev pub max_code_bits : ℕ
max_code_bits = 15

abbrev pub code_length_order : List ℕ
code_length_order =
    16 ∷ 17 ∷ 18 ∷ 0 ∷ 8 ∷ 7 ∷ 9 ∷ 6 ∷ 10 ∷ 5 ∷ 11 ∷ 4 ∷ 12 ∷ 3 ∷ 13 ∷ 2 ∷ 14 ∷ 1 ∷ 15 ∷ []

abbrev pub length_base : List ℕ
length_base =
    3 ∷ 4 ∷ 5 ∷ 6 ∷ 7 ∷ 8 ∷ 9 ∷ 10 ∷ 11 ∷ 13 ∷ 15 ∷ 17 ∷ 19 ∷ 23 ∷ 27 ∷ 31 ∷ 35 ∷ 43 ∷ 51 ∷ 59 ∷ 67
    ∷ 83 ∷ 99 ∷ 115 ∷ 131 ∷ 163 ∷ 195 ∷ 227 ∷ 258 ∷ []

abbrev pub length_extra : List ℕ
length_extra =
    0 ∷ 0 ∷ 0 ∷ 0 ∷ 0 ∷ 0 ∷ 0 ∷ 0 ∷ 1 ∷ 1 ∷ 1 ∷ 1 ∷ 2 ∷ 2 ∷ 2 ∷ 2 ∷ 3 ∷ 3 ∷ 3 ∷ 3 ∷ 4 ∷ 4 ∷ 4 ∷ 4
    ∷ 5 ∷ 5 ∷ 5 ∷ 5 ∷ 0 ∷ []

abbrev pub distance_base : List ℕ
distance_base =
    1 ∷ 2 ∷ 3 ∷ 4 ∷ 5 ∷ 7 ∷ 9 ∷ 13 ∷ 17 ∷ 25 ∷ 33 ∷ 49 ∷ 65 ∷ 97 ∷ 129 ∷ 193 ∷ 257 ∷ 385 ∷ 513 ∷ 769
    ∷ 1025 ∷ 1537 ∷ 2049 ∷ 3073 ∷ 4097 ∷ 6145 ∷ 8193 ∷ 12289 ∷ 16385 ∷ 24577 ∷ []

abbrev pub distance_extra : List ℕ
distance_extra =
    0 ∷ 0 ∷ 0 ∷ 0 ∷ 1 ∷ 1 ∷ 2 ∷ 2 ∷ 3 ∷ 3 ∷ 4 ∷ 4 ∷ 5 ∷ 5 ∷ 6 ∷ 6 ∷ 7 ∷ 7 ∷ 8 ∷ 8 ∷ 9 ∷ 9 ∷ 10 ∷ 10
    ∷ 11 ∷ 11 ∷ 12 ∷ 12 ∷ 13 ∷ 13 ∷ []

pub record Huffman : Type 0 where
  pub counts : List ℕ
  pub symbols : List ℕ

-- A typed array's element. Past the end it is `undefined`, which reads as 0 in arithmetic on bits. The
-- read of a decoded symbol does not go by this: there a place past the end is told apart.
abbrev pub element : List ℕ → ℕ → ℕ
element array i = elim (get_elem? array i) [ none ↦ 0 | some x ↦ x ]

-- `array[i] = value` in a Uint16Array; past the end it does nothing.
abbrev pub store : List ℕ → ℕ → ℕ → List ℕ
store array i value = set array i (value % 2 ^ 16)

unfoldable pub count_lengths : List ℕ → List ℕ → List ℕ
count_lengths [] counts = counts
count_lengths (l ∷ lengths) counts = count_lengths lengths (store counts l (element counts l + 1))

-- The loop that adds the counts up: `rounds` are left, and `at` is the length of the round.
unfoldable pub sum_offsets : ℕ → ℕ → List ℕ → List ℕ → List ℕ
sum_offsets zero at counts offsets = offsets
sum_offsets (suc rounds) at counts offsets =
    sum_offsets rounds (at + 1) counts
      (store offsets (at + 1) (element offsets at + element counts at))

-- The loop that puts each symbol at the next place of its length.
unfoldable pub place_symbols : List ℕ → ℕ → List ℕ → List ℕ → List ℕ
place_symbols [] symbol offsets symbols = symbols
place_symbols (l ∷ lengths) symbol offsets symbols =
    let skipped = place_symbols lengths (symbol + 1) offsets symbols in
    let placed =
      place_symbols lengths (symbol + 1) (store offsets l (element offsets l + 1))
        (store symbols (element offsets l) symbol) in
    if l == 0 then skipped else placed

unfoldable pub length_counts : List ℕ → List ℕ
length_counts lengths = set (count_lengths lengths (replicate (max_code_bits + 1) 0)) 0 0

unfoldable pub build_huffman : List ℕ → Huffman
build_huffman lengths =
    let counts = length_counts lengths in
    let offsets = sum_offsets max_code_bits 1 counts (replicate (max_code_bits + 2) 0) in
    record {
      counts = counts;
      symbols = place_symbols lengths 0 offsets (replicate (length lengths) 0);
    }

abbrev pub fixed_literal_lengths : List ℕ
fixed_literal_lengths = replicate 144 8 ++ replicate 112 9 ++ replicate 24 7 ++ replicate 8 8

unfoldable pub fixed_literals : Huffman
fixed_literals = build_huffman fixed_literal_lengths

unfoldable pub fixed_distances : Huffman
fixed_distances = build_huffman (replicate 30 5)
