-- ===== src/Inflate/Decoding.antt =====
-- apps/api/src/inflate.ts: reading a Huffman code and the tables of a dynamic block.
use open_relic.Prelude.{
  ℕ, zero, suc, ◌+◌, ◌-◌, ◌*◌, bit_or, List, [], ◌∷◌, ◌++◌, take, drop, length, set, get_elem?, ltb,
  ◌==◌, if◌then◌else◌, replicate, none, some,
}
use open_relic.Inflate.Huffman.{Huffman, element, build_huffman, code_length_order, max_code_bits}
use open_relic.Inflate.Reader.{
  Action, ◌>>=◌, gives, throw, bits, incomplete_code, undefined_symbol, nothing_to_repeat,
  repeat_overruns,
}

-- `table.symbols[i]!`: a place past the end of the array is no symbol.
unfoldable pub symbol_at : List ℕ → ℕ → Action ℕ
symbol_at symbols i = elim (get_elem? symbols i) [
  | none ↦ throw undefined_symbol
  | some symbol ↦ gives symbol
]

-- The loop of `#decode`: `rounds` are left of 15, and `at` is the length of the round.
unfoldable pub decode_loop : ℕ → ℕ → Huffman → ℕ → ℕ → ℕ → Action ℕ
decode_loop zero at table code first index = throw incomplete_code
decode_loop (suc rounds) at table code first index = do
  bit ← bits 1
  let code' = bit_or code bit
  let count = element table.counts at
  let more = decode_loop rounds (at + 1) table (code' * 2) ((first + count) * 2) (index + count)
  if ltb code' (first + count) then symbol_at table.symbols (index + (code' - first)) else more

unfoldable pub decode : Huffman → Action ℕ
decode table = decode_loop max_code_bits 1 table 0 0 0

-- The loop over the lengths of the code-length code.
unfoldable pub read_code_lengths : List ℕ → List ℕ → Action (List ℕ)
read_code_lengths [] lengths = gives lengths
read_code_lengths (symbol ∷ order) lengths = do
  l ← bits 3
  read_code_lengths order (set lengths symbol l)

-- A run of `value` at the end of the lengths so far.
unfoldable pub fill : ℕ → ℕ → List ℕ → ℕ → Action (List ℕ)
fill total value filled repeat =
    if ltb total (length filled + repeat)
    then throw repeat_overruns
    else gives (filled ++ replicate repeat value)

-- One round of the loop over the code lengths, for its `symbol`.
unfoldable pub read_repeat : ℕ → List ℕ → ℕ → Action (List ℕ)
read_repeat total filled symbol =
    if ltb symbol 16
    then gives (filled ++ (symbol ∷ []))
    else if symbol == 16
    then if length filled == 0
      then throw nothing_to_repeat
      else (do extra ← bits 2; fill total (element filled (length filled - 1)) filled (3 + extra))
    else if symbol == 17
    then (do extra ← bits 3; fill total 0 filled (3 + extra))
    else (do extra ← bits 7; fill total 0 filled (11 + extra))

-- The loop over the code lengths: `filled` is `lengths` below `at`. A round adds at least one, so that
-- the length of the array is rounds enough.
unfoldable pub read_lengths : ℕ → ℕ → Huffman → List ℕ → Action (List ℕ)
read_lengths zero total table filled = gives filled
read_lengths (suc rounds) total table filled =
    let round = decode table >>= read_repeat total filled >>= read_lengths rounds total table in
    if ltb (length filled) total then round else gives filled

unfoldable pub read_dynamic_tables : Action (Huffman × Huffman)
read_dynamic_tables = do
  literals ← bits 5
  distances ← bits 5
  codes ← bits 4
  code_lengths ←
      read_code_lengths (take (codes + 4) code_length_order)
        (replicate (length code_length_order) 0)
  let total = literals + 257 + (distances + 1)
  lengths ← read_lengths total total (build_huffman code_lengths) []
  gives
      (build_huffman (take (literals + 257) lengths), build_huffman (drop (literals + 257) lengths))
