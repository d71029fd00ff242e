-- ===== src/Inflate/Alphabet.antt =====
-- What a Huffman code can decode to: a symbol of the alphabet that its table was built for.
use open_relic.Prelude.{
  ℕ, zero, suc, ◌+◌, ◌-◌, ◌*◌, ◌%◌, ◌^◌, ◌≤◌, ◌<◌, ◌≡◌, ◌≢◌, refl, ap, ◌∙◌, bit_or, List, [], ◌∷◌,
  drop, length, replicate, set, get_elem?, ltb, ◌==◌, if◌then◌else◌, arith, Bool-cases, inl, inr,
  some, All,
}
use open_relic.Prelude.Bits.{bit_or_above}
use open_relic.Inflate.Huffman.{
  Huffman, element, store, count_lengths, place_symbols, length_counts, build_huffman,
  max_code_bits,
}
use open_relic.Inflate.Reader.{
  undefined_symbol, Inflater, Read, got, need_input, corrupt, Action, resume, bits,
}
use open_relic.Inflate.Decoding.{decode, decode_loop, symbol_at}

abbrev sum : List ℕ → ℕ
sum [] = 0
sum (x ∷ xs) = x + sum xs

sum-set : (xs : List ℕ) (i v : ℕ) → v ≤ element xs i + 1 → sum (set xs i v) ≤ sum xs + 1
sum-set [] i v h = omega arith
sum-set (x ∷ xs) zero v h = omega arith
sum-set (x ∷ xs) (suc i) v h = let k = sum-set xs i v h in omega arith

sum-count_lengths :
    (lengths counts : List ℕ) → sum (count_lengths lengths counts) ≤ sum counts + length lengths
unfolding count_lengths
sum-count_lengths [] counts = omega arith
sum-count_lengths (l ∷ lengths) counts =
    let h = sum-count_lengths lengths (store counts l (element counts l + 1)) in
    let k = sum-set counts l ((element counts l + 1) % 2 ^ 16) (omega arith) in omega arith

sum-drop_one : (xs : List ℕ) → sum (drop 1 (set xs 0 0)) ≤ sum xs
sum-drop_one [] = omega arith
sum-drop_one (x ∷ xs) = omega arith

-- The codes of all lengths together are no more than the symbols.
counts_bound : (lengths : List ℕ) → sum (drop 1 (build_huffman lengths).counts) ≤ length lengths
unfolding build_huffman length_counts
counts_bound lengths =
    let counts = count_lengths lengths (replicate (max_code_bits + 1) 0) in
    let h = sum-drop_one counts in
    let k = sum-count_lengths lengths (replicate (max_code_bits + 1) 0) in omega arith

length-set : (xs : List ℕ) (i v : ℕ) → length (set xs i v) ≡ length xs
length-set [] i v = refl
length-set (x ∷ xs) zero v = refl
length-set (x ∷ xs) (suc i) v = ap suc (length-set xs i v)

length-replicate_zero : (n : ℕ) → length (replicate {A = ℕ} n 0) ≡ n
length-replicate_zero zero = refl
length-replicate_zero (suc n) = ap suc (length-replicate_zero n)

length-place_symbols :
    (lengths : List ℕ) (symbol : ℕ) (offsets symbols : List ℕ)
    → length (place_symbols lengths symbol offsets symbols) ≡ length symbols
unfolding place_symbols
length-place_symbols [] symbol offsets symbols = refl
length-place_symbols (l ∷ lengths) symbol offsets symbols = elim (Bool-cases (l == 0)) [
  | inl unused ↦
      rw (place_symbols, unused) (length-place_symbols lengths (symbol + 1) offsets symbols)
  | inr used ↦
      rw (place_symbols, used)
        (length-place_symbols lengths (symbol + 1) _ _ ∙ length-set symbols _ _)
]

Below : ℕ → List ℕ → Type 0
Below n = All (λ (x : ℕ). x < n)

set-Below : (n : ℕ) (xs : List ℕ) (i v : ℕ) → v < n → Below n xs → Below n (set xs i v)
unfolding Below
set-Below n [] i v h b = tt
set-Below n (x ∷ xs) zero v h (k, b) = (h, b)
set-Below n (x ∷ xs) (suc i) v h (k, b) = (k, set-Below n xs i v h b)

place_symbols-Below :
    (n : ℕ) (lengths : List ℕ) (symbol : ℕ) (offsets symbols : List ℕ)
    → symbol + length lengths ≤ n
    → Below n symbols
    → Below n (place_symbols lengths symbol offsets symbols)
unfolding place_symbols
place_symbols-Below n [] symbol offsets symbols h b = b
place_symbols-Below n (l ∷ lengths) symbol offsets symbols h b = elim (Bool-cases (l == 0)) [
  | inl unused ↦
      rw (place_symbols, unused)
        (place_symbols-Below n lengths (symbol + 1) offsets symbols (omega arith) b)
  | inr used ↦
      rw (place_symbols, used)
        (place_symbols-Below n lengths (symbol + 1) _ _ (omega arith)
          (set-Below n symbols _ (symbol % 2 ^ 16) (omega arith) b))
]

replicate-Below : (n m : ℕ) → 0 < n → Below n (replicate m 0)
unfolding Below
replicate-Below n zero h = tt
replicate-Below n (suc m) h = (h, replicate-Below n m h)

symbols-Below : (lengths : List ℕ) → Below (length lengths) (build_huffman lengths).symbols
unfolding build_huffman Below place_symbols
symbols-Below [] = tt
symbols-Below (l ∷ lengths) =
    place_symbols-Below _ (l ∷ lengths) 0 _ _ (omega arith)
      (replicate-Below (suc (length lengths)) (suc (length lengths)) (omega arith))

symbols_length : (lengths : List ℕ) → length (build_huffman lengths).symbols ≡ length lengths
unfolding build_huffman
symbols_length lengths =
    length-place_symbols lengths 0 _ (replicate (length lengths) 0)
    ∙ length-replicate_zero (length lengths)

-- A place inside of a list holds an element, and so what holds of all of them holds of it.
inside_of :
    (n : ℕ) (xs : List ℕ) (i : ℕ)
    → i < length xs
    → Below n xs
    → (get_elem? xs i ≡ some (element xs i)) × (element xs i < n)
unfolding Below
inside_of n [] i h b = absurd (omega arith)
inside_of n (x ∷ xs) zero h (k, b) = (refl, k)
inside_of n (x ∷ xs) (suc i) h (k, b) = inside_of n xs i (omega arith) b

sum-drop : (xs : List ℕ) (i : ℕ) → sum (drop i xs) ≡ element xs i + sum (drop (suc i) xs)
sum-drop [] zero = refl
sum-drop [] (suc i) = refl
sum-drop (x ∷ xs) zero = refl
sum-drop (x ∷ xs) (suc i) = sum-drop xs i

-- A place of the table's symbols that holds the symbol, which is below `n`.
abbrev pub IsSymbol : ℕ → Huffman → ℕ → Type 0
IsSymbol n table symbol = (i : ℕ) × (get_elem? table.symbols i ≡ some symbol) × (symbol < n)

-- Where `decode` gives a value, it is one that `P` holds of, and it never reads past the end of an array.
unfoldable pub Yields : (ℕ → Type 0) → Inflater × Read ℕ → Type 0
Yields P (t, got x) = P x
Yields P (t, need_input) = Unit {0}
Yields P (t, corrupt c) = c ≢ undefined_symbol

bits-Yields : (count : ℕ) (s : Inflater) → Yields (λ bit. Unit {0}) (bits count s)
unfolding bits Yields
bits-Yields count s = elim (Bool-cases (count == 0)) [
  | inl nothing ↦ rw (bits, nothing) tt
  | inr some_bits ↦ elim (Bool-cases (ltb (length s.input * 8) (s.bit_at + count))) [
    | inl short ↦ rw (bits, some_bits, short) tt
    | inr there ↦ rw (bits, some_bits, there) tt
  ]
]

resume-Yields :
    (P : ℕ → Type 0) (more : ℕ → Action ℕ) (r : Inflater × Read ℕ)
    → Yields (λ bit. Unit {0}) r
    → ((a : ℕ) (s : Inflater) → Yields P (more a s))
    → Yields P (resume more r)
unfolding resume Yields
resume-Yields P more (s, got a) k h = h a s
resume-Yields P more (s, need_input) k h = tt
resume-Yields P more (s, corrupt c) k h = k

symbol_at-Yields :
    (n : ℕ) (table : Huffman) (i : ℕ) (s : Inflater)
    → i < length table.symbols
    → Below n table.symbols
    → Yields (IsSymbol n table) (symbol_at table.symbols i s)
unfolding symbol_at Yields
symbol_at-Yields n table i s h b =
    let (there, below) = inside_of n table.symbols i h b in rw (symbol_at, there) (i, there, below)

decode_loop-Yields :
    (n rounds at : ℕ) (table : Huffman) (code first index : ℕ)
    → Below n table.symbols
    → index + sum (drop at table.counts) ≤ length table.symbols
    → first ≤ code
    → (s : Inflater) → Yields (IsSymbol n table) (decode_loop rounds at table code first index s)
unfolding decode_loop Yields
decode_loop-Yields n zero at table code first index b h f s = λ e. cc
decode_loop-Yields n (suc rounds) at table code first index b h f s =
    resume-Yields (IsSymbol n table) _ (bits 1 s) (bits-Yields 1 s)
      (λ bit t. tested (decode_loop-Yields n rounds (at + 1) table) bit t)
  where
    tested :
        ((code first index : ℕ)
          → Below n table.symbols
          → index + sum (drop (at + 1) table.counts) ≤ length table.symbols
          → first ≤ code
          → (s : Inflater)
          → Yields (IsSymbol n table) (decode_loop rounds (at + 1) table code first index s))
        → (bit : ℕ) (t : Inflater)
        → Yields (IsSymbol n table) (
            (if ltb (bit_or code bit) (first + element table.counts at)
                then symbol_at table.symbols (index + (bit_or code bit - first))
                else decode_loop rounds
                    (at + 1)
                    table
                    (bit_or code bit * 2)
                    ((first + element table.counts at) * 2)
                    (index + element table.counts at))
              t)
    tested more bit t =
        let count = element table.counts at in
        let e = sum-drop table.counts at in
        let next : sum (drop (at + 1) table.counts) ≡ sum (drop (suc at) table.counts) =
          ap (λ (x : ℕ). sum (drop x table.counts)) {x = at + 1} {y = suc at} (omega arith) in
        let g = bit_or_above code bit in
        elim (Bool-cases (ltb (bit_or code bit) (first + count))) [
          | inl found ↦
              let i = index + (bit_or code bit - first) in
              rw found (symbol_at-Yields n table i t (ground arith) b)
          | inr longer ↦ rw longer (more _ _ (index + count) b (omega arith) (ground arith) t)
        ]

-- Whatever its lengths are, with a table that `build_huffman` makes, and from every state, `decode` never
-- reads past the end of the table's symbols: each value that it gives stands at a place of them, and it is
-- a symbol of the alphabet, below the number of the lengths.
pub decode-IsSymbol :
    (lengths : List ℕ) (s : Inflater)
    → let table = build_huffman lengths in Yields (IsSymbol (length lengths) table) (decode table s)
unfolding decode
decode-IsSymbol lengths s =
    let h = counts_bound lengths in
    let k = symbols_length lengths in
    decode_loop-Yields (length lengths) max_code_bits 1 (build_huffman lengths) 0 0 0
      (symbols-Below lengths) (omega arith) (omega arith) s
