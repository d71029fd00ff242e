-- ===== src/Inflate/Examples.antt =====
-- A stream that zlib wrote, and the checksum and the tables of its format.
use open_relic.Prelude.{
  ℕ, ◌+◌, ◌*◌, ◌^◌, ◌≢◌, ◌≡◌, refl, arith, List, [], ◌∷◌, ◌++◌, true, false, take, drop, err,
  out_of_fuel,
}
use open_relic.Inflate.Huffman.{
  build_huffman, length_counts, count_lengths, sum_offsets, place_symbols,
}
use open_relic.Inflate.Adler.{RunsFit, adler32, summed, adler32-summed}
use open_relic.Inflate.Reader.{Inflater, zlib, new_inflater, got, bits, bits_loop, resume}
use open_relic.Inflate.Decoding.{decode, decode_loop, symbol_at}
use open_relic.Inflate.Alphabet.{Yields, IsSymbol, decode-IsSymbol}
use open_relic.Inflate.Push.{push}
use open_relic.Inflate.Termination.{push-ends}

-- "abc" five times, compressed with the fixed tables.
abbrev stream : List ℕ
stream = 120 ∷ 1 ∷ 75 ∷ 76 ∷ 74 ∷ 78 ∷ 68 ∷ 66 ∷ 0 ∷ 45 ∷ 245 ∷ 5 ∷ 191 ∷ []

-- The stream comes in two pieces, with one byte of what follows it.
abbrev first_half : Inflater
first_half = (push (take 5 stream) false (new_inflater 15 zlib)).0

abbrev whole : Inflater
whole = (push (drop 5 stream ++ (7 ∷ [])) false first_half).0

push-ends_example : (push (drop 5 stream) true first_half).1 ≢ err out_of_fuel
push-ends_example = push-ends (drop 5 stream) true first_half

adler32-summed_example :
    (adler32 (104 ∷ 105 ∷ [])
      ≡ (summed (104 ∷ 105 ∷ []) 1 0).1 * 2 ^ 16 + (summed (104 ∷ 105 ∷ []) 1 0).0)
    × RunsFit 2 (104 ∷ 105 ∷ []) 1 0
adler32-summed_example = adler32-summed (104 ∷ 105 ∷ []) (omega arith, (omega arith, tt))

abbrev three_codes : List ℕ
three_codes = 1 ∷ 2 ∷ 2 ∷ []

abbrev reader : Inflater
reader = record (new_inflater 1 zlib) { input = 3 ∷ [] }

-- The two bits of the last code are there, so that this is about a value.
decoded_two : (decode (build_huffman three_codes) reader).1 ≡ got 2
unfolding decode decode_loop symbol_at bits bits_loop resume build_huffman length_counts
    count_lengths sum_offsets place_symbols new_inflater
decoded_two = refl

decode-IsSymbol_example :
    Yields (IsSymbol 3 (build_huffman three_codes)) (decode (build_huffman three_codes) reader)
decode-IsSymbol_example = decode-IsSymbol three_codes reader
