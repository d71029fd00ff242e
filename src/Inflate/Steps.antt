-- ===== src/Inflate/Steps.antt =====
-- apps/api/src/inflate.ts: one step of the decompressor, from each of its states.
use open_relic.Prelude.{
  ℕ, zero, suc, ◌+◌, ◌-◌, ◌*◌, ◌/◌, ◌%◌, ◌^◌, min, bit_and, bit_or, bit_xor, List, [], ◌∷◌, ◌++◌,
  not, take, drop, length, ltb, leb, ◌==◌, if◌then◌else◌,
}
use open_relic.Inflate.Huffman.{
  Huffman, element, fixed_literals, fixed_distances, length_base, length_extra, distance_base,
  distance_extra,
}
use open_relic.Inflate.Adler.{adler32}
use open_relic.Inflate.Reader.{
  Inflater, got, corrupt, State, zlib_header, block_header, stored, compressed, checksum, ended,
  Action, ◌>>=◌, gives, throw, modify, bits, align, write, write_byte, not_deflate,
  preset_dictionary, header_check, reserved_block, stored_length, length_symbol, distance_symbol,
  match_before_output, output_overruns, checksum_mismatch,
}
use open_relic.Inflate.Decoding.{decode, read_dynamic_tables}

pub data Step : Type 0 where
  continue wait done : Step

-- `this.#state = state; return "continue";`.
unfoldable pub enter : State → Action Step
enter state s = (record s { state = state }, got continue)

unfoldable pub read_zlib_header : Action Step
read_zlib_header = do
  cmf ← bits 8
  flg ← bits 8
  if not (bit_and cmf 0x0f == 8)
      then throw not_deflate
      else if not (bit_and flg 0x20 == 0)
      then throw preset_dictionary
      else if not (bit_or (cmf * 2 ^ 8) flg % 31 == 0)
      then throw header_check
      else enter block_header

unfoldable pub read_stored_header : Action Step
read_stored_header = do
  u ← align
  count ← bits 16
  complement ← bits 16
  if not (count == bit_xor complement 0xffff)
      then throw stored_length
      else (λ s. (record s { stored_remaining = count; state = stored }, got continue))

-- The state is `compressed` from here on, with these tables.
unfoldable pub enter_compressed : Huffman × Huffman → Action Step
enter_compressed (literals, distances) s =
    (record s { literals = literals; distances = distances; state = compressed }, got continue)

unfoldable pub read_block : ℕ → Action Step
read_block zero = read_stored_header
read_block (suc zero) = enter_compressed (fixed_literals, fixed_distances)
read_block (suc (suc zero)) = read_dynamic_tables >>= enter_compressed
read_block (suc (suc (suc kind))) = throw reserved_block

unfoldable pub read_block_header : Action Step
read_block_header = do
  last ← bits 1
  u ← modify (λ s. record s { last_block = last == 1 })
  kind ← bits 2
  read_block kind

-- `this.#state = this.#stateAfterBlock()`.
unfoldable pub leave_block : Action Step
leave_block s =
    if not s.last_block
    then enter block_header s
    else if s.checksummed
    then enter checksum s
    else (align >>= (λ u. enter ended)) s

unfoldable pub stored_end : Action Step
stored_end s = if ltb 0 s.stored_remaining then (s, got wait) else leave_block s

unfoldable pub copy_stored : Action Step
copy_stored s =
    let from = s.bit_at / 8 in
    let count = min (length s.input - from) s.stored_remaining in
    let taken : Inflater → Inflater = (λ t. record t {
      bit_at = t.bit_at + count * 8;
      stored_remaining = t.stored_remaining - count;
    }) in
    let copy =
      write (take count (drop from s.input)) >>= (λ u. modify taken) >>= (λ u. stored_end) in
    if ltb 0 count then copy s else stored_end s

-- A match may overlap itself, so that it is copied byte by byte.
unfoldable pub copy_match : ℕ → ℕ → List ℕ → List ℕ
copy_match zero from written = written
copy_match (suc count) from written =
    copy_match count (from + 1) (written ++ (element written from ∷ []))

unfoldable pub write_match : ℕ → ℕ → Action Step
write_match count distance s =
    if ltb (length s.written) distance
    then (s, corrupt match_before_output)
    else if ltb s.size (length s.written + count)
    then (s, corrupt output_overruns)
    else (
      record s { written = copy_match count (length s.written - distance) s.written },
      got continue,
    )

unfoldable pub read_distance : ℕ → Action Step
read_distance count = do
  table ← (λ s. (s, got s.distances))
  code ← decode table
  if leb (length distance_base) code then throw distance_symbol else (do
    extra ← bits (element distance_extra code)
    write_match count (element distance_base code + extra))

unfoldable pub read_match : ℕ → Action Step
read_match code = if leb (length length_base) code then throw length_symbol else (do
  extra ← bits (element length_extra code)
  read_distance (element length_base code + extra))

unfoldable pub read_symbol : ℕ → Action Step
read_symbol symbol =
    if ltb symbol 256
    then write_byte symbol >>= (λ u. gives continue)
    else if symbol == 256
    then leave_block
    else read_match (symbol - 257)

unfoldable pub decode_symbol : Action Step
decode_symbol = do table ← (λ s. (s, got s.literals)); symbol ← decode table; read_symbol symbol

unfoldable pub compare_checksum : ℕ → Action Step
compare_checksum sum s =
    if not (sum == adler32 s.written) then (s, corrupt checksum_mismatch) else (s, got done)

unfoldable pub read_checksum : Action Step
read_checksum = do
  u ← align
  a ← bits 8
  b ← bits 8
  c ← bits 8
  d ← bits 8
  compare_checksum (bit_or (bit_or (bit_or (a * 2 ^ 24) (b * 2 ^ 16)) (c * 2 ^ 8)) d)

unfoldable pub step_in : State → Action Step
step_in zlib_header = read_zlib_header
step_in block_header = read_block_header
step_in stored = copy_stored
step_in compressed = decode_symbol
step_in checksum = read_checksum
step_in ended = gives done

unfoldable pub step : Action Step
step s = step_in s.state s
