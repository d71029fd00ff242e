-- ===== src/Inflate/Keeping.antt =====
-- apps/api/src/inflate.ts: no step changes the input, or what is handed back.
use open_relic.Prelude.{
  get_elem?, ℕ, zero, suc, ◌+◌, ◌-◌, ◌*◌, ◌/◌, ◌%◌, ◌^◌, ◌≡◌, refl, ◌∙◌, min, bit_and, bit_or,
  bit_xor, List, [], ◌∷◌, ◌++◌, Bool, true, false, take, drop, length, ltb, leb, ◌==◌, not,
  if◌then◌else◌, Bool-cases, Option-cases, inl, inr,
}
use open_relic.Inflate.Adler.{adler32}
use open_relic.Inflate.Huffman.{Huffman, element, length_base, distance_base}
use open_relic.Inflate.Reader.{
  Inflater, State, zlib_header, block_header, stored, compressed, checksum, ended, Read, got,
  need_input, corrupt, Action, ◌>>=◌, resume, gives, throw, bits, align, write, write_byte,
  Corruption,
}
use open_relic.Inflate.Decoding.{
  decode_loop, symbol_at, decode, read_code_lengths, fill, read_repeat, read_lengths,
  read_dynamic_tables,
}
use open_relic.Inflate.Steps.{
  enter, read_zlib_header, read_stored_header, enter_compressed, read_block, read_block_header,
  leave_block, stored_end, copy_stored, write_match, read_distance, read_match, read_symbol,
  decode_symbol, compare_checksum, read_checksum, step_in,
}
use open_relic.Inflate.Push.{rounds}

-- The input and the leftover of two states are the same.
abbrev pub Kept : Inflater → Inflater → Type 0
Kept s t = (t.input ≡ s.input) × (t.leftover ≡ s.leftover)

unfoldable pub Keeps {ℓ} : {A : Type ℓ} → Action A → Type 0
Keeps f = (s : Inflater) → Kept s (f s).0

Kept-trans : (s t u : Inflater) → Kept s t → Kept t u → Kept s u
Kept-trans s t u (e, f) (g, h) = (g ∙ e, h ∙ f)

resume-Kept {ℓ κ} :
    {A : Type ℓ} {B : Type κ} (more : A → Action B) (s : Inflater) (r : Inflater × Read A)
    → Kept s r.0
    → ((a : A) → Keeps (more a))
    → Kept s (resume more r).0
unfolding resume Keeps
resume-Kept more s (t, got a) h k = Kept-trans s t (more a t).0 h (k a t)
resume-Kept more s (t, need_input) h k = h
resume-Kept more s (t, corrupt c) h k = h

>>=-Keeps {ℓ κ} :
    {A : Type ℓ} {B : Type κ} (m : Action A) (more : A → Action B)
    → Keeps m
    → ((a : A) → Keeps (more a))
    → Keeps (m >>= more)
unfolding Keeps
>>=-Keeps m more h k s = resume-Kept more s (m s) (h s) k

if-Keeps {ℓ} :
    {A : Type ℓ} (b : Bool) (f g : Action A) → Keeps f → Keeps g → Keeps (if b then f else g)
if-Keeps true f g h k = h
if-Keeps false f g h k = k

gives-Keeps {ℓ} : {A : Type ℓ} (a : A) → Keeps (gives a)
unfolding Keeps
gives-Keeps a s = (refl, refl)

throw-Keeps {ℓ} : (A : Type ℓ) (c : Corruption) → Keeps (throw {A = A} c)
unfolding Keeps
throw-Keeps A c s = (refl, refl)

-- A step that sets other fields.
field-Keeps {ℓ} :
    {A : Type ℓ} (f : Action A)
    → ((s : Inflater) → (f s).0.input ≡ s.input)
    → ((s : Inflater) → (f s).0.leftover ≡ s.leftover)
    → Keeps f
unfolding Keeps
field-Keeps f h k s = (h s, k s)

bits-Keeps : (count : ℕ) → Keeps (bits count)
unfolding Keeps bits
bits-Keeps count s = elim (Bool-cases (count == 0)) [
  | inl none_of_them ↦ rw (bits, none_of_them) (refl, refl)
  | inr some_of_them ↦ elim (Bool-cases (ltb (length s.input * 8) (s.bit_at + count))) [
    | inl short ↦ rw (bits, some_of_them, short) (refl, refl)
    | inr there ↦ rw (bits, some_of_them, there) (refl, refl)
  ]
]

write-Keeps : (bytes : List ℕ) → Keeps (write bytes)
unfolding Keeps write
write-Keeps bytes s = elim (Bool-cases (ltb s.size (length s.written + length bytes))) [
  | inl over ↦ rw (write, over) (refl, refl)
  | inr fits ↦ rw (write, fits) (refl, refl)
]

write_byte-Keeps : (byte : ℕ) → Keeps (write_byte byte)
unfolding Keeps write_byte
write_byte-Keeps byte s = elim (Bool-cases (ltb (length s.written) s.size)) [
  | inl fits ↦ rw (write_byte, fits) (refl, refl)
  | inr over ↦ rw (write_byte, over) (refl, refl)
]

align-Keeps : Keeps align
unfolding Keeps align
align-Keeps s = (refl, refl)

symbol_at-Keeps : (symbols : List ℕ) (i : ℕ) → Keeps (symbol_at symbols i)
unfolding symbol_at
symbol_at-Keeps symbols i = elim (Option-cases (get_elem? symbols i)) [
  | inl past ↦ rw (symbol_at, past) (throw-Keeps _ _)
  | inr (symbol, there) ↦ rw (symbol_at, there) (gives-Keeps _)
]

decode_loop-Keeps :
    (rounds at : ℕ) (table : Huffman) (code first index : ℕ)
    → Keeps (decode_loop rounds at table code first index)
unfolding decode_loop
decode_loop-Keeps zero at table code first index = throw-Keeps _ _
decode_loop-Keeps (suc rounds) at table code first index = >>=-Keeps _ _ (bits-Keeps 1) (λ bit.
    if-Keeps (ltb (bit_or code bit) (first + element table.counts at)) _ _ (symbol_at-Keeps _ _) (
      decode_loop-Keeps rounds (at + 1) table (bit_or code bit * 2)
        ((first + element table.counts at) * 2) (index + element table.counts at)))

decode-Keeps : (table : Huffman) → Keeps (decode table)
unfolding decode
decode-Keeps table = decode_loop-Keeps _ 1 table 0 0 0

read_code_lengths-Keeps : (order lengths : List ℕ) → Keeps (read_code_lengths order lengths)
unfolding read_code_lengths
read_code_lengths-Keeps [] lengths = gives-Keeps _
read_code_lengths-Keeps (symbol ∷ order) lengths =
    >>=-Keeps _ _ (bits-Keeps 3) (λ l. read_code_lengths-Keeps order _)

fill-Keeps :
    (total value : ℕ) (filled : List ℕ) (repeat : ℕ) → Keeps (fill total value filled repeat)
unfolding fill
fill-Keeps total value filled repeat =
    if-Keeps (ltb total (length filled + repeat)) _ _ (throw-Keeps _ _) (gives-Keeps _)

read_repeat-Keeps :
    (total : ℕ) (filled : List ℕ) (symbol : ℕ) → Keeps (read_repeat total filled symbol)
unfolding read_repeat
read_repeat-Keeps total filled symbol = if-Keeps (ltb symbol 16) _ _ (gives-Keeps _) (
    if-Keeps (symbol == 16) _ _
      (if-Keeps (length filled == 0) _ _ (throw-Keeps _ _)
        (>>=-Keeps _ _ (bits-Keeps 2) (λ extra. fill-Keeps _ _ _ _)))
      (if-Keeps (symbol == 17) _ _ (>>=-Keeps _ _ (bits-Keeps 3) (λ extra. fill-Keeps _ _ _ _))
        (>>=-Keeps _ _ (bits-Keeps 7) (λ extra. fill-Keeps _ _ _ _))))

read_lengths-Keeps :
    (rounds total : ℕ) (table : Huffman) (filled : List ℕ)
    → Keeps (read_lengths rounds total table filled)
unfolding read_lengths
read_lengths-Keeps zero total table filled = gives-Keeps _
read_lengths-Keeps (suc rounds) total table filled =
    if-Keeps (ltb (length filled) total) _ _
      (>>=-Keeps _ _ (>>=-Keeps _ _ (decode-Keeps table) (λ symbol. read_repeat-Keeps _ _ _))
        (λ more. read_lengths-Keeps rounds total table more))
      (gives-Keeps _)

read_dynamic_tables-Keeps : Keeps read_dynamic_tables
unfolding read_dynamic_tables
read_dynamic_tables-Keeps = >>=-Keeps _ _ (bits-Keeps 5) (λ a. >>=-Keeps _ _ (bits-Keeps 5) (λ b.
    >>=-Keeps _ _ (bits-Keeps 4) (λ c.
      >>=-Keeps _ _ (read_code_lengths-Keeps _ _)
        (λ d. >>=-Keeps _ _ (read_lengths-Keeps _ _ _ _) (λ e. gives-Keeps _)))))

read_zlib_header-Keeps : Keeps read_zlib_header
unfolding read_zlib_header enter
read_zlib_header-Keeps = >>=-Keeps _ _ (bits-Keeps 8) (λ cmf. >>=-Keeps _ _ (bits-Keeps 8) (λ flg.
    if-Keeps (not (bit_and cmf 0x0f == 8)) _ _ (throw-Keeps _ _) (
      if-Keeps (not (bit_and flg 0x20 == 0)) _ _ (throw-Keeps _ _) (
        if-Keeps (not (bit_or (cmf * 2 ^ 8) flg % 31 == 0)) _ _ (throw-Keeps _ _)
          (field-Keeps _ (λ s. refl) (λ s. refl))))))

read_stored_header-Keeps : Keeps read_stored_header
unfolding read_stored_header
read_stored_header-Keeps = >>=-Keeps _ _ align-Keeps (λ u. >>=-Keeps _ _ (bits-Keeps 16) (λ count.
    >>=-Keeps _ _ (bits-Keeps 16) (λ complement.
      if-Keeps (not (count == bit_xor complement 0xffff)) _ _ (throw-Keeps _ _)
        (field-Keeps _ (λ s. refl) (λ s. refl)))))

enter_compressed-Keeps : (tables : Huffman × Huffman) → Keeps (enter_compressed tables)
unfolding Keeps enter_compressed
enter_compressed-Keeps (literals, distances) s = (refl, refl)

read_block-Keeps : (kind : ℕ) → Keeps (read_block kind)
unfolding read_block
read_block-Keeps zero = read_stored_header-Keeps
read_block-Keeps (suc zero) = enter_compressed-Keeps _
read_block-Keeps (suc (suc zero)) = >>=-Keeps _ _ read_dynamic_tables-Keeps enter_compressed-Keeps
read_block-Keeps (suc (suc (suc kind))) = throw-Keeps _ _

read_block_header-Keeps : Keeps read_block_header
unfolding read_block_header
read_block_header-Keeps = >>=-Keeps _ _ (bits-Keeps 1) (λ last.
    >>=-Keeps _ _ (field-Keeps _ (λ s. refl) (λ s. refl))
      (λ u. >>=-Keeps _ _ (bits-Keeps 2) read_block-Keeps))

leave_block-Keeps : Keeps leave_block
unfolding Keeps leave_block enter align resume
leave_block-Keeps s = left s.last_block s.checksummed
  where
    left :
        (last zlib_stream : Bool)
        → Kept s
            (if not last
              then enter block_header s
              else if zlib_stream
              then enter checksum s
              else (align >>= (λ u. enter ended)) s).0
    left false zlib_stream = (refl, refl)
    left true true = (refl, refl)
    left true false = (refl, refl)

stored_end-Keeps : Keeps stored_end
unfolding Keeps stored_end
stored_end-Keeps s = elim (Bool-cases (ltb 0 s.stored_remaining)) [
  | inl more ↦ rw (stored_end, more) (refl, refl)
  | inr over ↦ rw (stored_end, over) (keeps leave_block-Keeps s)
]
  where
    keeps : Keeps leave_block → (t : Inflater) → Kept t (leave_block t).0
    keeps h = h

copy_stored-Keeps : Keeps copy_stored
unfolding Keeps copy_stored resume write
copy_stored-Keeps s =
    let from = s.bit_at / 8 in
    let count = min (length s.input - from) s.stored_remaining in
    let copied = take count (drop from s.input) in
    let after : Inflater = record s {
      written = s.written ++ copied;
      bit_at = s.bit_at + count * 8;
      stored_remaining = s.stored_remaining - count;
    } in
    elim (Bool-cases (ltb 0 count)) [
      | inr nothing ↦ rw (copy_stored, nothing) (stored_end-Keeps s)
      | inl given ↦ elim (Bool-cases (ltb s.size (length s.written + length copied))) [
        | inl over ↦ rw (copy_stored, given, over) (refl, refl)
        | inr fits ↦ rw (copy_stored, given, fits) (stored_end-Keeps after)
      ]
    ]

write_match-Keeps : (count distance : ℕ) → Keeps (write_match count distance)
unfolding Keeps write_match
write_match-Keeps count distance s = elim (Bool-cases (ltb (length s.written) distance)) [
  | inl before ↦ rw (write_match, before) (refl, refl)
  | inr here ↦ elim (Bool-cases (ltb s.size (length s.written + count))) [
    | inl over ↦ rw (write_match, here, over) (refl, refl)
    | inr fits ↦ rw (write_match, here, fits) (refl, refl)
  ]
]

read_distance-Keeps : (count : ℕ) → Keeps (read_distance count)
unfolding read_distance
read_distance-Keeps count = >>=-Keeps _ _ (field-Keeps _ (λ s. refl) (λ s. refl)) (λ table.
    >>=-Keeps _ _ (decode-Keeps table) (λ code.
      if-Keeps (leb (length distance_base) code) _ _ (throw-Keeps _ _)
        (>>=-Keeps _ _ (bits-Keeps _) (λ extra. write_match-Keeps _ _))))

read_match-Keeps : (code : ℕ) → Keeps (read_match code)
unfolding read_match
read_match-Keeps code =
    if-Keeps (leb (length length_base) code) _ _ (throw-Keeps _ _)
      (>>=-Keeps _ _ (bits-Keeps _) (λ extra. read_distance-Keeps _))

read_symbol-Keeps : (symbol : ℕ) → Keeps (read_symbol symbol)
unfolding read_symbol
read_symbol-Keeps symbol =
    if-Keeps (ltb symbol 256) _ _ (>>=-Keeps _ _ (write_byte-Keeps symbol) (λ u. gives-Keeps _))
      (if-Keeps (symbol == 256) _ _ leave_block-Keeps (read_match-Keeps _))

decode_symbol-Keeps : Keeps decode_symbol
unfolding decode_symbol
decode_symbol-Keeps =
    >>=-Keeps _ _ (field-Keeps _ (λ s. refl) (λ s. refl))
      (λ table. >>=-Keeps _ _ (decode-Keeps table) read_symbol-Keeps)

compare-Keeps : (sum : ℕ) → Keeps (compare_checksum sum)
unfolding compare_checksum Keeps
compare-Keeps sum s = elim (Bool-cases (not (sum == adler32 s.written))) [
  | inl other ↦ rw (compare_checksum, other) (refl, refl)
  | inr same ↦ rw (compare_checksum, same) (refl, refl)
]

read_checksum-Keeps : Keeps read_checksum
unfolding read_checksum
read_checksum-Keeps = >>=-Keeps _ _ align-Keeps (λ u. >>=-Keeps _ _ (bits-Keeps 8) (λ a.
    >>=-Keeps _ _ (bits-Keeps 8) (λ b.
      >>=-Keeps _ _ (bits-Keeps 8) (λ c. >>=-Keeps _ _ (bits-Keeps 8) (λ d. compare-Keeps _)))))

pub step_in-Keeps : (state : State) → Keeps (step_in state)
unfolding step_in
step_in-Keeps zlib_header = read_zlib_header-Keeps
step_in-Keeps block_header = read_block_header-Keeps
step_in-Keeps stored = copy_stored-Keeps
step_in-Keeps compressed = decode_symbol-Keeps
step_in-Keeps checksum = read_checksum-Keeps
step_in-Keeps ended = gives-Keeps _
