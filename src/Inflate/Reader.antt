-- ===== src/Inflate/Reader.antt =====
-- apps/api/src/inflate.ts: the state of an `Inflater`, and its reads and writes as state passing. The
-- output array is kept as the bytes written so far, below its `size`; what is above them is zero.
use open_relic.Prelude.{
  ℕ, zero, suc, ◌+◌, ◌-◌, ◌*◌, ◌/◌, ◌%◌, ◌^◌, min, bit_and, bit_or, List, [], ◌∷◌, ◌++◌, Bool, true,
  false, length, ltb, ◌==◌, if◌then◌else◌, replicate,
}
use open_relic.Inflate.Huffman.{Huffman, element, fixed_literals, fixed_distances}

-- The state after the checksum is `ended` here, and "done" in the source.
pub data State : Type 0 where
  zlib_header block_header stored compressed checksum ended : State

pub data Format : Type 0 where
  zlib raw : Format

-- One constructor for each message of a "corrupt" error that a step throws.
pub data Corruption : Type 0 where
  not_deflate preset_dictionary header_check reserved_block stored_length : Corruption
  nothing_to_repeat repeat_overruns length_symbol distance_symbol : Corruption
  match_before_output output_overruns checksum_mismatch incomplete_code : Corruption
  -- No error of the source: the mark of a read past the end of a typed array, whose value is undefined.
  undefined_symbol : Corruption

pub record Inflater : Type 0 where
  pub size : ℕ
  pub written : List ℕ
  pub input : List ℕ
  pub bit_at : ℕ
  pub at_end : Bool
  pub state : State
  pub checksummed : Bool
  pub last_block : Bool
  pub stored_remaining : ℕ
  pub literals : Huffman
  pub distances : Huffman
  pub leftover : List ℕ

-- The constructor of the class.
unfoldable pub new_inflater : ℕ → Format → Inflater
new_inflater size format =
    let zlib_stream : Bool = elim format [ zlib ↦ true | raw ↦ false ] in
    record {
      size = size;
      written = [];
      input = [];
      bit_at = 0;
      at_end = false;
      state = if zlib_stream then zlib_header else block_header;
      checksummed = zlib_stream;
      last_block = false;
      stored_remaining = 0;
      literals = fixed_literals;
      distances = fixed_distances;
      leftover = [];
    }

unfoldable pub is_done : Inflater → Bool
is_done s = elim s.state [
  | zlib_header ↦ false
  | block_header ↦ false
  | stored ↦ false
  | compressed ↦ false
  | checksum ↦ false
  | ended ↦ true
]

unfoldable pub output : Inflater → List ℕ
output s = s.written ++ replicate (s.size - length s.written) 0

-- What a read gives: a value, `NEED_INPUT` thrown, or a "corrupt" error thrown. The state is that at
-- the throw.
pub data Read {ℓ} (A : Type ℓ) : Type ℓ where
  got : A → Read A
  need_input : Read A
  corrupt : Corruption → Read A

abbrev pub Action {ℓ} : Type ℓ → Type ℓ
Action A = Inflater → Inflater × Read A

infixl 5 ◌>>=◌
unfoldable pub resume {ℓ κ} :
    {A : Type ℓ} {B : Type κ} → (A → Action B) → Inflater × Read A → Inflater × Read B
resume more (s, got a) = more a s
resume more (s, need_input) = (s, need_input)
resume more (s, corrupt c) = (s, corrupt c)

abbrev pub ◌>>=◌ {ℓ κ} : {A : Type ℓ} {B : Type κ} → Action A → (A → Action B) → Action B
(m >>= more) s = resume more (m s)

abbrev pub gives {ℓ} : {A : Type ℓ} → A → Action A
gives a s = (s, got a)

abbrev pub throw {ℓ} : {A : Type ℓ} → Corruption → Action A
throw c s = (s, corrupt c)

abbrev pub modify : (Inflater → Inflater) → Action (Unit {0})
modify f s = (f s, got tt)

-- The loop of `#bits`: `rounds` is fuel, and each round takes at least one bit of the `count`.
unfoldable pub bits_loop : ℕ → List ℕ → ℕ → ℕ → ℕ → ℕ → ℕ × ℕ
bits_loop zero input count filled at value = (value, at)
bits_loop (suc rounds) input count filled at value =
    let used = at % 8 in
    let taken = min (8 - used) (count - filled) in
    let field = bit_and (element input (at / 8) / 2 ^ used) (2 ^ taken - 1) in
    let more =
      bits_loop rounds input count (filled + taken) (at + taken)
        (bit_or value (field * 2 ^ filled)) in
    if ltb filled count then more else (value, at)

unfoldable pub bits : ℕ → Action ℕ
bits count s =
    let (value, at) = bits_loop count s.input count 0 s.bit_at 0 in
    if count == 0
    then (s, got 0)
    else if ltb (length s.input * 8) (s.bit_at + count)
    then (s, need_input)
    else (record s { bit_at = at }, got value)

unfoldable pub align : Action (Unit {0})
align = modify (λ s. record s { bit_at = (s.bit_at + 7) / 8 * 8 })

unfoldable pub write : List ℕ → Action (Unit {0})
write bytes s =
    if ltb s.size (length s.written + length bytes)
    then (s, corrupt output_overruns)
    else (record s { written = s.written ++ bytes }, got tt)

unfoldable pub write_byte : ℕ → Action (Unit {0})
write_byte byte s =
    if ltb (length s.written) s.size
    then (record s { written = s.written ++ (byte ∷ []) }, got tt)
    else (s, corrupt output_overruns)
