-- ===== src/Delta.antt =====
-- apps/api/src/delta.ts: Git's delta encoding. A Uint8Array is a list of bytes, and a cursor into
-- the delta is the list of the bytes from the cursor on.
mod Examples
pub mod Format
pub mod Sizes
pub mod Fields
pub mod Opcode
pub mod Steps
pub mod Bounds
pub mod RoundTrip
use open_relic.Prelude.{
  ℕ, zero, suc, ◌+◌, ◌*◌, ◌%◌, ◌^◌, bit_and, bit_or, List, [], ◌∷◌, ◌++◌, Bool, ◌&&◌, not, length,
  take, drop, replicate, ltb, ◌==◌, if◌then◌else◌, Result, ok, err, Stop, thrown, out_of_fuel,
  ◌>>=◌, ◌>>◌, throw_if, ◌≡◌, refl,
}
use open_relic.GitObject.{max_object_bytes}

pub data DeltaErrorCode : Type 0 where
  corrupt too_large : DeltaErrorCode

abbrev pub Fault : Type 0
Fault = Stop DeltaErrorCode

pub record Varint : Type 0 where
  pub value : ℕ
  pub next : List ℕ

-- `Number.isSafeInteger` of the sum. From a shift of 1024 on `2 ** shift` is Infinity, and the sum
-- is Infinity or NaN; below it a sum of 2 ^ 53 or more is rounded to a double that is no less.
unfoldable pub is_safe_integer : ℕ → ℕ → Bool
is_safe_integer shift value = ltb shift 1024 && ltb value (2 ^ 53)

-- The loop of `readVarint`, with its `value` and `shift`.
pub read_varint_loop : List ℕ → ℕ → ℕ → Result Fault Varint
read_varint_loop [] value shift = err (thrown corrupt)
read_varint_loop (byte ∷ rest) value shift =
    let value' = value + bit_and byte 0x7f * 2 ^ shift in
    let more = read_varint_loop rest value' (shift + 7) in
    if not (is_safe_integer shift value')
    then err (thrown corrupt)
    else if bit_and byte 0x80 == 0
    then ok (record { value = value'; next = rest })
    else more

unfoldable pub read_varint : List ℕ → Result Fault Varint
read_varint delta = read_varint_loop delta 0 0

unfoldable pub read_byte : List ℕ → Result Fault (ℕ × List ℕ)
read_byte [] = err (thrown corrupt)
read_byte (byte ∷ rest) = ok (byte, rest)

-- The loop over the offset bytes (`flag` 1) and that over the size bytes (`flag` 0x10) of a copy:
-- `rounds` are left, `byte` is the round's number and `acc` the bits that are set so far, as an
-- unsigned 32-bit pattern.
pub read_fields : ℕ → ℕ → ℕ → ℕ → ℕ → List ℕ → Result Fault (ℕ × List ℕ)
read_fields zero byte flag opcode acc rest = ok (acc, rest)
read_fields (suc rounds) byte flag opcode acc rest =
    let skipped = read_fields rounds (byte + 1) flag opcode acc rest in
    if bit_and opcode (flag * 2 ^ byte) == 0 then skipped else do
      (read, rest') ← read_byte rest
      let acc' = bit_or acc (read * 2 ^ (byte * 8) % 2 ^ 32)
      read_fields rounds (byte + 1) flag opcode acc' rest'

-- `xs.subarray(from, from + count)`.
abbrev pub subarray : List ℕ → ℕ → ℕ → List ℕ
subarray xs from count = take count (drop from xs)

-- `result.set(bytes, at)`, within bounds.
abbrev pub splice : List ℕ → ℕ → List ℕ → List ℕ
splice result at bytes = take at result ++ (bytes ++ drop (at + length bytes) result)

pub write : List ℕ → ℕ → List ℕ → Result Fault (List ℕ)
write result at bytes = do
  throw_if (ltb (length result) (at + length bytes)) (thrown corrupt)
  ok (splice result at bytes)

-- What a round of `applyDelta`'s loop changes: the bytes that are left, the buffer, and the count
-- of bytes written to it.
pub record Progress : Type 0 where
  pub rest : List ℕ
  pub result : List ℕ
  pub written : ℕ

-- A copy of `size` bytes at `offset` of the base, where `rest` stands behind the instruction.
pub copy_span : List ℕ → Progress → ℕ → ℕ → List ℕ → Result Fault Progress
copy_span base p offset size rest = do
  throw_if (ltb (length base) (offset + size)) (thrown corrupt)
  result ← write p.result p.written (subarray base offset size)
  ok (record { rest = rest; result = result; written = p.written + size })

pub copy_step : List ℕ → ℕ → Progress → Result Fault Progress
copy_step base opcode p = do
  (offset, after_offset) ← read_fields 4 0 1 opcode 0 p.rest
  (size, rest) ← read_fields 3 0 0x10 opcode 0 after_offset
  copy_span base p offset (if size == 0 then 0x10000 else size) rest

pub insert_step : ℕ → Progress → Result Fault Progress
insert_step opcode p = do
  throw_if (ltb (length p.rest) opcode) (thrown corrupt)
  result ← write p.result p.written (take opcode p.rest)
  ok (record { rest = drop opcode p.rest; result = result; written = p.written + opcode })

-- One round: `p.rest` stands behind the opcode.
pub delta_step : List ℕ → ℕ → Progress → Result Fault Progress
delta_step base opcode p =
    if not (bit_and opcode 0x80 == 0)
    then copy_step base opcode p
    else if opcode == 0
    then err (thrown corrupt)
    else insert_step opcode p

-- The loop `while (at < delta.length)`.
pub delta_loop : ℕ → List ℕ → List ℕ → List ℕ → ℕ → Result Fault Progress
delta_loop fuel base [] result written =
    ok (record { rest = []; result = result; written = written })
delta_loop zero base (opcode ∷ rest) result written = err out_of_fuel
delta_loop (suc fuel) base (opcode ∷ rest) result written = do
  p ← delta_step base opcode (record { rest = rest; result = result; written = written })
  delta_loop fuel base p.rest p.result p.written

unfoldable pub apply_delta : List ℕ → List ℕ → Result Fault (List ℕ)
apply_delta base delta = do
  base_size ← read_varint delta
  result_size ← read_varint base_size.next
  throw_if (not (base_size.value == length base)) (thrown corrupt)
  throw_if (ltb max_object_bytes result_size.value) (thrown too_large)
  p ← delta_loop (length result_size.next) base result_size.next (replicate result_size.value 0) 0
  throw_if (not (p.written == length p.result)) (thrown corrupt)
  ok p.result
