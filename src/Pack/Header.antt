-- ===== src/Pack/Header.antt =====
-- `readEntryHeader` and `readBackOffset`: the variable-length numbers in front of a pack entry.
pub mod RoundTrip
pub mod Reads
use open_relic.Prelude.{
  ℕ, zero, suc, ◌+◌, ◌*◌, ◌/◌, ◌%◌, ◌^◌, bit_and, Bool, true, false, not, List, [], ◌∷◌, ltb, ◌==◌,
  if◌then◌else◌, Result, ok, err, thrown, out_of_fuel, ◌>>=◌, ◌>>◌, throw_if,
}
use open_relic.GitObject.{max_object_bytes}
use open_relic.Delta.{is_safe_integer}
use open_relic.Pack.{Fault, corrupt, object_too_large}
use open_relic.Pack.Stream.{PackStream, take_bytes}

-- `(await this.take(1))[0]`: `take` hands out one byte.
abbrev pub first_byte : List ℕ → ℕ
first_byte [] = 0
first_byte (b ∷ bs) = b

unfoldable pub next_byte : PackStream → Result Fault (ℕ × PackStream)
next_byte s = do (bytes, t) ← take_bytes 1 s; ok (first_byte bytes, t)

pub record EntryHeader : Type 0 where
  pub kind : ℕ
  pub size : ℕ

-- The loop of `readEntryHeader`, with the byte that was read last.
unfoldable pub size_loop : ℕ → ℕ → ℕ → ℕ → PackStream → Result Fault (ℕ × PackStream)
size_loop zero byte size shift s = err out_of_fuel
size_loop (suc fuel) byte size shift s =
    let more : Result Fault (ℕ × PackStream) = (do
      (byte', t) ← next_byte s
      let size' = size + bit_and byte' 0x7f * 2 ^ shift
      throw_if (not (is_safe_integer shift size')) (thrown corrupt)
      size_loop fuel byte' size' (shift + 7) t) in
    if bit_and byte 0x80 == 0 then ok (size, s) else more

-- From a shift of 1024 on the size is Infinity or NaN, which is refused; so 148 rounds are enough.
abbrev pub size_rounds : ℕ
size_rounds = 148

unfoldable pub read_entry_header : PackStream → Result Fault (EntryHeader × PackStream)
read_entry_header s = do
  (byte, t) ← next_byte s
  let kind = bit_and (byte / 16) 7
  (size, u) ← size_loop size_rounds byte (bit_and byte 15) 4 t
  throw_if (ltb max_object_bytes size) (thrown object_too_large)
  ok (record { kind = kind; size = size }, u)

-- The loop of `readBackOffset`. An offset of 2 ^ 53 or more is refused, and each round multiplies
-- by 128, so that ten rounds are enough.
unfoldable pub offset_loop : ℕ → ℕ → ℕ → PackStream → Result Fault (ℕ × PackStream)
offset_loop zero byte offset s = err out_of_fuel
offset_loop (suc fuel) byte offset s =
    let more : Result Fault (ℕ × PackStream) = (do
      (byte', t) ← next_byte s
      let offset' = (offset + 1) * 128 + bit_and byte' 0x7f
      throw_if (not (ltb offset' (2 ^ 53))) (thrown corrupt)
      offset_loop fuel byte' offset' t) in
    if bit_and byte 0x80 == 0 then ok (offset, s) else more

unfoldable pub read_back_offset : PackStream → Result Fault (ℕ × PackStream)
read_back_offset s = do (byte, t) ← next_byte s; offset_loop 10 byte (bit_and byte 0x7f) t
