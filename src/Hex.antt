-- ===== src/Hex.antt =====
-- apps/api/src/sha1.ts: the hexadecimal spelling of bytes. The digest itself is node:crypto's.
mod Examples
pub mod RoundTrip
use open_relic.Prelude.{
  ℕ, ◌+◌, ◌-◌, ◌*◌, ◌/◌, ◌%◌, ◌≡◌, refl, bit_or, List, [], ◌∷◌, ◌++◌, length, set, replicate, leb,
  ◌&&◌, if◌then◌else◌,
}
use open_relic.Prelude.Codes.{codes}
use open_relic.Prelude.Numbers.{to_string_hex, pad_start, hex_digit}

-- The entry of HEX_PAIRS at a byte.
abbrev pub hex_pair : ℕ → List ℕ
hex_pair byte = pad_start 2 48 (to_string_hex byte)

-- The loop of `toHex`.
to_hex_loop : List ℕ → List ℕ → List ℕ
to_hex_loop hex [] = hex
to_hex_loop hex (byte ∷ bytes) = to_hex_loop (hex ++ hex_pair byte) bytes

unfoldable pub to_hex : List ℕ → List ℕ
unfolding to_hex_loop to_string_hex
to_hex bytes = to_hex_loop [] bytes

-- The entry of HEX_NIBBLES at an ASCII code. The codes that spell no digit keep 0.
pub hex_nibble : ℕ → ℕ
hex_nibble c =
    if leb 48 c && leb c 57
    then c - 48
    else if leb 97 c && leb c 102
    then c - 87
    else if leb 65 c && leb c 70
    then c - 55
    else 0

-- The loop of `decodeHexInto` from `at` on; `hex` is what is left of the text. The character behind
-- an odd text's last is NaN, whose nibble is 0. Masking by 0x7f is the remainder by 128.
decode_hex_loop : List ℕ → ℕ → List ℕ → ℕ → List ℕ
decode_hex_loop [] at target offset = target
decode_hex_loop (a ∷ []) at target offset =
    set target (offset + at / 2) (bit_or (hex_nibble (a % 128) * 16) (hex_nibble 0))
decode_hex_loop (a ∷ b ∷ hex) at target offset =
    decode_hex_loop hex (at + 2)
      (set target (offset + at / 2) (bit_or (hex_nibble (a % 128) * 16) (hex_nibble (b % 128))))
      offset

unfoldable pub decode_hex_into : List ℕ → List ℕ → ℕ → List ℕ
unfolding decode_hex_loop hex_nibble
decode_hex_into hex target offset = decode_hex_loop hex 0 target offset

unfoldable pub from_hex : List ℕ → List ℕ
unfolding decode_hex_into
from_hex hex = decode_hex_into hex (replicate (length hex / 2) 0) 0
