-- ===== src/Hex/RoundTrip.antt =====
-- `fromHex` and `toHex` undo one another.
use open_relic.Prelude.{
  ℕ, ◌+◌, ◌*◌, ◌/◌, ◌%◌, ◌<◌, ◌≡◌, refl, sym, ap, ◌∙◌, List, [], ◌∷◌, ◌++◌, length, replicate, All,
  arith, append-nil, append_assoc, length-append, set-append,
}
use open_relic.Prelude.Bits.{bit_or_high}
use open_relic.Prelude.Numbers.{hex_digit, pad_start-to_string_hex_two}
use open_relic.Hex.{
  to_hex_loop, to_hex, hex_pair, hex_nibble, decode_hex_loop, decode_hex_into, from_hex,
}

abbrev pub IsByte : ℕ → Type 0
IsByte b = b < 256

-- The pairs of all bytes, one after the other.
abbrev pub pairs : List ℕ → List ℕ
pairs [] = []
pairs (b ∷ bs) = hex_digit (b / 16) ∷ hex_digit (b % 16) ∷ pairs bs

to_hex_loop-pairs :
    (hex bytes : List ℕ) → All IsByte bytes → to_hex_loop hex bytes ≡ hex ++ pairs bytes
unfolding to_hex_loop
to_hex_loop-pairs hex [] h = sym (append-nil hex)
to_hex_loop-pairs hex (b ∷ bs) (h, hs) =
    to_hex_loop-pairs (hex ++ hex_pair b) bs hs
    ∙ append_assoc hex (hex_pair b) (pairs bs)
    ∙ ap (λ t. hex ++ (t ++ pairs bs)) (pad_start-to_string_hex_two b h)

pub to_hex-pairs : (bytes : List ℕ) → All IsByte bytes → to_hex bytes ≡ pairs bytes
unfolding to_hex
to_hex-pairs bytes h = to_hex_loop-pairs [] bytes h

length-pairs : (bytes : List ℕ) → length (pairs bytes) ≡ 2 * length bytes
length-pairs [] = omega arith
length-pairs (b ∷ bs) = omega (arith, length-pairs bs)

hex_nibble-hex_digit : (d : ℕ) → d < 16 → hex_nibble (hex_digit d % 128) ≡ d
unfolding hex_nibble hex_digit
hex_nibble-hex_digit d h = ground arith

decode_hex_loop-pairs :
    (bytes done : List ℕ) (at : ℕ)
    → All IsByte bytes
    → at ≡ 2 * length done
    → decode_hex_loop (pairs bytes) at (done ++ replicate (length bytes) 0) 0 ≡ done ++ bytes
unfolding decode_hex_loop
decode_hex_loop-pairs [] done at h e = refl
decode_hex_loop-pairs (b ∷ bs) done at (h, hs) e =
    let byte : b / 16 * 16 + b % 16 ≡ b = omega arith in
    rw
      (
        hex_nibble-hex_digit (b / 16) (omega arith),
        hex_nibble-hex_digit (b % 16) (omega arith),
        bit_or_high 4 (b / 16) (b % 16) (omega arith),
        byte,
        set-append done 0 (replicate (length bs) 0) b {n = 0 + at / 2} (omega arith),
        ← append_assoc done (b ∷ []) (replicate (length bs) 0),
      )
      (decode_hex_loop-pairs bs (done ++ b ∷ []) (at + 2) hs
          (omega (arith, length-append done (b ∷ [])))
        ∙ append_assoc done (b ∷ []) bs)

-- `fromHex` reads back every sequence of bytes from what `toHex` writes.
pub from_hex-to_hex : (bytes : List ℕ) → All IsByte bytes → from_hex (to_hex bytes) ≡ bytes
unfolding from_hex decode_hex_into
from_hex-to_hex bytes h =
    let e : length (pairs bytes) / 2 ≡ length bytes = omega (arith, length-pairs bytes) in
    rw (to_hex-pairs bytes h, e) (decode_hex_loop-pairs bytes [] 0 h (omega arith))
