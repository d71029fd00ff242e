-- ===== src/Delta/Sizes.antt =====
-- `read_varint` reads back the sizes that Git writes.
use open_relic.Prelude.{
  ℕ, zero, suc, ◌+◌, ◌*◌, ◌/◌, ◌%◌, ◌^◌, ◌<◌, ◌≡◌, ap, List, ◌∷◌, ◌++◌, ok, arith,
}
use open_relic.Prelude.Bits.{low_seven_bits, top_bit}
use open_relic.Delta.{read_varint_loop, read_varint, is_safe_integer}
use open_relic.Delta.Format.{encode_size}
use native.Mathlib.Nat.{div-add-mod}
use native.Mathlib.Numerals.{towards_suc}

final_group :
    (g value shift : ℕ) (rest : List ℕ)
    → g < 128
    → shift < 1024
    → value + g * 2 ^ shift < 2 ^ 53
    → read_varint_loop (g ∷ rest) value shift
      ≡ ok (record { value = value + g * 2 ^ shift; next = rest })
unfolding read_varint_loop is_safe_integer
final_group g value shift rest hg hs fits = ground (arith, low_seven_bits g, top_bit g)

continued_group :
    (g value shift : ℕ) (rest : List ℕ)
    → g < 128
    → shift < 1024
    → value + g * 2 ^ shift < 2 ^ 53
    → read_varint_loop ((g + 128) ∷ rest) value shift
      ≡ read_varint_loop rest (value + g * 2 ^ shift) (shift + 7)
unfolding read_varint_loop is_safe_integer
continued_group g value shift rest hg hs fits =
    ground (arith, low_seven_bits (g + 128), top_bit (g + 128))

next_weight : (s : ℕ) → 2 ^ (s + 7) ≡ 128 * 2 ^ s
next_weight s = simp towards_suc (omega arith)

pub regroup : (v s : ℕ) → v % 128 * 2 ^ s + v / 128 * 2 ^ (s + 7) ≡ v * 2 ^ s
regroup v s = omega (
  arith,
  ap (λ (t : ℕ). t * 2 ^ s) (div-add-mod v 128),
  ap (λ (t : ℕ). v / 128 * t) (next_weight s),
)

-- `v` is what is left of the size, and it counts from bit `shift` on.
read_varint_loop-encode_size :
    (k v value shift : ℕ) (rest : List ℕ)
    → v < 128 ^ suc k
    → shift + 7 * k < 1024
    → value + v * 2 ^ shift < 2 ^ 53
    → read_varint_loop (encode_size k v ++ rest) value shift
      ≡ ok (record { value = value + v * 2 ^ shift; next = rest })
unfolding encode_size
read_varint_loop-encode_size zero v value shift rest hv hs fits =
    final_group v value shift rest (omega arith) (omega arith) fits
read_varint_loop-encode_size (suc k) v value shift rest hv hs fits = ground (
  arith,
  final_group v value shift rest,
  regroup v shift,
  continued_group (v % 128) value shift (encode_size k (v / 128) ++ rest),
  read_varint_loop-encode_size k (v / 128) (value + v % 128 * 2 ^ shift) (shift + 7) rest
      (omega arith),
)

pub read_varint-encode_size :
    (v : ℕ) (rest : List ℕ)
    → v < 2 ^ 53
    → read_varint (encode_size 7 v ++ rest) ≡ ok (record { value = v; next = rest })
unfolding read_varint
read_varint-encode_size v rest h = ground (arith, read_varint_loop-encode_size 7 v 0 0 rest)
