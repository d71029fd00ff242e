-- ===== src/Delta/Fields.antt =====
-- A copy's offset and size bytes: what `read_fields` makes of them.
use open_relic.Prelude.{
  ℕ, zero, suc, ◌+◌, ◌*◌, ◌%◌, ◌^◌, ◌≤◌, ◌<◌, ◌≡◌, Bool, true, false, List, [], ◌∷◌, ◌++◌, Option,
  none, some, ok, arith, length, bit_and, ◌==◌,
}
use open_relic.Prelude.Bits.{bit_or_fields}
use open_relic.Delta.{read_fields, read_byte}
use open_relic.Delta.Format.{IsByte, Field, sent, field_value, IsField}

abbrev pub left_out : Option ℕ → Bool
left_out none = true
left_out (some b) = false

-- The opcode says of each byte of the field whether it is sent.
abbrev pub Agrees : ℕ → ℕ → ℕ → Field → Type 0
Agrees opcode flag byte [] = Unit
Agrees opcode flag byte (o ∷ fs) =
    ((bit_and opcode (flag * 2 ^ byte) == 0) ≡ left_out o) × Agrees opcode flag (byte + 1) fs

-- A byte that is shifted to its place stays within 32 bits, and the next place is free.
place_fits :
    (byte acc b : ℕ)
    → byte < 4
    → IsByte b
    → acc < 2 ^ (byte * 8)
    → (b * 2 ^ (byte * 8) % 2 ^ 32 ≡ b * 2 ^ (byte * 8))
      × (acc + b * 2 ^ (byte * 8) < 2 ^ ((byte + 1) * 8))
      × (acc < 2 ^ ((byte + 1) * 8))
place_fits zero acc b p q h = omega arith
place_fits (suc zero) acc b p q h = omega arith
place_fits (suc (suc zero)) acc b p q h = omega arith
place_fits (suc (suc (suc zero))) acc b p q h = omega arith
place_fits (suc (suc (suc (suc k)))) acc b p q h = absurd (omega arith)

pub read_fields-sent :
    (fs : Field) (byte flag opcode acc : ℕ) (rest : List ℕ)
    → byte + length fs ≤ 4
    → IsField fs
    → Agrees opcode flag byte fs
    → acc < 2 ^ (byte * 8)
    → read_fields (length fs) byte flag opcode acc (sent fs ++ rest)
      ≡ ok (acc + field_value byte fs, rest)
unfolding read_fields read_byte
read_fields-sent [] byte flag opcode acc rest p q a h = ground arith
read_fields-sent (none ∷ fs) byte flag opcode acc rest p (_, q) (a, later) h = ground (
  arith,
  read_fields-sent fs (byte + 1) flag opcode acc rest (omega arith) q later,
  place_fits byte acc 0 (omega arith) (omega arith) h,
)
read_fields-sent (some b ∷ fs) byte flag opcode acc rest p (hb, q) (a, later) h =
    let (same, fits, _) = place_fits byte acc b (omega arith) hb h in
    ground (
      arith,
      same,
      bit_or_fields (byte * 8) b acc h,
      read_fields-sent fs (byte + 1) flag opcode (acc + b * 2 ^ (byte * 8)) rest (omega arith) q
          later fits,
    )

-- From nothing on, what is read is the value of the field.
pub read_fields-sent_zero :
    (fs : Field) (flag opcode : ℕ) (rest : List ℕ)
    → length fs ≤ 4
    → IsField fs
    → Agrees opcode flag 0 fs
    → read_fields (length fs) 0 flag opcode 0 (sent fs ++ rest) ≡ ok (field_value 0 fs, rest)
read_fields-sent_zero fs flag opcode rest p q a =
    ground (arith, read_fields-sent fs 0 flag opcode 0 rest (omega arith) q a (omega arith))
