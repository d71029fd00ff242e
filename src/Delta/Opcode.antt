-- ===== src/Delta/Opcode.antt =====
-- The opcode of a copy: the seven bits below the top one say which bytes are sent.
use open_relic.Prelude.{
  ℕ, zero, suc, ◌+◌, ◌*◌, ◌/◌, ◌%◌, ◌^◌, ◌≤◌, ◌<◌, ◌≡◌, false, [], ◌∷◌, Option, none, some, arith,
  bit_and, ◌==◌, ◌∙◌,
}
use open_relic.Prelude.Bits.{test_bit, top_bit}
use open_relic.Delta.Fields.{Agrees, left_out}
use open_relic.Delta.Format.{Field, field_flags}

abbrev bit : Option ℕ → ℕ
bit none = 0
bit (some b) = 1

bit_cases : (o : Option ℕ) (m x : ℕ) → 0 < m → x ≡ bit o * m → (x == 0) ≡ left_out o
bit_cases none m x p e = ground arith
bit_cases (some b) m x p e = ground arith

bit_le : (o : Option ℕ) → bit o ≤ 1
bit_le none = omega arith
bit_le (some b) = omega arith

field_flags-cons :
    (w : ℕ) (o : Option ℕ) (fs : Field)
    → field_flags w (o ∷ fs) ≡ bit o * w + field_flags (w * 2) fs
field_flags-cons w none fs = omega arith
field_flags-cons w (some b) fs = omega arith

-- Bit `k` of a sum is the one that was put there.
digit :
    (k opcode low high : ℕ) (o : Option ℕ)
    → k < 7
    → opcode ≡ low + 2 ^ k * (bit o + 2 * high)
    → low < 2 ^ k
    → (opcode / 2 ^ k % 2 * 2 ^ k ≡ bit o * 2 ^ k) × (0 < 2 ^ k)
digit zero opcode low high o hk e hl = omega (arith, bit_le o)
digit (suc zero) opcode low high o hk e hl = omega (arith, bit_le o)
digit (suc (suc zero)) opcode low high o hk e hl = omega (arith, bit_le o)
digit (suc (suc (suc zero))) opcode low high o hk e hl = omega (arith, bit_le o)
digit (suc (suc (suc (suc zero)))) opcode low high o hk e hl = omega (arith, bit_le o)
digit (suc (suc (suc (suc (suc zero))))) opcode low high o hk e hl = omega (arith, bit_le o)
digit (suc (suc (suc (suc (suc (suc zero)))))) opcode low high o hk e hl = omega (arith, bit_le o)
digit (suc (suc (suc (suc (suc (suc (suc k))))))) opcode low high o hk e hl = absurd (omega arith)

opcode_bit :
    (k opcode low high : ℕ) (o : Option ℕ)
    → k < 7
    → opcode ≡ low + 2 ^ k * (bit o + 2 * high)
    → low < 2 ^ k
    → opcode < 256
    → (bit_and opcode (2 ^ k) == 0) ≡ left_out o
opcode_bit k opcode low high o hk e hl hb =
    let (same, positive) = digit k opcode low high o hk e hl in
    bit_cases o (2 ^ k) (bit_and opcode (2 ^ k)) positive
      (test_bit k opcode (omega arith) hb ∙ same)

module _ (o₀ o₁ o₂ o₃ s₀ s₁ s₂ : Option ℕ) where
  abbrev pub offset : Field
  offset = o₀ ∷ o₁ ∷ o₂ ∷ o₃ ∷ []

  abbrev pub size : Field
  size = s₀ ∷ s₁ ∷ s₂ ∷ []

  abbrev pub copy_opcode : ℕ
  copy_opcode = 0x80 + field_flags 1 offset + field_flags 0x10 size

  copy_opcode_bits :
      copy_opcode
      ≡ 0x80
        + bit o₀
        + 2 * bit o₁
        + 4 * bit o₂
        + 8 * bit o₃
        + 16 * bit s₀
        + 32 * bit s₁
        + 64 * bit s₂
  copy_opcode_bits = omega (
    arith,
    field_flags-cons 1 o₀ (o₁ ∷ o₂ ∷ o₃ ∷ []),
    field_flags-cons 2 o₁ (o₂ ∷ o₃ ∷ []),
    field_flags-cons 4 o₂ (o₃ ∷ []),
    field_flags-cons 8 o₃ [],
    field_flags-cons 16 s₀ (s₁ ∷ s₂ ∷ []),
    field_flags-cons 32 s₁ (s₂ ∷ []),
    field_flags-cons 64 s₂ [],
  )

  pub copy_opcode_lt : copy_opcode < 256
  copy_opcode_lt = omega (
    arith,
    copy_opcode_bits,
    bit_le o₀,
    bit_le o₁,
    bit_le o₂,
    bit_le o₃,
    bit_le s₀,
    bit_le s₁,
    bit_le s₂,
  )

  abbrev low₁ : ℕ
  low₁ = bit o₀

  abbrev low₂ : ℕ
  low₂ = low₁ + 2 * bit o₁

  abbrev low₃ : ℕ
  low₃ = low₂ + 4 * bit o₂

  abbrev low₄ : ℕ
  low₄ = low₃ + 8 * bit o₃

  abbrev low₅ : ℕ
  low₅ = low₄ + 16 * bit s₀

  abbrev low₆ : ℕ
  low₆ = low₅ + 32 * bit s₁

  abbrev high₅ : ℕ
  high₅ = bit s₂ + 2

  abbrev high₄ : ℕ
  high₄ = bit s₁ + 2 * high₅

  abbrev high₃ : ℕ
  high₃ = bit s₀ + 2 * high₄

  abbrev high₂ : ℕ
  high₂ = bit o₃ + 2 * high₃

  abbrev high₁ : ℕ
  high₁ = bit o₂ + 2 * high₂

  abbrev high₀ : ℕ
  high₀ = bit o₁ + 2 * high₁

  lows : (low₁ < 2) × (low₂ < 4) × (low₃ < 8) × (low₄ < 16) × (low₅ < 32) × (low₆ < 64)
  lows = omega (arith, bit_le o₀, bit_le o₁, bit_le o₂, bit_le o₃, bit_le s₀, bit_le s₁)

  agrees_at :
      (k low high : ℕ) (o : Option ℕ)
      → k < 7
      → copy_opcode ≡ low + 2 ^ k * (bit o + 2 * high)
      → low < 2 ^ k
      → (bit_and copy_opcode (2 ^ k) == 0) ≡ left_out o
  agrees_at k low high o p e q = opcode_bit k copy_opcode low high o p e q copy_opcode_lt

  pub offset-Agrees : Agrees copy_opcode 1 0 offset
  offset-Agrees =
      let e = copy_opcode_bits in
      (
        agrees_at 0 0 high₀ o₀ (omega arith) (omega arith) (omega arith),
        (
          agrees_at 1 low₁ high₁ o₁ (omega arith) (omega arith) lows.0,
          (
            agrees_at 2 low₂ high₂ o₂ (omega arith) (omega arith) lows.1,
            (agrees_at 3 low₃ high₃ o₃ (omega arith) (omega arith) lows.2, tt),
          ),
        ),
      )

  pub size-Agrees : Agrees copy_opcode 0x10 0 size
  size-Agrees =
      let e = copy_opcode_bits in
      (
        agrees_at 4 low₄ high₄ s₀ (omega arith) (omega arith) lows.3,
        (
          agrees_at 5 low₅ high₅ s₁ (omega arith) (omega arith) lows.4,
          (agrees_at 6 low₆ 1 s₂ (omega arith) (omega arith) lows.5, tt),
        ),
      )

  pub copy_opcode_top : (bit_and copy_opcode 0x80 == 0) ≡ false
  copy_opcode_top =
      ground (arith, copy_opcode_lt, top_bit copy_opcode copy_opcode_lt, copy_opcode_bits)
