-- ===== src/Delta/Format.antt =====
-- Git's delta format as data: the instructions of a delta, how they are written, and what they
-- mean. `Documentation/technical/pack-format.txt` in Git's own tree is the source.
use open_relic.Prelude.{
  ℕ, zero, suc, ◌+◌, ◌*◌, ◌/◌, ◌%◌, ◌^◌, ◌≤◌, ◌<◌, List, [], ◌∷◌, ◌++◌, Option, none, some, length,
  All, ltb, ◌==◌, if◌then◌else◌,
}
use open_relic.Delta.{subarray}

abbrev pub IsByte : ℕ → Type 0
IsByte b = b < 256

-- A field of a copy: its bytes, least first, each sent or left out as zero.
abbrev pub Field : Type 0
Field = List (Option ℕ)

abbrev pub sent : Field → List ℕ
sent [] = []
sent (none ∷ fs) = sent fs
sent (some b ∷ fs) = b ∷ sent fs

-- The value of the bytes of a field from number `byte` on.
abbrev pub field_value : ℕ → Field → ℕ
field_value byte [] = 0
field_value byte (none ∷ fs) = field_value (byte + 1) fs
field_value byte (some b ∷ fs) = b * 2 ^ (byte * 8) + field_value (byte + 1) fs

-- Which bytes are sent, as bits from `weight` on.
abbrev pub field_flags : ℕ → Field → ℕ
field_flags weight [] = 0
field_flags weight (none ∷ fs) = field_flags (weight * 2) fs
field_flags weight (some b ∷ fs) = weight + field_flags (weight * 2) fs

abbrev pub IsOptionalByte : Option ℕ → Type 0
IsOptionalByte none = Unit
IsOptionalByte (some b) = IsByte b

abbrev pub IsField : Field → Type 0
IsField = All IsOptionalByte

pub data Instruction : Type 0 where
  copy : (o₀ o₁ o₂ o₃ s₀ s₁ s₂ : Option ℕ) → Instruction
  insert : List ℕ → Instruction

abbrev pub copy_size : Field → ℕ
copy_size fs = if field_value 0 fs == 0 then 0x10000 else field_value 0 fs

abbrev pub IsInstruction : ℕ → Instruction → Type 0
IsInstruction base_length (copy o₀ o₁ o₂ o₃ s₀ s₁ s₂) =
    IsField (o₀ ∷ o₁ ∷ o₂ ∷ o₃ ∷ [])
    × IsField (s₀ ∷ s₁ ∷ s₂ ∷ [])
    × (field_value 0 (o₀ ∷ o₁ ∷ o₂ ∷ o₃ ∷ []) + copy_size (s₀ ∷ s₁ ∷ s₂ ∷ []) ≤ base_length)
IsInstruction base_length (insert bytes) = (1 ≤ length bytes) × (length bytes ≤ 127)

abbrev pub encode_instruction : Instruction → List ℕ
encode_instruction (copy o₀ o₁ o₂ o₃ s₀ s₁ s₂) =
    let offset : Field = o₀ ∷ o₁ ∷ o₂ ∷ o₃ ∷ [] in
    let size : Field = s₀ ∷ s₁ ∷ s₂ ∷ [] in
    (0x80 + field_flags 1 offset + field_flags 0x10 size) ∷ (sent offset ++ sent size)
encode_instruction (insert bytes) = length bytes ∷ bytes

abbrev pub encode_instructions : List Instruction → List ℕ
encode_instructions [] = []
encode_instructions (i ∷ is) = encode_instruction i ++ encode_instructions is

abbrev pub run_instruction : List ℕ → Instruction → List ℕ
run_instruction base (copy o₀ o₁ o₂ o₃ s₀ s₁ s₂) =
    subarray base (field_value 0 (o₀ ∷ o₁ ∷ o₂ ∷ o₃ ∷ [])) (copy_size (s₀ ∷ s₁ ∷ s₂ ∷ []))
run_instruction base (insert bytes) = bytes

-- The object that a delta describes.
abbrev pub run_instructions : List ℕ → List Instruction → List ℕ
run_instructions base [] = []
run_instructions base (i ∷ is) = run_instruction base i ++ run_instructions base is

-- A size in groups of seven bits, least first, in at most `k + 1` bytes.
unfoldable pub encode_size : ℕ → ℕ → List ℕ
encode_size zero v = v ∷ []
encode_size (suc k) v =
    let more = encode_size k (v / 128) in if ltb v 128 then v ∷ [] else (v % 128 + 128) ∷ more

-- Eight bytes hold every size that a double represents exactly.
abbrev pub encode_delta : List ℕ → List Instruction → List ℕ
encode_delta base is =
    encode_size 7 (length base)
    ++ (encode_size 7 (length (run_instructions base is)) ++ encode_instructions is)
