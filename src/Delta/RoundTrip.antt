-- ===== src/Delta/RoundTrip.antt =====
-- Every delta that the format can express is applied to what it describes.
use open_relic.Prelude.{
  ℕ, zero, suc, ◌-◌, ◌^◌, ◌≤◌, ◌<◌, ◌≡◌, refl, List, [], ◌∷◌, ◌++◌, ok, arith, length, All, sym, ap,
  ◌∙◌, append_assoc, append-nil, length-append, Result,
}
use open_relic.Prelude.Bits.{top_bit}
use open_relic.GitObject.{max_object_bytes}
use open_relic.Delta.{delta_step, delta_loop, apply_delta, Fault, Progress}
use open_relic.Delta.Sizes.{read_varint-encode_size}
use open_relic.Delta.Opcode.{offset, size, copy_opcode_top}
use open_relic.Delta.Steps.{zeros, progress, copy_step_lem, insert_step_lem}
use open_relic.Delta.Format.{
  sent, Instruction, copy, insert, IsInstruction, run_instruction, run_instructions,
  encode_instruction, encode_instructions, encode_delta, encode_size,
}

-- The loop from a buffer that holds `out` and `n` zeros.
abbrev loop_from : ℕ → List ℕ → List ℕ → List ℕ → ℕ → Result Fault Progress
loop_from fuel base delta out n = delta_loop fuel base delta (out ++ zeros n) (length out)

delta_loop-insert :
    (base bytes rest out : List ℕ) (n fuel : ℕ)
    → IsInstruction (length base) (insert bytes)
    → length bytes ≤ n
    → loop_from (suc fuel) base (length bytes ∷ (bytes ++ rest)) out n
      ≡ loop_from fuel base rest (out ++ bytes) (n - length bytes)
unfolding delta_loop delta_step
delta_loop-insert base bytes rest out n fuel (lo, hi) fits =
    let e = insert_step_lem bytes rest out n fits in ground (arith, e, top_bit (length bytes))

delta_loop-instruction :
    (base : List ℕ) (i : Instruction) (rest out : List ℕ) (n fuel : ℕ)
    → IsInstruction (length base) i
    → length (run_instruction base i) ≤ n
    → loop_from (suc fuel) base (encode_instruction i ++ rest) out n
      ≡ loop_from fuel base rest
          (out ++ run_instruction base i)
          (n - length (run_instruction base i))
unfolding delta_loop delta_step
delta_loop-instruction base (insert bytes) rest out n fuel v fits =
    delta_loop-insert base bytes rest out n fuel v fits
delta_loop-instruction base (copy o₀ o₁ o₂ o₃ s₀ s₁ s₂) rest out n fuel v fits = rw (
  append_assoc (sent (offset o₀ o₁ o₂ o₃ s₀ s₁ s₂)) (sent (size o₀ o₁ o₂ o₃ s₀ s₁ s₂)) rest,
  copy_opcode_top o₀ o₁ o₂ o₃ s₀ s₁ s₂,
  copy_step_lem base o₀ o₁ o₂ o₃ s₀ s₁ s₂ rest out n v fits,
)

length-encode_instruction : (i : Instruction) → 1 ≤ length (encode_instruction i)
length-encode_instruction (copy o₀ o₁ o₂ o₃ s₀ s₁ s₂) = omega arith
length-encode_instruction (insert bytes) = omega arith

delta_loop-encode_instructions :
    (base : List ℕ) (is : List Instruction) (out : List ℕ) (n fuel : ℕ)
    → All (IsInstruction (length base)) is
    → n ≡ length (run_instructions base is)
    → length (encode_instructions is) ≤ fuel
    → loop_from fuel base (encode_instructions is) out n
      ≡ ok (progress [] (out ++ run_instructions base is) 0)
delta_loop-encode_instructions base [] out n fuel v e f =
    let z : n ≡ 0 = e in
    rw z (unfold delta_loop in ap (λ t. ok (progress [] t 0)) (sym (append-nil out)))
delta_loop-encode_instructions base (i ∷ is) out n zero v e f = absurd (
    omega (
      arith,
      length-encode_instruction i,
      length-append (encode_instruction i) (encode_instructions is),
    ))
delta_loop-encode_instructions base (i ∷ is) out n (suc fuel) (v, vs) e f =
    let written = run_instruction base i in
    let size = length-append written (run_instructions base is) in
    let bytes = length-append (encode_instruction i) (encode_instructions is) in
    delta_loop-instruction base i (encode_instructions is) out n fuel v (omega arith)
    ∙ delta_loop-encode_instructions base is (out ++ written) (n - length written) fuel vs
        (omega arith) (omega (arith, length-encode_instruction i))
    ∙ ap (λ t. ok (progress [] t 0)) (append_assoc out written (run_instructions base is))

-- Applying a written delta to the base that it was written for gives the object that its
-- instructions describe: each copy's span of the base and each insert's bytes, in order. The
-- instructions are any that the format can express: copies that lie inside the base, with any
-- choice of the offset and size bytes that are sent, and inserts of 1 to 127 bytes. The base's
-- size is one that a double represents, and the object is within the limit on objects.
pub apply_delta-encode_delta :
    (base : List ℕ) (is : List Instruction)
    → length base < 2 ^ 53
    → All (IsInstruction (length base)) is
    → length (run_instructions base is) ≤ max_object_bytes
    → apply_delta base (encode_delta base is) ≡ ok (run_instructions base is)
unfolding apply_delta
apply_delta-encode_delta base is hb v fits =
    let object = run_instructions base is in
    let code = encode_instructions is in
    let first = read_varint-encode_size (length base) (encode_size 7 (length object) ++ code) hb in
    let second = read_varint-encode_size (length object) code (omega arith) in
    let loop =
      delta_loop-encode_instructions base is [] (length object) (length code) v refl
        (omega arith) in
    rw (first, second) (ground (arith, loop, append-nil object))
