-- ===== src/Delta/Examples.antt =====
-- Runs of `apply_delta`, and its theorems at concrete inputs.
use open_relic.Prelude.{
  ℕ, ◌≤◌, ◌<◌, ◌≡◌, ◌≢◌, ◌↔◌, refl, List, [], ◌∷◌, none, some, arith, ok, err, thrown, out_of_fuel,
}
use open_relic.GitObject.{max_object_bytes}
use open_relic.Delta.{
  apply_delta, read_varint, read_varint_loop, is_safe_integer, delta_loop, delta_step, copy_step,
  copy_span, insert_step, read_fields, read_byte, write, corrupt, too_large, Varint,
}
use open_relic.Delta.Format.{Instruction, copy, insert, encode_delta}
use open_relic.Delta.RoundTrip.{apply_delta-encode_delta}
use open_relic.Delta.Bounds.{
  Header, apply_delta_sizes, apply_delta-eq-too_large_iff, apply_delta-ne-out_of_fuel,
}

abbrev sample_base : List ℕ
sample_base = 10 ∷ 11 ∷ 12 ∷ []

abbrev sample_delta : List ℕ
sample_delta = 3 ∷ 5 ∷ 0x91 ∷ 1 ∷ 2 ∷ 3 ∷ 7 ∷ 8 ∷ 9 ∷ []

abbrev sample_instructions : List Instruction
sample_instructions = copy (some 1) none none none (some 2) none none ∷ insert (7 ∷ 8 ∷ 9 ∷ []) ∷ []

abbrev sample_object : List ℕ
sample_object = 11 ∷ 12 ∷ 7 ∷ 8 ∷ 9 ∷ []

-- The sizes 0 and 2 ^ 25 + 1.
abbrev huge_delta : List ℕ
huge_delta = 0 ∷ 0x81 ∷ 0x80 ∷ 0x80 ∷ 0x10 ∷ []

apply_delta_runs : apply_delta sample_base sample_delta ≡ ok sample_object
unfolding apply_delta read_varint read_varint_loop is_safe_integer delta_loop delta_step copy_step
    copy_span insert_step read_fields read_byte write
apply_delta_runs = refl

reserved_instruction : apply_delta [] (0 ∷ 1 ∷ 0 ∷ []) ≡ err (thrown corrupt)
unfolding apply_delta read_varint read_varint_loop is_safe_integer delta_loop delta_step
reserved_instruction = refl

apply_delta-encode_delta_example :
    apply_delta sample_base (encode_delta sample_base sample_instructions) ≡ ok sample_object
apply_delta-encode_delta_example =
    apply_delta-encode_delta sample_base sample_instructions (omega arith) (omega arith)
      (omega arith)

apply_delta_sizes_example :
    (b : Varint) × (s : Varint) × Header sample_delta b s
    × (b.value ≡ 3)
    × (s.value ≡ 5)
    × (5 ≤ max_object_bytes)
apply_delta_sizes_example =
    apply_delta_sizes sample_base sample_delta sample_object apply_delta_runs

apply_delta-eq-too_large_iff_example : (apply_delta [] huge_delta ≡ err (thrown too_large)) ↔ (
    (b : Varint) × (s : Varint) × Header huge_delta b s
    × (b.value ≡ 0)
    × (max_object_bytes < s.value))
apply_delta-eq-too_large_iff_example = apply_delta-eq-too_large_iff [] huge_delta

apply_delta-ne-out_of_fuel_example : apply_delta sample_base sample_delta ≢ err out_of_fuel
apply_delta-ne-out_of_fuel_example = apply_delta-ne-out_of_fuel sample_base sample_delta
