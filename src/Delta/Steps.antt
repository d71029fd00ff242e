-- ===== src/Delta/Steps.antt =====
-- One round of `applyDelta` on a written instruction.
use open_relic.Prelude.{
  ℕ, zero, suc, ◌+◌, ◌-◌, ◌≤◌, ◌≡◌, refl, List, ◌++◌, Option, ok, arith, length, drop, replicate,
  ap, ◌∙◌, append_assoc, length-append, length-take, length-drop, length-replicate, take-append,
  drop-append, drop-drop,
}
use open_relic.Delta.{subarray, splice, write, copy_step, copy_span, insert_step, Progress}
use open_relic.Delta.Fields.{read_fields-sent_zero}
use open_relic.Delta.Opcode.{offset, size, copy_opcode, offset-Agrees, size-Agrees}
use open_relic.Delta.Format.{sent, copy, IsInstruction, copy_size, run_instruction, field_value}

abbrev pub zeros : ℕ → List ℕ
zeros n = replicate n 0

drop-zeros : (k n : ℕ) → drop k (zeros n) ≡ zeros (n - k)
drop-zeros zero n = ap zeros {x = n} (omega arith)
drop-zeros (suc k) zero = ap zeros {x = 0} (omega arith)
drop-zeros (suc k) (suc n) = drop-zeros k n ∙ ap zeros {x = n - k} (omega arith)

-- The buffer is what was written so far, and zeros.
splice-zeros :
    (out bytes : List ℕ) (n : ℕ)
    → splice (out ++ zeros n) (length out) bytes ≡ (out ++ bytes) ++ zeros (n - length bytes)
splice-zeros out bytes n = rw (
  take-append out (zeros n) refl,
  ← drop-drop (length bytes) (length out) (out ++ zeros n),
  drop-append out (zeros n) refl,
  drop-zeros (length bytes) n,
  append_assoc,
)

write_lem :
    (out bytes : List ℕ) (n : ℕ)
    → length bytes ≤ n
    → write (out ++ zeros n) (length out) bytes ≡ ok ((out ++ bytes) ++ zeros (n - length bytes))
unfolding write
write_lem out bytes n h =
    ground
      (arith, splice-zeros out bytes n, length-append out (zeros n), length-replicate {A = ℕ} n 0)

length-subarray :
    (xs : List ℕ) (from count : ℕ)
    → from + count ≤ length xs
    → length (subarray xs from count) ≡ count
length-subarray xs from count h =
    omega (arith, length-take count (drop from xs), length-drop from xs)

-- Where a round stands: `out` is written, and `n` bytes of the buffer are still zero.
abbrev pub progress : List ℕ → List ℕ → ℕ → Progress
progress rest out n = record { rest = rest; result = out ++ zeros n; written = length out }

module _ (base : List ℕ) (o₀ o₁ o₂ o₃ s₀ s₁ s₂ : Option ℕ) (rest out : List ℕ) (n : ℕ) where
  pub copy_step_lem :
      IsInstruction (length base) (copy o₀ o₁ o₂ o₃ s₀ s₁ s₂)
      → length (run_instruction base (copy o₀ o₁ o₂ o₃ s₀ s₁ s₂)) ≤ n
      → copy_step base (copy_opcode o₀ o₁ o₂ o₃ s₀ s₁ s₂) (
          progress
            (sent (offset o₀ o₁ o₂ o₃ s₀ s₁ s₂) ++ (sent (size o₀ o₁ o₂ o₃ s₀ s₁ s₂) ++ rest))
            out
            n)
        ≡ ok (
            let bytes = run_instruction base (copy o₀ o₁ o₂ o₃ s₀ s₁ s₂) in
            progress rest (out ++ bytes) (n - length bytes))
  unfolding copy_step copy_span
  copy_step_lem (hf, hs, hb) fits =
      let os = offset o₀ o₁ o₂ o₃ s₀ s₁ s₂ in
      let ss = size o₀ o₁ o₂ o₃ s₀ s₁ s₂ in
      let opcode = copy_opcode o₀ o₁ o₂ o₃ s₀ s₁ s₂ in
      let bytes = subarray base (field_value 0 os) (copy_size ss) in
      let e =
        read_fields-sent_zero os 1 opcode (sent ss ++ rest) (omega arith) hf
          (offset-Agrees o₀ o₁ o₂ o₃ s₀ s₁ s₂) in
      let e' =
        read_fields-sent_zero ss 0x10 opcode rest (omega arith) hs
          (size-Agrees o₀ o₁ o₂ o₃ s₀ s₁ s₂) in
      let e'' = length-subarray base (field_value 0 os) (copy_size ss) hb in
      rw (e, e') (ground (arith, write_lem out bytes n, e'', length-append out bytes))

pub insert_step_lem :
    (bytes rest out : List ℕ) (n : ℕ)
    → length bytes ≤ n
    → insert_step (length bytes) (progress (bytes ++ rest) out n)
      ≡ ok (progress rest (out ++ bytes) (n - length bytes))
unfolding insert_step
insert_step_lem bytes rest out n h = ground (
  arith,
  take-append bytes rest refl,
  drop-append bytes rest refl,
  length-append bytes rest,
  length-append out bytes,
  write_lem out bytes n h,
)
