-- ===== src/Pack/Header/Reads.antt =====
-- The reads of a pack's headers: they stay in the pack, and their loops end.
use open_relic.Prelude.{
  ℕ, zero, suc, ◌+◌, ◌*◌, ◌^◌, ◌≤◌, ◌<◌, ◌≡◌, refl, bit_and, Bool, true, false, not, List, ltb,
  ◌==◌, Result, ok, err, thrown, out_of_fuel, Bool-cases, inl, inr, arith, ◌>>=◌, ◌>>◌, throw_if,
}
use open_relic.Prelude.Bits.{bit_and_small}
use open_relic.GitObject.{max_object_bytes}
use open_relic.Delta.{is_safe_integer}
use open_relic.Pack.{Fault, PackErrorCode, corrupt, object_too_large}
use open_relic.Pack.Stream.{PackStream, take_bytes}
use open_relic.Pack.Stream.Laws.{IsStream}
use open_relic.Pack.Stream.Reading.{Takes, take_bytes-Takes}
use open_relic.Pack.Header.{
  next_byte, size_loop, size_rounds, read_entry_header, offset_loop, read_back_offset,
}

-- A read leaves a stream of the same pack, or throws.
unfoldable pub Reads {ℓ} : {A : Type ℓ} → List ℕ → Result Fault (A × PackStream) → Type 0
Reads whole (ok (a, t)) = IsStream whole t
Reads whole (err (thrown e)) = Unit {0}
Reads whole (err out_of_fuel) = true ≡ false

Takes-Reads :
    (whole : List ℕ) (count : ℕ) (s : PackStream) (r : Result Fault (List ℕ × PackStream))
    → Takes whole count s r
    → Reads whole r
unfolding Reads
Takes-Reads whole count s (ok (bytes, t)) (within, same, h, moved) = h
Takes-Reads whole count s (err (thrown e)) h = tt
Takes-Reads whole count s (err out_of_fuel) (e, short) = let bad = e in cc

pub take_bytes-Reads :
    (whole : List ℕ) (count : ℕ) (s : PackStream)
    → IsStream whole s
    → Reads whole (take_bytes count s)
take_bytes-Reads whole count s h =
    Takes-Reads whole count s (take_bytes count s) (take_bytes-Takes whole count s h)

>>=-Reads {ℓ κ} :
    {A : Type ℓ} {B : Type κ} (whole : List ℕ) (r : Result Fault (A × PackStream))
    (more : A × PackStream → Result Fault (B × PackStream))
    → Reads whole r
    → ((a : A) (t : PackStream) → IsStream whole t → Reads whole (more (a, t)))
    → Reads whole (r >>= more)
unfolding Reads
>>=-Reads whole (ok (a, t)) more h k = k a t h
>>=-Reads whole (err (thrown e)) more h k = tt
>>=-Reads whole (err out_of_fuel) more h k = h

throw_if-Reads {ℓ} :
    {A : Type ℓ} (whole : List ℕ) (test : Bool) (e : PackErrorCode)
    (r : Result Fault (A × PackStream))
    → (test ≡ false → Reads whole r)
    → Reads whole (throw_if test (thrown e) >> r)
unfolding Reads
throw_if-Reads whole true e r h = tt
throw_if-Reads whole false e r h = h refl

next_byte-Reads : (whole : List ℕ) (s : PackStream) → IsStream whole s → Reads whole (next_byte s)
unfolding next_byte Reads
next_byte-Reads whole s h =
    >>=-Reads whole (take_bytes 1 s) _ (take_bytes-Reads whole 1 s h) (λ bytes t k. k)

-- The shift of the last round is one for which the sum was safe.
size_loop-Reads :
    (whole : List ℕ) (fuel byte size shift : ℕ) (s : PackStream)
    → shift ≤ 1030
    → 1040 ≤ shift + 7 * fuel
    → IsStream whole s
    → Reads whole (size_loop fuel byte size shift s)
unfolding size_loop is_safe_integer Reads
size_loop-Reads whole zero byte size shift s h k g = absurd (omega arith)
size_loop-Reads whole (suc fuel) byte size shift s h k g =
    elim (Bool-cases (bit_and byte 0x80 == 0)) [
      | inl last ↦ rw (size_loop, last) g
      | inr more ↦
          rw (size_loop, more)
            (>>=-Reads whole (next_byte s) _ (next_byte-Reads whole s g) (λ byte' t j.
              throw_if-Reads whole
                (not (is_safe_integer shift (size + bit_and byte' 0x7f * 2 ^ shift))) corrupt _
                (λ safe.
                  size_loop-Reads whole fuel byte' _ (shift + 7) t (ground (arith, safe))
                    (omega arith) j)))
    ]

pub read_entry_header-Reads :
    (whole : List ℕ) (s : PackStream) → IsStream whole s → Reads whole (read_entry_header s)
unfolding read_entry_header Reads
read_entry_header-Reads whole s h =
    >>=-Reads whole (next_byte s) _ (next_byte-Reads whole s h) (λ byte t j.
      >>=-Reads whole (size_loop size_rounds byte (bit_and byte 15) 4 t) _
        (size_loop-Reads whole size_rounds byte (bit_and byte 15) 4 t (omega arith) (omega arith) j)
        (λ size u k.
          throw_if-Reads whole (ltb max_object_bytes size) object_too_large _ (λ small. k)))

-- What an offset has grown to at least, after so many more rounds.
grown : ℕ → ℕ → ℕ
grown zero offset = offset
grown (suc rounds) offset = grown rounds ((offset + 1) * 128)

grown_larger : (rounds a b : ℕ) → a ≤ b → grown rounds a ≤ grown rounds b
unfolding grown
grown_larger zero a b h = h
grown_larger (suc rounds) a b h = grown_larger rounds ((a + 1) * 128) ((b + 1) * 128) (omega arith)

offset_loop-Reads :
    (whole : List ℕ) (fuel byte offset : ℕ) (s : PackStream)
    → offset < 2 ^ 53
    → 2 ^ 53 ≤ grown fuel offset
    → IsStream whole s
    → Reads whole (offset_loop fuel byte offset s)
unfolding offset_loop grown Reads
offset_loop-Reads whole zero byte offset s h k g = absurd (omega arith)
offset_loop-Reads whole (suc fuel) byte offset s h k g =
    elim (Bool-cases (bit_and byte 0x80 == 0)) [
      | inl last ↦ rw (offset_loop, last) g
      | inr more ↦
          rw (offset_loop, more)
            (>>=-Reads whole (next_byte s) _ (next_byte-Reads whole s g) (λ byte' t j.
              let offset' = (offset + 1) * 128 + bit_and byte' 0x7f in
              throw_if-Reads whole (not (ltb offset' (2 ^ 53))) corrupt _ (λ small.
                let larger = grown_larger fuel ((offset + 1) * 128) offset' (omega arith) in
                offset_loop-Reads whole fuel byte' offset' t (ground (arith, small)) (omega arith)
                  j)))
    ]

pub read_back_offset-Reads :
    (whole : List ℕ) (s : PackStream) → IsStream whole s → Reads whole (read_back_offset s)
unfolding read_back_offset grown
read_back_offset-Reads whole s h =
    >>=-Reads whole (next_byte s) _ (next_byte-Reads whole s h) (λ byte t j.
      let larger = grown_larger 10 0 (bit_and byte 0x7f) (omega arith) in
      offset_loop-Reads whole 10 byte (bit_and byte 0x7f) t (omega (arith, bit_and_small byte 0x7f))
        (omega arith) j)
