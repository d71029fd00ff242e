-- ===== src/Delta/Bounds.antt =====
-- What `apply_delta` answers on any input: its sizes, its errors, and that it ends.
use open_relic.Prelude.{
  ℕ, zero, suc, ◌+◌, ◌*◌, ◌^◌, ◌≤◌, ◌<◌, ◌≡◌, ◌≢◌, ◌↔◌, refl, List, [], ◌∷◌, ◌++◌, ok, err, arith,
  length, take, drop, length-append, length-take, length-drop, length-replicate, replicate, Result,
  thrown, out_of_fuel, bit_and, bit_or, ◌==◌, Bool-cases, inl, inr, ltb, ◌%◌, ◌⊎◌, ◌>>=◌,
  if◌then◌else◌,
}
use open_relic.GitObject.{max_object_bytes}
use open_relic.Delta.{
  Fault, corrupt, too_large, Varint, Progress, read_byte, read_fields, read_varint,
  read_varint_loop, write, splice, subarray, copy_span, copy_step, insert_step, delta_step,
  delta_loop, apply_delta,
}

-- Reading ends in fewer bytes, or throws `corrupt`.
abbrev Reads : ℕ → Result Fault (ℕ × List ℕ) → Type 0
Reads n (ok (v, rest)) = length rest ≤ n
Reads n (err (thrown corrupt)) = Unit
Reads n (err (thrown too_large)) = ⊥
Reads n (err out_of_fuel) = ⊥

read_fields-Reads :
    (rounds byte flag opcode acc : ℕ) (rest : List ℕ)
    → Reads (length rest) (read_fields rounds byte flag opcode acc rest)
unfolding read_fields read_byte
read_fields-Reads zero byte flag opcode acc rest = omega arith
read_fields-Reads (suc rounds) byte flag opcode acc [] =
    ground (arith, read_fields-Reads rounds (byte + 1) flag opcode acc [])
read_fields-Reads (suc rounds) byte flag opcode acc (b ∷ rest) = ground (
  arith,
  read_fields-Reads rounds (byte + 1) flag opcode acc (b ∷ rest),
  read_fields-Reads rounds (byte + 1) flag opcode (bit_or acc (b * 2 ^ (byte * 8) % 2 ^ 32)) rest,
)

-- A round leaves `m` bytes at most and a buffer of `n` bytes, or throws `corrupt`.
abbrev Goes : ℕ → ℕ → Result Fault Progress → Type 0
Goes m n (ok p) = (length p.rest ≤ m) × (length p.result ≡ n)
Goes m n (err (thrown corrupt)) = Unit
Goes m n (err (thrown too_large)) = ⊥
Goes m n (err out_of_fuel) = ⊥

length-splice :
    (result bytes : List ℕ) (at : ℕ)
    → at + length bytes ≤ length result
    → length (splice result at bytes) ≡ length result
length-splice result bytes at h = omega (
  arith,
  length-append (take at result) (bytes ++ drop (at + length bytes) result),
  length-append bytes (drop (at + length bytes) result),
  length-take at result,
  length-drop (at + length bytes) result,
)

insert_step-Goes :
    (opcode : ℕ) (p : Progress) → Goes (length p.rest) (length p.result) (insert_step opcode p)
unfolding insert_step write
insert_step-Goes opcode p =
    ground (arith, length-splice p.result (take opcode p.rest) p.written, length-drop opcode p.rest)

write_lem :
    (result bytes : List ℕ) (at : ℕ)
    → (write result at bytes ≡ err (thrown corrupt))
      ⊎ (write result at bytes ≡ ok (splice result at bytes))
        × (length (splice result at bytes) ≡ length result)
unfolding write
write_lem result bytes at = elim (Bool-cases (ltb (length result) (at + length bytes))) [
  | inl e ↦ inl (rw e)
  | inr e ↦ inr (rw e, length-splice result bytes at (ground arith))
]

Goes-bind :
    (m n k : ℕ) (r : Result Fault (ℕ × List ℕ)) (f : ℕ × List ℕ → Result Fault Progress)
    → Reads k r
    → ((v : ℕ) (rest : List ℕ) → length rest ≤ k → Goes m n (f (v, rest)))
    → Goes m n (r >>= f)
Goes-bind m n k (ok (v, rest)) f h g = g v rest h
Goes-bind m n k (err (thrown corrupt)) f h g = tt
Goes-bind m n k (err (thrown too_large)) f h g = h
Goes-bind m n k (err out_of_fuel) f h g = h

copy_span-Goes :
    (base : List ℕ) (p : Progress) (offset size : ℕ) (rest : List ℕ)
    → length rest ≤ length p.rest
    → Goes (length p.rest) (length p.result) (copy_span base p offset size rest)
unfolding copy_span
copy_span-Goes base p offset size rest h =
    ground (arith, write_lem p.result (subarray base offset size) p.written)

copy_step-Goes :
    (base : List ℕ) (opcode : ℕ) (p : Progress)
    → Goes (length p.rest) (length p.result) (copy_step base opcode p)
unfolding copy_step
copy_step-Goes base opcode p =
    Goes-bind _ _ _ (read_fields 4 0 1 opcode 0 p.rest) _ (read_fields-Reads 4 0 1 opcode 0 p.rest)
      λ offset after h.
        Goes-bind _ _ _ (read_fields 3 0 0x10 opcode 0 after) _
          (read_fields-Reads 3 0 0x10 opcode 0 after)
          λ size rest k.
            copy_span-Goes base p offset (if size == 0 then 0x10000 else size) rest (omega arith)

delta_step-Goes :
    (base : List ℕ) (opcode : ℕ) (p : Progress)
    → Goes (length p.rest) (length p.result) (delta_step base opcode p)
unfolding delta_step
delta_step-Goes base opcode p =
    ground (arith, copy_step-Goes base opcode p, insert_step-Goes opcode p)

Goes-then :
    (m n : ℕ) (r : Result Fault Progress) (f : Progress → Result Fault Progress)
    → Goes m n r
    → ((p : Progress) → length p.rest ≤ m → length p.result ≡ n → Goes 0 n (f p))
    → Goes 0 n (r >>= f)
Goes-then m n (ok p) f (h, e) g = g p h e
Goes-then m n (err (thrown corrupt)) f h g = tt
Goes-then m n (err (thrown too_large)) f h g = h
Goes-then m n (err out_of_fuel) f h g = h

-- The loop ends with the delta used up and a buffer of the same size, or throws `corrupt`.
delta_loop-Goes :
    (fuel : ℕ) (base rest result : List ℕ) (written n : ℕ)
    → length rest ≤ fuel
    → length result ≡ n
    → Goes 0 n (delta_loop fuel base rest result written)
unfolding delta_loop
delta_loop-Goes fuel base [] result written n h e = omega arith
delta_loop-Goes zero base (opcode ∷ rest) result written n h e = absurd (omega arith)
delta_loop-Goes (suc fuel) base (opcode ∷ rest) result written n h e =
    let p : Progress = record { rest = rest; result = result; written = written } in
    Goes-then (length rest) n (delta_step base opcode p) _ (rw e at (delta_step-Goes base opcode p))
      λ q k j. delta_loop-Goes fuel base q.rest q.result q.written n (omega arith) j

abbrev ReadsSize : Result Fault Varint → Type 0
ReadsSize (ok v) = Unit
ReadsSize (err (thrown corrupt)) = Unit
ReadsSize (err (thrown too_large)) = ⊥
ReadsSize (err out_of_fuel) = ⊥

read_varint_loop-ReadsSize :
    (delta : List ℕ) (value shift : ℕ) → ReadsSize (read_varint_loop delta value shift)
unfolding read_varint_loop
read_varint_loop-ReadsSize [] value shift = tt
read_varint_loop-ReadsSize (byte ∷ rest) value shift =
    ground
      (arith, read_varint_loop-ReadsSize rest (value + bit_and byte 0x7f * 2 ^ shift) (shift + 7))

read_varint-ReadsSize : (delta : List ℕ) → ReadsSize (read_varint delta)
unfolding read_varint
read_varint-ReadsSize delta = read_varint_loop-ReadsSize delta 0 0

-- The two sizes at the front of a delta.
abbrev pub Header : List ℕ → Varint → Varint → Type 0
Header delta base_size result_size =
    (read_varint delta ≡ ok base_size) × (read_varint base_size.next ≡ ok result_size)

-- Both sizes are read, or `apply_delta` throws `corrupt`.
sizes_read :
    (base delta : List ℕ)
    → (apply_delta base delta ≡ err (thrown corrupt)) × ((b s : Varint) → ¬ Header delta b s)
      ⊎ ((b : Varint) × (s : Varint) × Header delta b s)
unfolding apply_delta
sizes_read base delta = first (read_varint delta) refl (read_varint-ReadsSize delta)
  where
    second :
        (b : Varint) (r : Result Fault Varint)
        → read_varint delta ≡ ok b
        → read_varint b.next ≡ r
        → ReadsSize r
        → (apply_delta base delta ≡ err (thrown corrupt)) × ((b s : Varint) → ¬ Header delta b s)
          ⊎ ((b : Varint) × (s : Varint) × Header delta b s)
    second b (ok s) e e' h = inr (b, s, (e, e'))
    second b (err (thrown corrupt)) e e' h = inl (rw (e, e'), λ b' s' g. ground (arith, e, e', g))
    second b (err (thrown too_large)) e e' h = absurd h
    second b (err out_of_fuel) e e' h = absurd h

    first :
        (r : Result Fault Varint)
        → read_varint delta ≡ r
        → ReadsSize r
        → (apply_delta base delta ≡ err (thrown corrupt)) × ((b s : Varint) → ¬ Header delta b s)
          ⊎ ((b : Varint) × (s : Varint) × Header delta b s)
    first (ok b) e h = second b (read_varint b.next) e refl (read_varint-ReadsSize b.next)
    first (err (thrown corrupt)) e h = inl (rw e, λ b s g. ground (arith, e, g))
    first (err (thrown too_large)) e h = absurd h
    first (err out_of_fuel) e h = absurd h

-- The loop as `apply_delta` starts it.
abbrev whole_loop : List ℕ → Varint → Result Fault Progress
whole_loop base size = delta_loop (length size.next) base size.next (replicate size.value 0) 0

whole_loop-Goes : (base : List ℕ) (size : Varint) → Goes 0 size.value (whole_loop base size)
whole_loop-Goes base size =
    delta_loop-Goes (length size.next) base size.next (replicate size.value 0) 0 size.value
      (omega arith) (length-replicate size.value 0)

-- What follows the header.
module _ (base delta : List ℕ) (b s : Varint) (h : Header delta b s) where
  accepted_object :
      (object : List ℕ)
      → apply_delta base delta ≡ ok object
      → (b.value ≡ length base) × (s.value ≡ length object) × (length object ≤ max_object_bytes)
  unfolding apply_delta
  accepted_object object e =
      let e' = rw (h.0, h.1) at e in ground (arith, e', whole_loop-Goes base s)

  too_large_object :
      (apply_delta base delta ≡ err (thrown too_large))
      ↔ ((b.value ≡ length base) × (max_object_bytes < s.value))
  unfolding apply_delta
  too_large_object = rw (h.0, h.1) (ground (arith, whole_loop-Goes base s))

  loop_ends : apply_delta base delta ≢ err out_of_fuel
  unfolding apply_delta
  loop_ends = rw (h.0, h.1) (ground (arith, whole_loop-Goes base s))

-- A delta that is applied names the base's size and the object's, and the object is no larger than
-- the limit.
pub apply_delta_sizes :
    (base delta object : List ℕ)
    → apply_delta base delta ≡ ok object
    → (b : Varint) × (s : Varint) × Header delta b s
      × (b.value ≡ length base)
      × (s.value ≡ length object)
      × (length object ≤ max_object_bytes)
apply_delta_sizes base delta object e = elim (sizes_read base delta) [
  | inl (refused, _) ↦ cc
  | inr (b, s, h) ↦ let (x, y, z) = accepted_object base delta b s h object e in (b, s, h, x, y, z)
]

-- `apply_delta` throws `too-large` exactly when both sizes can be read, the first is the base's and
-- the second is past the limit; whatever the instructions are.
pub apply_delta-eq-too_large_iff :
    (base delta : List ℕ)
    → (apply_delta base delta ≡ err (thrown too_large)) ↔ (
        (b : Varint) × (s : Varint) × Header delta b s
        × (b.value ≡ length base)
        × (max_object_bytes < s.value))
apply_delta-eq-too_large_iff base delta = elim (sizes_read base delta) [
  | inl (refused, missing) ↦ (λ e. cc, λ (b, s, h, _, _). absurd (missing b s h))
  | inr (b, s, h) ↦ (
    λ e. let (x, y) = (too_large_object base delta b s h).0 e in (b, s, h, x, y),
    λ (b', s', h', x, y). (too_large_object base delta b' s' h').1 (x, y),
  )
]

-- The loop of `applyDelta` ends on every base and delta: the model never runs out of fuel.
pub apply_delta-ne-out_of_fuel : (base delta : List ℕ) → apply_delta base delta ≢ err out_of_fuel
apply_delta-ne-out_of_fuel base delta = elim (sizes_read base delta) [
  | inl (refused, _) ↦ λ e. cc
  | inr (b, s, h) ↦ loop_ends base delta b s h
]
