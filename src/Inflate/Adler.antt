-- ===== src/Inflate/Adler.antt =====
-- apps/api/src/inflate.ts: the zlib checksum, which takes the remainder once in 5552 bytes.
use open_relic.Prelude.{
  ℕ, zero, suc, ◌+◌, ◌*◌, ◌%◌, ◌^◌, ◌≤◌, ◌<◌, ◌≡◌, refl, ap, sym, ◌∙◌, bit_or, List, [], ◌∷◌, ◌++◌,
  take, drop, length, arith, All, length-take,
}
use open_relic.Prelude.Bits.{bit_or_high}

abbrev pub adler_modulus : ℕ
adler_modulus = 65521

-- The most bytes that are summed before a remainder is taken.
abbrev pub adler_run : ℕ
adler_run = 5552

-- The inner loop, over one run of bytes. The sums are exact: that they fit 32 bits is what `RunsFit` says.
unfoldable pub add_run : List ℕ → ℕ → ℕ → ℕ × ℕ
add_run [] low high = (low, high)
add_run (b ∷ bytes) low high = add_run bytes (low + b) (high + (low + b))

-- The outer loop. A round takes at least one byte, so that their number is fuel enough.
unfoldable pub adler_loop : ℕ → List ℕ → ℕ → ℕ → ℕ × ℕ
adler_loop zero bytes low high = (low, high)
adler_loop (suc fuel) [] low high = (low, high)
adler_loop (suc fuel) (b ∷ bytes) low high =
    let (low', high') = add_run (take adler_run (b ∷ bytes)) low high in
    adler_loop fuel (drop adler_run (b ∷ bytes)) (low' % adler_modulus) (high' % adler_modulus)

unfoldable pub adler32 : List ℕ → ℕ
adler32 bytes =
    let (low, high) = adler_loop (length bytes) bytes 1 0 in bit_or (high * 2 ^ 16 % 2 ^ 32) low

-- The checksum as RFC 1950 defines it, with a remainder by 65521 at every byte.
unfoldable pub summed : List ℕ → ℕ → ℕ → ℕ × ℕ
summed [] low high = (low, high)
summed (b ∷ bytes) low high = summed bytes ((low + b) % 65521) ((high + (low + b) % 65521) % 65521)

-- The sums at the end of each run, before their remainders are taken, fit 32 bits.
unfoldable pub RunsFit : ℕ → List ℕ → ℕ → ℕ → Type 0
RunsFit zero bytes low high = Unit {0}
RunsFit (suc fuel) [] low high = Unit {0}
RunsFit (suc fuel) (b ∷ bytes) low high =
    let sums = add_run (take adler_run (b ∷ bytes)) low high in
    (sums.0 < 2 ^ 32)
    × (sums.1 < 2 ^ 32)
    × RunsFit fuel (drop adler_run (b ∷ bytes)) (sums.0 % adler_modulus) (sums.1 % adler_modulus)

abbrev reduced : ℕ × ℕ → ℕ × ℕ
reduced (low, high) = (low % adler_modulus, high % adler_modulus)

-- Remainders on the way do not change the remainder in the end.
reduced-summed :
    (bytes : List ℕ) (low high : ℕ)
    → reduced (add_run bytes low high) ≡ summed bytes (low % adler_modulus) (high % adler_modulus)
unfolding add_run summed
reduced-summed [] low high = refl
reduced-summed (b ∷ bytes) low high =
    reduced-summed bytes (low + b) (high + (low + b))
    ∙ ap (λ (x : ℕ). summed bytes x ((high + (low + b)) % adler_modulus)) same_low
    ∙ ap (λ (x : ℕ). summed bytes ((low % adler_modulus + b) % adler_modulus) x) same_high
  where
    same_low : (low + b) % adler_modulus ≡ (low % adler_modulus + b) % adler_modulus
    same_low = omega arith

    same_high :
        (high + (low + b)) % adler_modulus
        ≡ (high % adler_modulus + (low % adler_modulus + b) % adler_modulus) % adler_modulus
    same_high = omega arith

summed-reduced :
    (bytes : List ℕ) (low high : ℕ)
    → low < adler_modulus
    → high < adler_modulus
    → ((summed bytes low high).0 < adler_modulus) × ((summed bytes low high).1 < adler_modulus)
unfolding summed
summed-reduced [] low high h k = (h, k)
summed-reduced (b ∷ bytes) low high h k = summed-reduced bytes _ _ (omega arith) (omega arith)

summed-append :
    (bytes more : List ℕ) (low high : ℕ)
    → summed (bytes ++ more) low high
      ≡ summed more (summed bytes low high).0 (summed bytes low high).1
unfolding summed
summed-append [] more low high = refl
summed-append (b ∷ bytes) more low high = summed-append bytes more _ _

take-drop : (n : ℕ) (bytes : List ℕ) → take n bytes ++ drop n bytes ≡ bytes
take-drop zero bytes = refl
take-drop (suc n) [] = refl
take-drop (suc n) (b ∷ bytes) = ap (λ (x : List ℕ). b ∷ x) (take-drop n bytes)

length-drop_bound : (n : ℕ) (bytes : List ℕ) → length (drop n bytes) ≤ length bytes
length-drop_bound zero bytes = omega arith
length-drop_bound (suc n) [] = omega arith
length-drop_bound (suc n) (b ∷ bytes) = let h = length-drop_bound n bytes in omega arith

-- The run of one round, reduced, is what the definition gives on the same bytes.
run-summed :
    (bytes : List ℕ) (low high : ℕ)
    → low < adler_modulus
    → high < adler_modulus
    → reduced (add_run bytes low high) ≡ summed bytes low high
run-summed bytes low high h k =
    reduced-summed bytes low high
    ∙ ap (λ (x : ℕ). summed bytes x (high % adler_modulus)) (omega arith)
    ∙ ap (λ (x : ℕ). summed bytes low x) (omega arith)

adler_loop-summed :
    (fuel : ℕ) (bytes : List ℕ) (low high : ℕ)
    → length bytes ≤ fuel
    → low < adler_modulus
    → high < adler_modulus
    → adler_loop fuel bytes low high ≡ summed bytes low high
unfolding adler_loop summed
adler_loop-summed zero [] low high f h k = refl
adler_loop-summed zero (b ∷ bytes) low high f h k = absurd (omega arith)
adler_loop-summed (suc fuel) [] low high f h k = refl
adler_loop-summed (suc fuel) (b ∷ bytes) low high f h k =
    let run = take adler_run (b ∷ bytes) in
    let rest = drop adler_run (b ∷ bytes) in
    let summed_run = run-summed run low high h k in
    let (h', k') = summed-reduced run low high h k in
    ap (λ (x : ℕ × ℕ). adler_loop fuel rest x.0 x.1) summed_run
    ∙ adler_loop-summed fuel rest (summed run low high).0 (summed run low high).1 (fewer f) h' k'
    ∙ sym (summed-append run rest low high)
    ∙ ap (λ (x : List ℕ). summed x low high) (take-drop adler_run (b ∷ bytes))
  where
    fewer : suc (length bytes) ≤ suc fuel → length (drop 5551 bytes) ≤ fuel
    fewer g = let l = length-drop_bound 5551 bytes in omega arith

-- What a run of bytes adds to the upper sum at most.
ramp : ℕ → ℕ → ℕ
ramp zero low = 0
ramp (suc n) low = low + 255 + ramp n (low + 255)

ramp_larger : (n m low low' : ℕ) → n ≤ m → low ≤ low' → ramp n low ≤ ramp m low'
unfolding ramp
ramp_larger zero m low low' h k = omega arith
ramp_larger (suc n) zero low low' h k = absurd (omega arith)
ramp_larger (suc n) (suc m) low low' h k =
    omega (arith, ramp_larger n m (low + 255) (low' + 255) (omega arith) (omega arith))

add_run_bound :
    (bytes : List ℕ) (low high : ℕ)
    → All (λ (b : ℕ). b < 256) bytes
    → ((add_run bytes low high).0 ≤ low + 255 * length bytes)
      × ((add_run bytes low high).1 ≤ high + ramp (length bytes) low)
unfolding add_run ramp
add_run_bound [] low high a = (omega arith, omega arith)
add_run_bound (b ∷ bytes) low high (h, a) =
    let (k, l) = add_run_bound bytes (low + b) (high + (low + b)) a in
    let m =
      ramp_larger (length bytes) (length bytes) (low + b) (low + 255) (omega arith) (omega arith) in
    (omega arith, omega arith)

-- 5552 is the most bytes for which this is so.
full_ramp : ramp 5552 65520 ≡ 4294624680
unfolding ramp
full_ramp = refl

take-All :
    (n : ℕ) (bytes : List ℕ)
    → All (λ (b : ℕ). b < 256) bytes
    → All (λ (b : ℕ). b < 256) (take n bytes)
take-All zero bytes a = tt
take-All (suc n) [] a = tt
take-All (suc n) (b ∷ bytes) (h, a) = (h, take-All n bytes a)

drop-All :
    (n : ℕ) (bytes : List ℕ)
    → All (λ (b : ℕ). b < 256) bytes
    → All (λ (b : ℕ). b < 256) (drop n bytes)
drop-All zero bytes a = a
drop-All (suc n) [] a = tt
drop-All (suc n) (b ∷ bytes) (h, a) = drop-All n bytes a

runs-RunsFit :
    (fuel : ℕ) (bytes : List ℕ) (low high : ℕ)
    → All (λ (b : ℕ). b < 256) bytes
    → low < 65521
    → high < 65521
    → RunsFit fuel bytes low high
unfolding RunsFit
runs-RunsFit zero bytes low high a h k = tt
runs-RunsFit (suc fuel) [] low high a h k = tt
runs-RunsFit (suc fuel) (b ∷ bytes) low high a h k =
    let run = take adler_run (b ∷ bytes) in
    let short : length run ≤ 5552 = omega (arith, length-take adler_run (b ∷ bytes)) in
    let (l, u) = add_run_bound run low high (take-All adler_run (b ∷ bytes) a) in
    let most = ramp_larger (length run) 5552 low 65520 short (omega arith) in
    (
      omega arith,
      omega (arith, full_ramp),
      runs-RunsFit fuel (drop adler_run (b ∷ bytes)) _ _ (drop-All adler_run (b ∷ bytes) a)
          (omega arith) (omega arith),
    )

-- Taking the remainder once in a run gives the checksum that RFC 1950 defines, with a remainder by 65521
-- at every byte, on any list of bytes; and no sum outgrows 32 bits before its remainder is taken.
pub adler32-summed :
    (bytes : List ℕ)
    → All (λ (b : ℕ). b < 256) bytes
    → (adler32 bytes ≡ (summed bytes 1 0).1 * 2 ^ 16 + (summed bytes 1 0).0)
      × RunsFit (length bytes) bytes 1 0
unfolding adler32
adler32-summed bytes a =
    let e = adler_loop-summed (length bytes) bytes 1 0 (omega arith) (omega arith) (omega arith) in
    let (h, k) = summed-reduced bytes 1 0 (omega arith) (omega arith) in
    let low = (summed bytes 1 0).0 in
    let high = (summed bytes 1 0).1 in
    let fits : high * 2 ^ 16 % 2 ^ 32 ≡ high * 2 ^ 16 = omega arith in
    (
      ap (λ (x : ℕ × ℕ). bit_or (x.1 * 2 ^ 16 % 2 ^ 32) x.0) e
          ∙ ap (λ (x : ℕ). bit_or x low) fits
          ∙ bit_or_high 16 high low (omega arith),
      runs-RunsFit (length bytes) bytes 1 0 a (omega arith) (omega arith),
    )
