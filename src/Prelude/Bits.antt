-- ===== src/Prelude/Bits.antt =====
-- `&`, `|` and shifts as arithmetic: on one byte by evaluation, of disjoint fields at every width.
use Prim.Native.Nat.{ℕ, zero, suc, ◌+◌, ◌*◌, ◌/◌, ◌%◌, ◌^◌, ◌≤◌, ◌<◌, bit_and, bit_or, max}
use Prim.Native.Nat.{digits, bitwise, bit_or-bitwise, bit_and-bitwise, min}
use mathlib.Core.Path.{◌≡◌, refl, ap, sym, ◌∙◌}
use mathlib.Core.Bool.{Bool, true, false}
use mathlib.Core.Logic.{ite}
use native.Mathlib.Decide.{ℕ_discrete}
use native.Mathlib.Nat.{le_refl, pow-suc}
use native.Mathlib.Omega.{arith}

module _ (f g : ℕ → ℕ) where
  agree_below : ℕ → Bool
  unfolding ℕ_discrete
  agree_below zero = true
  agree_below (suc n) = ite (ℕ_discrete (f n) (g n)) (agree_below n) false

  agree_below→eq : (n : ℕ) → agree_below n ≡ true → (i : ℕ) → i < n → f i ≡ g i
  unfolding agree_below
  agree_below→eq zero e i h = absurd (omega arith)
  agree_below→eq (suc n) e i h = ground (arith, agree_below→eq n (ground arith) i)

pub low_seven_bits : (b : ℕ) → b < 256 → bit_and b 0x7f ≡ b % 128
unfolding agree_below
low_seven_bits = agree_below→eq _ _ 256 refl

pub top_bit : (b : ℕ) → b < 256 → bit_and b 0x80 ≡ b / 128 * 128
unfolding agree_below
top_bit = agree_below→eq _ _ 256 refl

-- Any fuel that reaches the top digit of the left number gives the same digits.
module _ (right : ℕ → ℕ) (joins : ℕ → ℕ → ℕ) where
  nothing_left : (fuel b : ℕ) → digits right joins fuel 0 b ≡ right b
  nothing_left zero b = refl
  nothing_left (suc fuel) b = refl

  spare_fuel :
      (a less more b : ℕ)
      → a ≤ less
      → a ≤ more
      → digits right joins more a b ≡ digits right joins less a b
  spare_fuel zero less more b h k = nothing_left more b ∙ sym (nothing_left less b)
  spare_fuel (suc a) zero more b h k = absurd (omega arith)
  spare_fuel (suc a) (suc less) zero b h k = absurd (omega arith)
  spare_fuel (suc a) (suc less) (suc more) b h k =
      ap (λ (upper : ℕ). upper * 2 + joins (suc a % 2) (b % 2))
        (spare_fuel (suc a / 2) less more (b / 2) (omega arith) (omega arith))

  low_digit :
      (a b : ℕ)
      → bitwise right joins (suc a) b
        ≡ bitwise right joins (suc a / 2) (b / 2) * 2 + joins (suc a % 2) (b % 2)
  low_digit a b =
      ap (λ (upper : ℕ). upper * 2 + joins (suc a % 2) (b % 2))
        (spare_fuel (suc a / 2) (suc a / 2) a (b / 2) (le_refl _) (omega arith))

bit_or-halves : (n b : ℕ) → bit_or n b ≡ max (n % 2) (b % 2) + 2 * bit_or (n / 2) (b / 2)
bit_or-halves zero b = simp bit_or-bitwise (omega arith)
bit_or-halves (suc a) b = simp bit_or-bitwise (omega (arith, low_digit (λ y. y) max a b))

zero-bit_or : (b : ℕ) → bit_or 0 b ≡ b
zero-bit_or b = simp bit_or-bitwise refl

shifted_twice : (q k : ℕ) → q * 2 ^ suc k ≡ q * 2 ^ k + q * 2 ^ k
shifted_twice q k = omega (arith, ap (λ (power : ℕ). q * power) (pow-suc 2 k))

-- Halving a number whose field is shifted by one bit more.
halves : (q k : ℕ) → (q * 2 ^ suc k / 2 ≡ q * 2 ^ k) × (q * 2 ^ suc k % 2 ≡ 0)
halves q k = omega (arith, shifted_twice q k)

-- `r | (q << k)` is a sum when `r` fits `k` bits.
pub bit_or_fields : (k q r : ℕ) → r < 2 ^ k → bit_or r (q * 2 ^ k) ≡ r + q * 2 ^ k
bit_or_fields zero q r fits =
    let e : r ≡ 0 = omega arith in ground (arith, zero-bit_or (q * 2 ^ zero))
bit_or_fields (suc k) q r fits =
    let low = bit_or_fields k q (r / 2) (omega (arith, pow-suc 2 k)) in
    let (upper, even) = halves q k in
    ground (arith, upper, even, low, shifted_twice q k, bit_or-halves r (q * 2 ^ suc k))

-- One bit of a byte. The masks that the program tests are powers of two.
bit_table :
    (k : ℕ) → k < 8 → agree_below (λ b. bit_and b (2 ^ k)) (λ b. b / 2 ^ k % 2 * 2 ^ k) 256 ≡ true
unfolding agree_below
bit_table zero p = refl
bit_table (suc zero) p = refl
bit_table (suc (suc zero)) p = refl
bit_table (suc (suc (suc zero))) p = refl
bit_table (suc (suc (suc (suc zero)))) p = refl
bit_table (suc (suc (suc (suc (suc zero))))) p = refl
bit_table (suc (suc (suc (suc (suc (suc zero)))))) p = refl
bit_table (suc (suc (suc (suc (suc (suc (suc zero))))))) p = refl
bit_table (suc (suc (suc (suc (suc (suc (suc (suc k)))))))) p = absurd (omega arith)

pub test_bit : (k b : ℕ) → k < 8 → b < 256 → bit_and b (2 ^ k) ≡ b / 2 ^ k % 2 * 2 ^ k
test_bit k b p q =
    agree_below→eq (λ x. bit_and x (2 ^ k)) (λ x. x / 2 ^ k % 2 * 2 ^ k) 256 (bit_table k p) b q

bit_or_zero_fuel : (n a : ℕ) → a ≤ n → bit_or a 0 ≡ a
bit_or_zero_fuel n zero h = refl
bit_or_zero_fuel zero (suc a) h = absurd (omega arith)
bit_or_zero_fuel (suc n) (suc a) h =
    omega (arith, bit_or-halves (suc a) 0, bit_or_zero_fuel n (suc a / 2) (omega arith))

bit_or_low_zero : (a : ℕ) → bit_or a 0 ≡ a
bit_or_low_zero a = bit_or_zero_fuel a a (omega arith)

-- The same with the shifted field in front.
pub bit_or_high : (k q r : ℕ) → r < 2 ^ k → bit_or (q * 2 ^ k) r ≡ q * 2 ^ k + r
bit_or_high zero q r fits = let e : r ≡ 0 = omega arith in ground (arith, bit_or_low_zero q)
bit_or_high (suc k) q r fits =
    let low = bit_or_high k q (r / 2) (omega (arith, pow-suc 2 k)) in
    let (upper, even) = halves q k in
    ground (arith, upper, even, low, shifted_twice q k, bit_or-halves (q * 2 ^ suc k) r)

pub low_three_bits : (b : ℕ) → b < 256 → bit_and b 7 ≡ b % 8
unfolding agree_below
low_three_bits = agree_below→eq _ _ 256 refl

pub low_four_bits : (b : ℕ) → b < 256 → bit_and b 15 ≡ b % 16
unfolding agree_below
low_four_bits = agree_below→eq _ _ 256 refl

above : (k a b : ℕ) → a ≤ k → a ≤ bit_or a b
above zero a b h = omega arith
above (suc k) a b h =
    let upper = above k (a / 2) (b / 2) (omega arith) in ground (arith, bit_or-halves a b, upper)

-- `a | b` has every bit of `a`.
pub bit_or_above : (a b : ℕ) → a ≤ bit_or a b
bit_or_above a b = above a a b (omega arith)

digits_small : (n a b : ℕ) → digits (λ b. 0) min n a b ≤ b
digits_small zero a b = omega arith
digits_small (suc n) zero b = omega arith
digits_small (suc n) (suc a) b = omega (arith, digits_small n (suc a / 2) (b / 2))

pub bit_and_small : (a b : ℕ) → bit_and a b ≤ b
bit_and_small a b = simp bit_and-bitwise (digits_small a a b)
