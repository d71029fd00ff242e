-- ===== src/Prelude/Numbers.antt =====
-- JavaScript's numbers as text: `toString(16)` and `padStart`, on code units.
use Prim.Native.Nat.{ℕ, zero, suc, ◌+◌, ◌-◌, ◌/◌, ◌%◌, ◌<◌, ◌*◌}
use mathlib.Core.Path.{◌≡◌, refl}
use mathlib.Core.Bool.{Bool, true, ◌&&◌, ◌||◌}
use mathlib.Core.List.{List, [], ◌∷◌, ◌++◌}
use native.Mathlib.Omega.{arith}
use open_relic.Prelude.Tests.{ltb, leb, if◌then◌else◌}
use open_relic.Prelude.Lists.{length, replicate}

unfoldable pub hex_digit : ℕ → ℕ
hex_digit d = if ltb d 10 then 48 + d else 87 + d

-- The digits of `n` before `acc`. A digit for each unit of fuel.
hex_loop : ℕ → ℕ → List ℕ → List ℕ
hex_loop zero n acc = hex_digit n ∷ acc
hex_loop (suc fuel) n acc =
    let more = hex_loop fuel (n / 16) (hex_digit (n % 16) ∷ acc) in
    if ltb n 16 then hex_digit n ∷ acc else more

-- `n.toString(16)`: fourteen digits hold every safe integer.
unfoldable pub to_string_hex : ℕ → List ℕ
unfolding hex_loop
to_string_hex n = hex_loop 13 n []

-- `text.padStart(width, c)`, for a single code unit `c`.
abbrev pub pad_start : ℕ → ℕ → List ℕ → List ℕ
pad_start width c text = replicate (width - length text) c ++ text

-- The number that a hexadecimal digit stands for, in either case.
abbrev pub is_hex : ℕ → Bool
is_hex c = leb 48 c && leb c 57 || leb 97 c && leb c 102 || leb 65 c && leb c 70

abbrev pub hex_value : ℕ → ℕ
hex_value c = if leb 97 c then c - 87 else if leb 65 c then c - 55 else c - 48

-- `Number.parseInt(text, 16)` of a text of hexadecimal digits.
abbrev pub parse_hex : ℕ → List ℕ → ℕ
parse_hex n [] = n
parse_hex n (c ∷ cs) = parse_hex (n * 16 + hex_value c) cs

pub hex_value-hex_digit : (d : ℕ) → d < 16 → hex_value (hex_digit d) ≡ d
unfolding hex_digit
hex_value-hex_digit d h = ground arith

pub is_hex-hex_digit : (d : ℕ) → d < 16 → is_hex (hex_digit d) ≡ true
unfolding hex_digit
is_hex-hex_digit d h = ground arith

hex_digit-zero : hex_digit 0 ≡ 48
unfolding hex_digit
hex_digit-zero = refl

-- Two and four digits, leading zeros included.
pub pad_start-to_string_hex_two :
    (n : ℕ)
    → n < 256
    → pad_start 2 48 (to_string_hex n) ≡ hex_digit (n / 16) ∷ hex_digit (n % 16) ∷ []
unfolding to_string_hex
pad_start-to_string_hex_two n h = ground (arith, hex_digit-zero)

pub pad_start-to_string_hex_four :
    (n : ℕ)
    → n < 65536
    → pad_start 4 48 (to_string_hex n)
      ≡ hex_digit (n / 4096)
        ∷ hex_digit (n / 256 % 16)
        ∷ hex_digit (n / 16 % 16)
        ∷ hex_digit (n % 16)
        ∷ []
unfolding to_string_hex
pad_start-to_string_hex_four n h = ground (arith, hex_digit-zero)

-- `String(n)`: sixteen digits hold every safe integer.
decimal_loop : ℕ → ℕ → List ℕ → List ℕ
decimal_loop zero n acc = (48 + n) ∷ acc
decimal_loop (suc fuel) n acc =
    let more = decimal_loop fuel (n / 10) ((48 + n % 10) ∷ acc) in
    if ltb n 10 then (48 + n) ∷ acc else more

unfoldable pub to_string_decimal : ℕ → List ℕ
unfolding decimal_loop
to_string_decimal n = decimal_loop 15 n []
