-- ===== src/Prelude/Strings.antt =====
-- The methods of JavaScript's strings that the program calls, on lists of code units.
use Prim.Native.Nat.{ℕ, ◌-◌, ◌<◌}
use mathlib.Core.Path.{◌≡◌, refl}
use mathlib.Core.Logic.{inl, inr}
use native.Mathlib.Omega.{arith}
use mathlib.Core.List.{List, [], ◌∷◌, ◌++◌}
use mathlib.Core.Bool.{Bool, false, ◌&&◌, ◌||◌}
use open_relic.Prelude.Tests.{◌==◌, leb, if◌then◌else◌, Bool-cases}
use open_relic.Prelude.Lists.{All, length, drop}
use open_relic.Prelude.Codes.{Text, text_eq, starts_with}

-- What the program relies on TextDecoder for: ASCII is UTF-8 for itself.
abbrev pub IsDecoder : (List ℕ → Text) → Type 0
IsDecoder decode = (bytes : List ℕ) → All (λ (b : ℕ). b < 128) bytes → decode bytes ≡ bytes

-- `text.endsWith(suffix)`.
unfoldable pub ends_with : Text → Text → Bool
ends_with text suffix =
    leb (length suffix) (length text) && text_eq (drop (length text - length suffix) text) suffix

-- `text.includes(part)`.
unfoldable pub includes : Text → Text → Bool
includes [] part = starts_with [] part
includes (c ∷ text) part = starts_with (c ∷ text) part || includes text part

abbrev pub in_front : ℕ → List Text → List Text
in_front c [] = (c ∷ []) ∷ []
in_front c (piece ∷ pieces) = (c ∷ piece) ∷ pieces

-- `text.split(separator)`, for a separator of one code unit.
unfoldable pub split : ℕ → Text → List Text
split separator [] = [] ∷ []
split separator (c ∷ text) =
    let pieces = split separator text in if c == separator then [] ∷ pieces else in_front c pieces

-- `list.includes(text)`.
unfoldable pub member : Text → List Text → Bool
member text [] = false
member text (t ∷ ts) = text_eq t text || member text ts

pub split-cons :
    (separator : ℕ) (a : Text) → (h : Text) × (t : List Text) × (split separator a ≡ h ∷ t)
unfolding split
split-cons separator [] = ([], [], refl)
split-cons separator (c ∷ a) =
    let (h, t, e) = split-cons separator a in
    elim (Bool-cases (c == separator)) [
      | inl same ↦ rw same ([], split separator a, refl)
      | inr other ↦ rw (other, e) (c ∷ h, t, refl)
    ]

-- Splitting at a separator that is there.
pub split-append :
    (separator : ℕ) (a b : Text)
    → split separator (a ++ (separator ∷ b)) ≡ split separator a ++ split separator b
unfolding split
split-append separator [] b = ground arith
split-append separator (c ∷ a) b =
    let (h, t, e) = split-cons separator a in
    elim (Bool-cases (c == separator)) [
      | inl same ↦ rw (same, split-append separator a b) refl
      | inr other ↦ rw (other, split-append separator a b, e) refl
    ]

-- The code units that `trim` takes off: those of WhiteSpace and of LineTerminator.
abbrev pub is_space : ℕ → Bool
is_space c =
    (leb 0x09 c && leb c 0x0d)
    || c == 0x20
    || c == 0xa0
    || c == 0x1680
    || (leb 0x2000 c && leb c 0x200a)
    || c == 0x2028
    || c == 0x2029
    || c == 0x202f
    || c == 0x205f
    || c == 0x3000
    || c == 0xfeff

unfoldable pub trim_start : Text → Text
trim_start [] = []
trim_start (c ∷ text) = let rest = trim_start text in if is_space c then rest else c ∷ text

unfoldable pub trim_end : Text → Text
trim_end [] = []
trim_end (c ∷ text) =
    let rest = trim_end text in if length rest == 0 && is_space c then [] else c ∷ rest

-- `text.trim()`.
unfoldable pub trim : Text → Text
trim text = trim_end (trim_start text)

module _ (P : ℕ → Type 0) where
  trim_start-All : (text : Text) → All P text → All P (trim_start text)
  unfolding trim_start
  trim_start-All [] h = h
  trim_start-All (c ∷ text) (h, hs) = elim (Bool-cases (is_space c)) [
    | inl space ↦ rw space (trim_start-All text hs)
    | inr other ↦ rw other (h, hs)
  ]

  trim_end-All : (text : Text) → All P text → All P (trim_end text)
  unfolding trim_end
  trim_end-All [] h = h
  trim_end-All (c ∷ text) (h, hs) = elim (Bool-cases (length (trim_end text) == 0 && is_space c)) [
    | inl space ↦ rw space tt
    | inr other ↦ rw other (h, trim_end-All text hs)
  ]

  pub trim-All : (text : Text) → All P text → All P (trim text)
  unfolding trim
  trim-All text h = trim_end-All (trim_start text) (trim_start-All text h)
