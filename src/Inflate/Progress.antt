-- ===== src/Inflate/Progress.antt =====
-- How far each read goes: forward, and never past the input.
use open_relic.Prelude.{
  get_elem?, ℕ, zero, suc, ◌+◌, ◌-◌, ◌*◌, ◌%◌, ◌≤◌, ◌≡◌, refl, ap, ◌∙◌, min, bit_or, List, [], ◌∷◌,
  Bool, true, false, length, ltb, ◌==◌, if◌then◌else◌, arith, Bool-cases, Option-cases, inl, inr,
}
use open_relic.Inflate.Huffman.{Huffman, element}
use open_relic.Inflate.Reader.{
  Inflater, Corruption, Read, got, need_input, corrupt, Action, ◌>>=◌, resume, gives, throw, bits,
  bits_loop, align, write, write_byte,
}
use open_relic.Inflate.Decoding.{
  decode, decode_loop, symbol_at, read_code_lengths, fill, read_repeat, read_lengths,
  read_dynamic_tables,
}

-- The read went on by `least` bits at least, over the same input. It stays inside of the input, and
-- is inside of it once it has read a bit.
pub record Moved (least : ℕ) (s t : Inflater) : Type 0 where
  pub input_same : t.input ≡ s.input
  pub forward : s.bit_at + least ≤ t.bit_at
  pub inside : s.bit_at ≤ length s.input * 8 → t.bit_at ≤ length s.input * 8
  pub ends : 1 ≤ least → t.bit_at ≤ length s.input * 8

unfoldable pub Behaves {ℓ} : {A : Type ℓ} → ℕ → Inflater → Inflater × Read A → Type 0
Behaves least s (t, got a) = Moved least s t
Behaves least s (t, need_input) = Unit {0}
Behaves least s (t, corrupt c) = Unit {0}

unfoldable pub Moves {ℓ} : {A : Type ℓ} → ℕ → Action A → Type 0
Moves least m = (s : Inflater) → Behaves least s (m s)

pub still : (s t : Inflater) → t.input ≡ s.input → t.bit_at ≡ s.bit_at → Moved 0 s t
still s t e f = record {
  input_same = e;
  forward = omega arith;
  inside = λ h. omega arith;
  ends = λ h. absurd (omega arith);
}

Moved-trans : (i j : ℕ) (s t u : Inflater) → Moved i s t → Moved j t u → Moved (i + j) s u
Moved-trans i j s t u m n =
    let same = ap (λ (x : List ℕ). length x * 8) m.input_same in
    let f = m.forward in
    let g = n.forward in
    record {
      input_same = n.input_same ∙ m.input_same;
      forward = omega arith;
      inside = λ h. let k = m.inside h in let l = n.inside (omega arith) in omega arith;
      ends = λ h. reached h same (ltb 0 j) refl;
    }
  where
    reached :
        1 ≤ i + j
        → length t.input * 8 ≡ length s.input * 8
        → (b : Bool) → ltb 0 j ≡ b
        → u.bit_at ≤ length s.input * 8
    reached h same true e = let l = n.ends (ground arith) in omega arith
    reached h same false e =
        let k = m.ends (ground arith) in let l = n.inside (omega arith) in omega arith

pub Moved-weaken : (i j : ℕ) (s t : Inflater) → i ≤ j → Moved j s t → Moved i s t
Moved-weaken i j s t h m =
    let f = m.forward in
    record {
      input_same = m.input_same;
      forward = omega arith;
      inside = m.inside;
      ends = λ k. m.ends (omega arith);
    }

resume-Behaves {ℓ κ} :
    {A : Type ℓ} {B : Type κ} (i j : ℕ) (more : A → Action B) (s : Inflater) (r : Inflater × Read A)
    → ((a : A) → Moves j (more a))
    → Behaves i s r
    → Behaves (i + j) s (resume more r)
unfolding Moves resume Behaves
resume-Behaves i j more s (t, need_input) h m = tt
resume-Behaves i j more s (t, corrupt c) h m = tt
resume-Behaves {B = B} i j more s (t, got a) h m = after (more a t) (h a t)
  where
    after : (r : Inflater × Read B) → Behaves j t r → Behaves (i + j) s r
    after (u, got b) n = Moved-trans i j s t u m n
    after (u, need_input) n = tt
    after (u, corrupt c) n = tt

pub >>=-Moves {ℓ κ} :
    {A : Type ℓ} {B : Type κ} (i j : ℕ) (m : Action A) (more : A → Action B)
    → Moves i m
    → ((a : A) → Moves j (more a))
    → Moves (i + j) (m >>= more)
unfolding Moves
>>=-Moves i j m more h k s = resume-Behaves i j more s (m s) k (h s)

pub gives-Moves {ℓ} : {A : Type ℓ} (a : A) → Moves 0 (gives a)
unfolding Moves Behaves
gives-Moves a s = still s s refl refl

pub throw-Moves {ℓ} : (A : Type ℓ) (i : ℕ) (c : Corruption) → Moves {A = A} i (throw c)
unfolding Moves Behaves
throw-Moves A i c s = tt

pub if-Moves {ℓ} :
    {A : Type ℓ} (i : ℕ) (b : Bool) (m n : Action A)
    → Moves i m
    → Moves i n
    → Moves i (if b then m else n)
if-Moves i true m n h k = h
if-Moves i false m n h k = k

-- A round takes a bit at least, so that `count` rounds read `count` bits.
bits_loop-at :
    (rounds : ℕ) (input : List ℕ) (count filled at value : ℕ)
    → count ≤ filled + rounds
    → filled ≤ count
    → (bits_loop rounds input count filled at value).1 ≡ at + (count - filled)
unfolding bits_loop
bits_loop-at zero input count filled at value h k = omega arith
bits_loop-at (suc rounds) input count filled at value h k = elim (Bool-cases (ltb filled count)) [
  | inl more ↦
      let taken = min (8 - at % 8) (count - filled) in
      let rest =
        bits_loop-at rounds input count (filled + taken) (at + taken) _ (ground arith)
          (ground arith) in
      rw (bits_loop, more) (rest ∙ ground arith)
  | inr over ↦ rw (bits_loop, over) (ground arith)
]

pub bits-Moves : (count : ℕ) → Moves count (bits count)
unfolding Moves bits Behaves
bits-Moves count s = elim (Bool-cases (count == 0)) [
  | inl nothing ↦ rw (bits, nothing) (Moved-weaken count 0 s s (ground arith) (still s s refl refl))
  | inr wanted ↦ elim (Bool-cases (ltb (length s.input * 8) (s.bit_at + count))) [
    | inl short ↦ rw (bits, wanted, short) tt
    | inr enough ↦
        let e = bits_loop-at count s.input count 0 s.bit_at 0 (omega arith) (omega arith) in
        rw (bits, wanted, enough)
          (record {
            input_same = refl;
            forward = omega arith;
            inside = λ h. ground arith;
            ends = λ h. ground arith;
          })
  ]
]

pub align-Moves : Moves 0 align
unfolding Moves align Behaves
align-Moves s = record {
  input_same = refl;
  forward = omega arith;
  inside = λ h. omega arith;
  ends = λ h. absurd (omega arith);
}

pub write-Moves : (bytes : List ℕ) → Moves 0 (write bytes)
unfolding Moves write Behaves
write-Moves bytes s = elim (Bool-cases (ltb s.size (length s.written + length bytes))) [
  | inl over ↦ rw (write, over) tt
  | inr fits ↦ rw (write, fits) (still s _ refl refl)
]

pub write_byte-Moves : (byte : ℕ) → Moves 0 (write_byte byte)
unfolding Moves write_byte Behaves
write_byte-Moves byte s = elim (Bool-cases (ltb (length s.written) s.size)) [
  | inr over ↦ rw (write_byte, over) tt
  | inl fits ↦ rw (write_byte, fits) (still s _ refl refl)
]

pub lower {ℓ} : {A : Type ℓ} (i j : ℕ) (m : Action A) → j ≤ i → Moves i m → Moves j m
unfolding Moves Behaves
lower {A = A} i j m k h s = go (m s) (h s)
  where
    go : (r : Inflater × Read A) → Behaves i s r → Behaves j s r
    go (t, got a) n = Moved-weaken j i s t k n
    go (t, need_input) n = tt
    go (t, corrupt c) n = tt

pub weaker {ℓ} : {A : Type ℓ} (i : ℕ) (m : Action A) → Moves i m → Moves 0 m
weaker i m h = lower i 0 m (omega arith) h

symbol_at-Moves : (symbols : List ℕ) (i : ℕ) → Moves 0 (symbol_at symbols i)
unfolding symbol_at
symbol_at-Moves symbols i = elim (Option-cases (get_elem? symbols i)) [
  | inl past ↦ rw (symbol_at, past) (throw-Moves _ 0 _)
  | inr (symbol, there) ↦ rw (symbol_at, there) (gives-Moves _)
]

decode_loop-Moves :
    (rounds at : ℕ) (table : Huffman) (code first index : ℕ)
    → Moves 1 (decode_loop rounds at table code first index)
unfolding decode_loop
decode_loop-Moves zero at table code first index = throw-Moves _ 1 _
decode_loop-Moves (suc rounds) at table code first index =
    >>=-Moves 1 0 (bits 1) _ (bits-Moves 1) (λ bit.
      if-Moves 0 (ltb (bit_or code bit) (first + element table.counts at)) _ _ (symbol_at-Moves _ _)
        (weaker 1 _ (decode_loop-Moves rounds (at + 1) table _ _ _)))

pub decode-Moves : (table : Huffman) → Moves 1 (decode table)
unfolding decode
decode-Moves table = decode_loop-Moves _ 1 table 0 0 0

read_code_lengths-Moves : (order lengths : List ℕ) → Moves 0 (read_code_lengths order lengths)
unfolding read_code_lengths
read_code_lengths-Moves [] lengths = gives-Moves _
read_code_lengths-Moves (symbol ∷ order) lengths =
    weaker 3 _ (>>=-Moves 3 0 (bits 3) _ (bits-Moves 3) (λ l. read_code_lengths-Moves order _))

fill-Moves :
    (total value : ℕ) (filled : List ℕ) (repeat : ℕ) → Moves 0 (fill total value filled repeat)
unfolding fill
fill-Moves total value filled repeat =
    if-Moves 0 (ltb total (length filled + repeat)) _ _ (throw-Moves _ 0 _) (gives-Moves _)

run-Moves :
    (total : ℕ) (filled : List ℕ) (n value : ℕ) (from : ℕ → ℕ)
    → Moves 0 (bits n >>= (λ extra. fill total value filled (from extra)))
run-Moves total filled n value from =
    weaker (n + 0) _ (
      >>=-Moves n 0 (bits n) _ (bits-Moves n) (λ extra. fill-Moves total value filled (from extra)))

read_repeat-Moves :
    (total : ℕ) (filled : List ℕ) (symbol : ℕ) → Moves 0 (read_repeat total filled symbol)
unfolding read_repeat
read_repeat-Moves total filled symbol =
    let runs = run-Moves total filled in
    if-Moves 0 (ltb symbol 16) _ _ (gives-Moves _) (
      if-Moves 0 (symbol == 16) _ _
        (if-Moves 0 (length filled == 0) _ _ (throw-Moves _ 0 _) (runs 2 _ (λ e. 3 + e)))
        (if-Moves 0 (symbol == 17) _ _ (runs 3 0 (λ e. 3 + e)) (runs 7 0 (λ e. 11 + e))))

read_lengths-Moves :
    (rounds total : ℕ) (table : Huffman) (filled : List ℕ)
    → Moves 0 (read_lengths rounds total table filled)
unfolding read_lengths
read_lengths-Moves zero total table filled = gives-Moves _
read_lengths-Moves (suc rounds) total table filled =
    if-Moves 0 (ltb (length filled) total) _ _
      (weaker 1 _ (
        >>=-Moves 1 0 _ _ (>>=-Moves 1 0 _ _ (decode-Moves table) (read_repeat-Moves total filled))
          (read_lengths-Moves rounds total table)))
      (gives-Moves _)

pub read_dynamic_tables-Moves : Moves 0 read_dynamic_tables
unfolding read_dynamic_tables
read_dynamic_tables-Moves = weaker 14 _ (
    >>=-Moves 5 9 _ _ (bits-Moves 5) (λ literals. >>=-Moves 5 4 _ _ (bits-Moves 5) (λ distances.
      >>=-Moves 4 0 _ _ (bits-Moves 4) (λ codes.
        >>=-Moves 0 0 _ _ (read_code_lengths-Moves _ _) (λ code_lengths.
          >>=-Moves 0 0 _ _ (read_lengths-Moves _ _ _ _) (λ lengths. gives-Moves _))))))

-- What only changes other fields of the state does not move.
pub field-Moves {ℓ} :
    {A : Type ℓ} (f : Inflater → Inflater) (g : Inflater → A)
    → ((s : Inflater) → (f s).input ≡ s.input)
    → ((s : Inflater) → (f s).bit_at ≡ s.bit_at)
    → Moves 0 (λ s. (f s, got (g s)))
unfolding Moves Behaves
field-Moves f g h k s = still s (f s) (h s) (k s)
