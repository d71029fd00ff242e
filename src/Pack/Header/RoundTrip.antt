-- ===== src/Pack/Header/RoundTrip.antt =====
-- Every header that Git writes for an object within the limit is read back.
use open_relic.Prelude.{
  ℕ, zero, suc, ◌+◌, ◌*◌, ◌/◌, ◌%◌, ◌^◌, ◌≤◌, ◌<◌, ◌≡◌, refl, sym, ap, ◌∙◌, bit_and, true, false,
  List, [], ◌∷◌, ◌++◌, length, take, drop, ltb, ◌==◌, if◌then◌else◌, arith, Result, ok, err,
  length-drop, drop-drop, Bool-cases, inl, inr,
}
use open_relic.Prelude.Bits.{low_seven_bits, top_bit, low_three_bits, low_four_bits}
use open_relic.GitObject.{max_object_bytes}
use open_relic.Delta.Format.{encode_size}
use open_relic.Delta.Sizes.{regroup}
use open_relic.Pack.{Fault}
use open_relic.Pack.Stream.{PackStream, take_bytes}
use open_relic.Pack.Stream.Laws.{IsStream}
use open_relic.Pack.Stream.Reading.{Takes, take_bytes-Takes}
use open_relic.Pack.Header.{next_byte, first_byte, size_loop, size_rounds, read_entry_header}
use open_relic.Delta.{is_safe_integer}

-- The stream carries `whole`, and these bytes of it are still to be read.
abbrev pub StreamAt : List ℕ → List ℕ → PackStream → Type 0
StreamAt whole bytes s = IsStream whole s × (drop s.position whole ≡ bytes)

next_byte_from :
    (whole : List ℕ) (b : ℕ) (bytes : List ℕ) (s : PackStream)
    → drop s.position whole ≡ b ∷ bytes
    → (r : Result Fault (List ℕ × PackStream)) → take_bytes 1 s ≡ r
    → Takes whole 1 s r
    → (t : PackStream) × (next_byte s ≡ ok (b, t)) × StreamAt whole bytes t
unfolding next_byte
next_byte_from whole b bytes s e (ok (front, t)) answer (within, same, h, moved) = (
  t,
  rw answer (ap (λ f. ok (first_byte f, t)) (same ∙ ap (λ x. take 1 x) e)),
  (h, ap (λ n. drop n whole) moved ∙ sym (drop-drop 1 s.position whole) ∙ ap (λ x. drop 1 x) e),
)
next_byte_from whole b bytes s e (err f) answer (refused, short) =
    absurd (omega (arith, ap length e, length-drop s.position whole))

pub next_byte-StreamAt :
    (whole : List ℕ) (b : ℕ) (bytes : List ℕ) (s : PackStream)
    → StreamAt whole (b ∷ bytes) s
    → (t : PackStream) × (next_byte s ≡ ok (b, t)) × StreamAt whole bytes t
next_byte-StreamAt whole b bytes s (h, e) =
    next_byte_from whole b bytes s e (take_bytes 1 s) refl (take_bytes-Takes whole 1 s h)

is_safe : (shift size : ℕ) → shift < 1024 → size < 2 ^ 53 → is_safe_integer shift size ≡ true
unfolding is_safe_integer
is_safe shift size h k = ground arith

-- A round on a byte with the top bit set, and the end on one without.
size_loop-more :
    (whole : List ℕ) (fuel byte size shift b : ℕ) (bytes : List ℕ) (s : PackStream)
    → StreamAt whole (b ∷ bytes) s
    → 128 ≤ byte
    → byte < 256
    → b < 256
    → shift < 1024
    → size + b % 128 * 2 ^ shift < 2 ^ 53
    → (t : PackStream) × (size_loop (suc fuel) byte size shift s
        ≡ size_loop fuel b (size + b % 128 * 2 ^ shift) (shift + 7) t)
      × StreamAt whole bytes t
unfolding size_loop
size_loop-more whole fuel byte size shift b bytes s at hi lt hb hs fits =
    let (t, e, at') = next_byte-StreamAt whole b bytes s at in
    let low : bit_and b 0x7f ≡ b % 128 = low_seven_bits b hb in
    let continued : (bit_and byte 0x80 == 0) ≡ false = ground (arith, top_bit byte) in
    (t, rw (continued, e, low, is_safe shift (size + b % 128 * 2 ^ shift) hs fits), at')

size_loop-done :
    (fuel byte size shift : ℕ) (s : PackStream)
    → byte < 128
    → size_loop (suc fuel) byte size shift s ≡ ok (size, s)
unfolding size_loop
size_loop-done fuel byte size shift s h = ground (arith, top_bit byte)

last_size_byte :
    (whole : List ℕ) (fuel byte v size shift : ℕ) (rest : List ℕ) (s : PackStream)
    → StreamAt whole (v ∷ rest) s
    → 128 ≤ byte
    → byte < 256
    → v < 128
    → shift < 1024
    → size + v * 2 ^ shift < 2 ^ 53
    → (t : PackStream) × (size_loop (suc (suc fuel)) byte size shift s
        ≡ ok (size + v * 2 ^ shift, t))
      × StreamAt whole rest t
last_size_byte whole fuel byte v size shift rest s at hi lt hv hs fits =
    let same : v % 128 ≡ v = omega arith in
    let (t, e, at') =
      size_loop-more whole (suc fuel) byte size shift v rest s at hi lt (omega arith) hs
        (rw same fits) in
    (t, e ∙ size_loop-done fuel v _ _ t hv ∙ ap (λ x. ok (size + x * 2 ^ shift, t)) same, at')

-- `v` is what is left of the size, and it counts from bit `shift` on.
size_loop-encode_size :
    (whole : List ℕ) (k rounds byte v size shift : ℕ) (rest : List ℕ) (s : PackStream)
    → StreamAt whole (encode_size k v ++ rest) s
    → k + 2 ≤ rounds
    → 128 ≤ byte
    → byte < 256
    → v < 128 ^ suc k
    → shift + 7 * k < 1024
    → size + v * 2 ^ shift < 2 ^ 53
    → (t : PackStream) × (size_loop rounds byte size shift s ≡ ok (size + v * 2 ^ shift, t))
      × StreamAt whole rest t
unfolding encode_size
size_loop-encode_size whole k zero byte v size shift rest s at hr hi lt hv hs fits =
    absurd (omega arith)
size_loop-encode_size whole k (suc zero) byte v size shift rest s at hr hi lt hv hs fits =
    absurd (omega arith)
size_loop-encode_size whole zero (suc (suc n)) byte v size shift rest s at hr hi lt hv hs fits =
    last_size_byte whole n byte v size shift rest s at hi lt (omega arith) (omega arith) fits
size_loop-encode_size whole (suc k) (suc (suc n)) byte v size shift rest s at hr hi lt hv hs fits =
    elim (Bool-cases (ltb v 128)) [
      | inl small ↦
          last_size_byte whole n byte v size shift rest s (rw small at at) hi lt (ground arith)
            (omega arith) fits
      | inr large ↦
          let g = v % 128 + 128 in
          let low : g % 128 ≡ v % 128 = omega arith in
          let whole_size = regroup v shift in
          let (t, e, at') =
            size_loop-more whole (suc n) byte size shift g (encode_size k (v / 128) ++ rest) s
              (rw large at at) hi lt (omega arith) (omega arith) (rw low (omega arith)) in
          let (u, e', at'') =
            size_loop-encode_size whole k (suc n) g (v / 128) (size + g % 128 * 2 ^ shift)
              (shift + 7) rest t at' (omega arith) (omega arith) (omega arith) (omega arith)
              (omega arith) (rw low (omega arith)) in
          let total : size + g % 128 * 2 ^ shift + v / 128 * 2 ^ (shift + 7)
              ≡ size + v * 2 ^ shift =
            rw low (omega arith) in
          (u, e ∙ e' ∙ ap (λ x. ok (x, u)) total, at'')
    ]

-- How Git writes the header of an entry: the kind and the four low bits of the size, then the rest
-- of the size in groups of seven bits.
unfoldable pub encode_entry_header : ℕ → ℕ → List ℕ
encode_entry_header kind size =
    if ltb size 16
    then (kind * 16 + size) ∷ []
    else (128 + kind * 16 + size % 16) ∷ encode_size 3 (size / 16)

header_bits :
    (byte kind low : ℕ)
    → byte < 256
    → byte / 16 % 8 ≡ kind
    → byte % 16 ≡ low
    → (bit_and (byte / 16) 7 ≡ kind) × (bit_and byte 15 ≡ low)
header_bits byte kind low h e e' =
    (low_three_bits (byte / 16) (omega arith) ∙ e, low_four_bits byte h ∙ e')

assembled :
    (byte kind low size : ℕ) (s t u : PackStream)
    → next_byte s ≡ ok (byte, t)
    → bit_and (byte / 16) 7 ≡ kind
    → bit_and byte 15 ≡ low
    → size_loop size_rounds byte low 4 t ≡ ok (size, u)
    → size ≤ max_object_bytes
    → read_entry_header s ≡ ok (record { kind = kind; size = size }, u)
unfolding read_entry_header
assembled byte kind low size s t u e k l loop fits =
    let small : ltb max_object_bytes size ≡ false = ground arith in rw (e, k, l, loop, small)

read_small :
    (whole : List ℕ) (kind size : ℕ) (rest : List ℕ) (s : PackStream)
    → kind < 8
    → size < 16
    → StreamAt whole ((kind * 16 + size) ∷ rest) s
    → (t : PackStream) × (read_entry_header s ≡ ok (record { kind = kind; size = size }, t))
      × StreamAt whole rest t
unfolding read_entry_header
read_small whole kind size rest s hk hs at =
    let byte = kind * 16 + size in
    let (t, e, at') = next_byte-StreamAt whole byte rest s at in
    let (k, l) = header_bits byte kind size (omega arith) (omega arith) (omega arith) in
    let done = size_loop-done 147 byte size 4 t (omega arith) in
    (t, assembled byte kind size size s t t e k l done (omega arith), at')

read_large :
    (whole : List ℕ) (kind size : ℕ) (rest : List ℕ) (s : PackStream)
    → kind < 8
    → size ≤ max_object_bytes
    → StreamAt whole ((128 + kind * 16 + size % 16) ∷ (encode_size 3 (size / 16) ++ rest)) s
    → (t : PackStream) × (read_entry_header s ≡ ok (record { kind = kind; size = size }, t))
      × StreamAt whole rest t
unfolding read_entry_header
read_large whole kind size rest s hk hs at =
    let byte = 128 + kind * 16 + size % 16 in
    let (t, e, at') = next_byte-StreamAt whole byte (encode_size 3 (size / 16) ++ rest) s at in
    let (k, l) = header_bits byte kind (size % 16) (omega arith) (omega arith) (omega arith) in
    let (u, loop, at'') =
      size_loop-encode_size whole 3 size_rounds byte (size / 16) (size % 16) 4 rest t at'
        (omega arith) (omega arith) (omega arith) (omega arith) (omega arith) (omega arith) in
    let total : size % 16 + size / 16 * 2 ^ 4 ≡ size = omega arith in
    (
      u,
      assembled byte kind (size % 16) size s t u e k l (loop ∙ ap (λ x. ok (x, u)) total) hs,
      at'',
    )

-- Where the pack goes on with a header as Git writes it, for any kind and any size within the limit
-- on objects, `readEntryHeader` reads that kind and that size, and leaves the stream behind the
-- header; however the pack is cut into chunks.
pub read_entry_header-encode :
    (whole : List ℕ) (kind size : ℕ) (rest : List ℕ) (s : PackStream)
    → kind < 8
    → size ≤ max_object_bytes
    → StreamAt whole (encode_entry_header kind size ++ rest) s
    → (t : PackStream) × (read_entry_header s ≡ ok (record { kind = kind; size = size }, t))
      × StreamAt whole rest t
unfolding encode_entry_header
read_entry_header-encode whole kind size rest s hk hs at = elim (Bool-cases (ltb size 16)) [
  | inl small ↦ read_small whole kind size rest s hk (ground arith) (rw small at at)
  | inr large ↦ read_large whole kind size rest s hk hs (rw large at at)
]
