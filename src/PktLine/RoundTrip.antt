-- ===== src/PktLine/RoundTrip.antt =====
-- What `pktLine` writes, `PktLineReader` reads back, however the stream is cut into chunks.
use open_relic.Prelude.{
  ℕ, ◌+◌, ◌/◌, ◌%◌, ◌≤◌, ◌<◌, ◌≡◌, refl, sym, ap, ◌∙◌, Bool, true, false, List, [], ◌∷◌, ◌++◌,
  length, all, All, ltb, arith, append_assoc, length-append, ok, err, Result, >>=-eq-ok,
  ok-injective, take-append, drop-append, ◌>>=◌, ◌⊎◌, inl, inr, Bool-cases, if◌then◌else◌,
}
use open_relic.Prelude.Numbers.{
  hex_digit, is_hex, parse_hex, hex_value-hex_digit, is_hex-hex_digit, pad_start-to_string_hex_four,
}
use open_relic.PktLine.{
  PktLineReader, PktLine, line, flush, PktLineError, RangeError, payload_too_long, pkt_line,
  flush_pkt, next, rest, new_reader, is_empty,
}
use open_relic.PktLine.Fill.{unread, joined, IsReader}
use open_relic.PktLine.Framing.{frame, frame_size, frame_payload, Delivers, next-frame}

abbrev pub length_digits : ℕ → List ℕ
length_digits n =
    hex_digit (n / 4096)
    ∷ hex_digit (n / 256 % 16)
    ∷ hex_digit (n / 16 % 16)
    ∷ hex_digit (n % 16)
    ∷ []

parse_hex-length_digits : (n : ℕ) → n < 65536 → parse_hex 0 (length_digits n) ≡ n
parse_hex-length_digits n h =
    rw
      (
        hex_value-hex_digit (n / 4096) (omega arith),
        hex_value-hex_digit (n / 256 % 16) (omega arith),
        hex_value-hex_digit (n / 16 % 16) (omega arith),
        hex_value-hex_digit (n % 16) (omega arith),
      )
      (omega arith)

all-length_digits : (n : ℕ) → n < 65536 → all is_hex (length_digits n) ≡ true
all-length_digits n h =
    rw
      (
        is_hex-hex_digit (n / 4096) (omega arith),
        is_hex-hex_digit (n / 256 % 16) (omega arith),
        is_hex-hex_digit (n / 16 % 16) (omega arith),
        is_hex-hex_digit (n % 16) (omega arith),
      )
      refl

-- A payload that fits is framed by its length, four digits included.
pub pkt_line_digits :
    (payload : List ℕ)
    → length payload ≤ 65516
    → pkt_line payload ≡ ok (length_digits (length payload + 4) ++ payload)
unfolding pkt_line
pkt_line_digits payload h =
    let short : ltb 65516 (length payload) ≡ false = ground arith in
    rw (short, pad_start-to_string_hex_four (length payload + 4) (omega arith))

frame_size-line :
    (v2 : Bool) (digits payload more : List ℕ)
    → length digits ≡ 4
    → length payload ≤ 65516
    → frame_size v2 (length payload + 4) (digits ++ (payload ++ more)) ≡ ok (line payload, more)
unfolding frame_size frame_payload
frame_size-line v2 digits payload more four h =
    let size = length-append digits payload in
    let front = take-append (digits ++ payload) more {n = length payload + 4} (omega arith) in
    let back = drop-append (digits ++ payload) more {n = length payload + 4} (omega arith) in
    rw
      (
        ← append_assoc digits payload more,
        front,
        back,
        drop-append digits payload {n = 4} (omega arith),
      )
      (ground (arith, length-append (digits ++ payload) more, size))

frame-digits :
    (v2 : Bool) (payload more : List ℕ)
    → length payload ≤ 65516
    → frame v2 (length_digits (length payload + 4) ++ (payload ++ more)) ≡ ok (line payload, more)
unfolding frame
frame-digits v2 payload more h =
    let digits = length_digits (length payload + 4) in
    let long : ltb (length (digits ++ (payload ++ more))) 4 ≡ false = ground arith in
    rw
      (
        long,
        all-length_digits (length payload + 4) (omega arith),
        parse_hex-length_digits (length payload + 4) (omega arith),
      )
      (frame_size-line v2 digits payload more refl h)

-- The stream of some lines and a flush packet.
abbrev pub section : List (List ℕ) → List ℕ → List ℕ
section [] more = flush_pkt ++ more
section (p ∷ ps) more = length_digits (length p + 4) ++ (p ++ section ps more)

frame-flush : (v2 : Bool) (more : List ℕ) → frame v2 (flush_pkt ++ more) ≡ ok (flush, more)
unfolding frame frame_size
frame-flush v2 more =
    let long : ltb (length (flush_pkt ++ more)) 4 ≡ false = ground arith in rw long refl

-- Reading packets up to the flush packet gives these payloads and leaves this reader.
pub data Reads : PktLineReader → List (List ℕ) → PktLineReader → Type 0 where
  flushed : {r s : PktLineReader} → next r ≡ (s, ok flush) → Reads r [] s
  read_line :
      {r s t : PktLineReader} {p : List ℕ} {ps : List (List ℕ)}
      → next r ≡ (s, ok (line p))
      → Reads s ps t
      → Reads r (p ∷ ps) t

Delivers-ok :
    (q : PktLineReader × Result PktLineError PktLine) (l : PktLine) (more : List ℕ)
    → Delivers q (ok (l, more))
    → (s : PktLineReader) × (q ≡ (s, ok l))
      × (unread s ≡ more)
      × IsReader s
      × (s.handed_over ≡ false)
Delivers-ok (s, ok l') l more (e, u, h, free) = (s, ap (λ x. (s, ok x)) e, u, h, free)
Delivers-ok (s, err e) l more d = absurd d

-- The reader stands at a stream of these bytes.
abbrev At : PktLineReader → List ℕ → Type 0
At r bytes = (unread r ≡ bytes) × IsReader r × (r.handed_over ≡ false)

step_over :
    (r : PktLineReader) (bytes : List ℕ) (l : PktLine) (more : List ℕ)
    → At r bytes
    → frame false bytes ≡ ok (l, more)
    → (s : PktLineReader) × (next r ≡ (s, ok l)) × At s more
step_over r bytes l more (u, h, free) e =
    let d = rw (u, e) at (next-frame r h free) in
    let (s, answer, u', h', free') = Delivers-ok (next r) l more d in (s, answer, (u', h', free'))

read_section :
    (r : PktLineReader) (ps : List (List ℕ)) (more : List ℕ)
    → All (λ p. length p ≤ 65516) ps
    → At r (section ps more)
    → (s : PktLineReader) × Reads r ps s × (unread s ≡ more)
read_section r [] more h at =
    let (s, e, at') = step_over r (section [] more) flush more at (frame-flush false more) in
    (s, flushed e, at'.0)
read_section r (p ∷ ps) more (h, hs) at =
    let (s, e, at') =
      step_over r (section (p ∷ ps) more) (line p) (section ps more) at
        (frame-digits false p (section ps more) h) in
    let (t, reads, u) = read_section s ps more hs at' in (t, read_line e reads, u)

joined-rest_at :
    (buffer : List ℕ) (body : List (List ℕ))
    → joined (if is_empty buffer then body else buffer ∷ body) ≡ buffer ++ joined body
joined-rest_at [] body = refl
joined-rest_at (b ∷ bs) body = refl

-- `rest` loses no byte.
pub joined-rest : (r : PktLineReader) → joined (rest r).1 ≡ unread r
unfolding rest
joined-rest r = joined-rest_at r.buffer r.body

-- A section as the program writes it: each payload by `pktLine`, then a flush packet.
unfoldable pub write_section : List (List ℕ) → Result RangeError (List ℕ)
write_section [] = ok flush_pkt
write_section (p ∷ ps) = do l ← pkt_line p; lines ← write_section ps; ok (l ++ lines)

pkt_line_cases :
    (p : List ℕ)
    → ((length p ≤ 65516) × (pkt_line p ≡ ok (length_digits (length p + 4) ++ p)))
      ⊎ ((65516 < length p) × (pkt_line p ≡ err payload_too_long))
pkt_line_cases p = elim (Bool-cases (ltb 65516 (length p))) [
  | inl long ↦ inr (ground arith, unfold pkt_line in rw long)
  | inr short ↦ inl (ground arith, pkt_line_digits p (ground arith))
]

-- A section is written exactly when every payload fits, and then it is the one that is read.
pub write_section_fits :
    (ps : List (List ℕ)) (wire more : List ℕ)
    → write_section ps ≡ ok wire
    → All (λ p. length p ≤ 65516) ps × (wire ++ more ≡ section ps more)
unfolding write_section
write_section_fits [] wire more e =
    let w : flush_pkt ≡ wire = ok-injective (write_section []) refl e in
    (tt, ap (λ x. x ++ more) (sym w))
write_section_fits (p ∷ ps) wire more e = elim (pkt_line_cases p) [
  | inr (long, refused) ↦ absurd (cc (rw refused at e))
  | inl (short, framed) ↦
      let (lines, wrote, same) = >>=-eq-ok (write_section ps) _ (rw framed at e) in
      let (fit, read) = write_section_fits ps lines more wrote in
      let w : (length_digits (length p + 4) ++ p) ++ lines ≡ wire =
        ok-injective (ok ((length_digits (length p + 4) ++ p) ++ lines)) refl same in
      (
        (short, fit),
        ap (λ x. x ++ more) (sym w)
            ∙ append_assoc (length_digits (length p + 4) ++ p) lines more
            ∙ append_assoc (length_digits (length p + 4)) p (lines ++ more)
            ∙ ap (λ x. length_digits (length p + 4) ++ (p ++ x)) read,
      )
]

-- However the stream is cut into chunks: the lines that a section was written from are read back in
-- their order up to its flush packet, and `rest` hands over exactly the bytes that follow.
pub read-write_section :
    (ps : List (List ℕ)) (wire pack : List ℕ) (chunks : List (List ℕ))
    → write_section ps ≡ ok wire
    → joined chunks ≡ wire ++ pack
    → (s : PktLineReader) × Reads (new_reader chunks) ps s × (joined (rest s).1 ≡ pack)
unfolding new_reader
read-write_section ps wire pack chunks e cut =
    let (fit, same) = write_section_fits ps wire pack e in
    let (s, reads, u) = read_section (new_reader chunks) ps pack fit (cut ∙ same, tt, refl) in
    (s, reads, joined-rest s ∙ u)
