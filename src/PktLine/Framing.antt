-- ===== src/PktLine/Framing.antt =====
-- Reading a packet depends on the bytes of the stream, not on its chunks.
use open_relic.Prelude.{
  ℕ, ◌≤◌, ◌<◌, ◌≡◌, refl, sym, ◌∙◌, Bool, true, false, ◌&&◌, List, [], ◌∷◌, length, take, drop, all,
  ltb, ◌==◌, arith, append-nil, length-append, length-take, Bool-cases, inl, inr, if◌then◌else◌,
  Result, ok, err, take-append_le, drop-append_le,
}
use mathlib.Core.Path.{subst, subst₂}
use open_relic.Prelude.Numbers.{is_hex, parse_hex}
use open_relic.PktLine.{
  PktLineReader, PktLine, line, flush, end, delimiter, response_end, PktLineError, inside_length,
  inside_payload, not_a_length, no_meaning, too_long, is_empty, fill, advance, declared_length,
  next_payload, next_framed, next_any, without_control, next, next_v2,
}
use open_relic.PktLine.Fill.{unread, joined, IsReader, Filled, fill-Filled}

abbrev pub Frame : Type 0
Frame = Result PktLineError (PktLine × List ℕ)

-- The first packet of a stream whose bytes are all there, and the bytes behind it.
unfoldable pub frame_payload : ℕ → List ℕ → Frame
frame_payload size bytes =
    if ltb size 4
    then err (no_meaning size)
    else if ltb 65520 size
    then err (too_long size)
    else if ltb (length bytes) size
    then err inside_payload
    else ok (line (drop 4 (take size bytes)), drop size bytes)

unfoldable pub frame_size : Bool → ℕ → List ℕ → Frame
frame_size v2 size bytes =
    if size == 0
    then ok (flush, drop 4 bytes)
    else if v2 && size == 1
    then ok (delimiter, drop 4 bytes)
    else if v2 && size == 2
    then ok (response_end, drop 4 bytes)
    else frame_payload size bytes

unfoldable pub frame : Bool → List ℕ → Frame
frame v2 bytes =
    if ltb (length bytes) 4
    then if is_empty bytes then ok (end, []) else err inside_length
    else if all is_hex (take 4 bytes)
    then frame_size v2 (parse_hex 0 (take 4 bytes)) bytes
    else err not_a_length

-- A packet that was read is the first one of the stream, and the reader stands behind it.
abbrev pub Delivers : PktLineReader × Result PktLineError PktLine → Frame → Type 0
Delivers (r, ok l) (ok (l', rest)) =
    (l ≡ l') × (unread r ≡ rest) × IsReader r × (r.handed_over ≡ false)
Delivers (r, err e) (err e') = e ≡ e'
Delivers (r, ok l) (err e) = ⊥
Delivers (r, err e) (ok f) = ⊥

advance-Delivers :
    (size : ℕ) (r : PktLineReader) (l : PktLine)
    → IsReader r
    → r.handed_over ≡ false
    → size ≤ length r.buffer
    → Delivers (advance size r, ok l) (ok (l, drop size (unread r)))
unfolding advance
advance-Delivers size r l h free k =
    (refl, sym (drop-append_le size r.buffer (joined r.body) k), h, free)

-- With the whole stream in reach, there are enough bytes exactly when the buffer was filled.
enough_bytes :
    (size : ℕ) (r : PktLineReader) → size ≤ length r.buffer → ltb (length (unread r)) size ≡ false
enough_bytes size r h = ground (arith, length-append r.buffer (joined r.body))

too_few_bytes :
    (size : ℕ) (r : PktLineReader)
    → r.body ≡ []
    → length r.buffer < size
    → ltb (length (unread r)) size ≡ true
too_few_bytes size r e h = rw (e, append-nil) (ground arith)

module _ (size : ℕ) (r : PktLineReader) (h : IsReader r) (free : r.handed_over ≡ false) where
  next_payload-Delivers_at :
      (p : PktLineReader × Bool)
      → Filled size r p
      → fill size r ≡ p
      → Delivers (next_payload size r) (frame_payload size (unread r))
  unfolding next_payload frame_payload
  next_payload-Delivers_at (s, true) (same, enough) e =
      rw
        (
          e,
          ← same.same_bytes,
          enough_bytes size s enough,
          take-append_le size s.buffer (joined s.body) enough,
        )
        (elim (Bool-cases (ltb size 4)) [
          | inl short ↦ rw short refl
          | inr fine ↦ rw fine (elim (Bool-cases (ltb 65520 size)) [
            | inl long ↦ rw long refl
            | inr fine' ↦ rw fine' (
                advance-Delivers size s (line (drop 4 (take size s.buffer))) same.coherent
                  (same.same_owner ∙ free) enough)
          ])
        ])
  next_payload-Delivers_at (s, false) (same, none_left, short) e =
      rw (e, ← same.same_bytes, too_few_bytes size s none_left short)
        (elim (Bool-cases (ltb size 4)) [
          | inl short ↦ rw short refl
          | inr fine ↦ rw fine (elim (Bool-cases (ltb 65520 size)) [
            | inl long ↦ rw long refl
            | inr fine' ↦ rw fine' refl
          ])
        ])

  next_payload-Delivers : Delivers (next_payload size r) (frame_payload size (unread r))
  next_payload-Delivers = next_payload-Delivers_at (fill size r) (fill-Filled size r h) refl

-- Behind a length that was read.
next_framed-Delivers :
    (v2 : Bool) (size : ℕ) (r : PktLineReader)
    → IsReader r
    → r.handed_over ≡ false
    → 4 ≤ length r.buffer
    → Delivers (next_framed v2 (ok size) r) (frame_size v2 size (unread r))
unfolding next_framed frame_size
next_framed-Delivers v2 size r h free k = elim (Bool-cases (size == 0)) [
  | inl a ↦ rw a (advance-Delivers 4 r flush h free k)
  | inr a ↦ rw a (elim (Bool-cases (v2 && size == 1)) [
    | inl b ↦ rw b (advance-Delivers 4 r delimiter h free k)
    | inr b ↦ rw b (elim (Bool-cases (v2 && size == 2)) [
      | inl c ↦ rw c (advance-Delivers 4 r response_end h free k)
      | inr c ↦ rw c (next_payload-Delivers size r h free)
    ])
  ])
]

frame_few :
    (v2 : Bool) (b : ℕ) (bs : List ℕ) → length (b ∷ bs) < 4 → frame v2 (b ∷ bs) ≡ err inside_length
unfolding frame
frame_few v2 b bs short = let e : ltb (length (b ∷ bs)) 4 ≡ true = ground arith in rw e

-- With fewer than four bytes left.
stream_ends :
    (v2 : Bool) (r : PktLineReader) (bytes : List ℕ)
    → r.buffer ≡ bytes
    → unread r ≡ bytes
    → length bytes < 4
    → IsReader r
    → r.handed_over ≡ false
    → Delivers
        (if is_empty r.buffer then (r, ok end) else (r, err inside_length))
        (frame v2 (unread r))
unfolding frame
stream_ends v2 r [] e u short h free =
    subst₂
      (λ b x. Delivers (if is_empty b then (r, ok end) else (r, err inside_length)) (frame v2 x))
      (sym e) (sym u) (refl, u, h, free)
stream_ends v2 r (b ∷ bs) e u short h free =
    subst₂
      (λ b x. Delivers (if is_empty b then (r, ok end) else (r, err inside_length)) (frame v2 x))
      (sym e) (sym u) (few (frame_few v2 b bs short))
  where
    few : {f : Frame} → f ≡ err inside_length → Delivers (r, err inside_length) f
    few e = rw e refl

-- With four bytes in the buffer.
length_read-Delivers :
    (v2 : Bool) (r : PktLineReader)
    → IsReader r
    → r.handed_over ≡ false
    → 4 ≤ length r.buffer
    → Delivers (next_framed v2 (declared_length r) r) (frame v2 (unread r))
unfolding declared_length frame
length_read-Delivers v2 r h free k =
    let text = take-append_le 4 r.buffer (joined r.body) k in
    let four : length (take 4 r.buffer) ≡ 4 = omega (arith, length-take 4 r.buffer) in
    rw (enough_bytes 4 r k, text, four)
      (elim (Bool-cases (all is_hex (take 4 r.buffer))) [
        | inr bad ↦ rw bad (unfold next_framed in refl)
        | inl good ↦ rw good (next_framed-Delivers v2 (parse_hex 0 (take 4 r.buffer)) r h free k)
      ])

next_any-Delivers_at :
    (v2 : Bool) (r : PktLineReader)
    → r.handed_over ≡ false
    → (p : PktLineReader × Bool) → Filled 4 r p
    → fill 4 r ≡ p
    → Delivers (next_any v2 r) (frame v2 (unread r))
unfolding next_any
next_any-Delivers_at v2 r free (s, true) (same, enough) e =
    rw (e, free, ← same.same_bytes)
      (length_read-Delivers v2 s same.coherent (same.same_owner ∙ free) enough)
next_any-Delivers_at v2 r free (s, false) (same, none_left, short) e =
    rw (e, free, ← same.same_bytes)
      (stream_ends v2 s s.buffer refl (rw (none_left, append-nil)) short same.coherent
        (same.same_owner ∙ free))

next_any-Delivers :
    (v2 : Bool) (r : PktLineReader)
    → IsReader r
    → r.handed_over ≡ false
    → Delivers (next_any v2 r) (frame v2 (unread r))
next_any-Delivers v2 r h free = next_any-Delivers_at v2 r free (fill 4 r) (fill-Filled 4 r h) refl

-- Without protocol v2 no control packet is framed, so that `next` passes everything on.
abbrev NoControl : Frame → Type 0
NoControl (ok (delimiter, rest)) = ⊥
NoControl (ok (response_end, rest)) = ⊥
NoControl f = Unit

frame-NoControl : (bytes : List ℕ) → NoControl (frame false bytes)
unfolding frame frame_size frame_payload
frame-NoControl bytes = ground arith

without_control-Delivers :
    (q : PktLineReader × Result PktLineError PktLine) (f : Frame)
    → NoControl f
    → Delivers q f
    → Delivers (q.0, without_control q.1) f
unfolding without_control
without_control-Delivers (r, ok delimiter) (ok (l', rest)) n (e, u, h, free) =
    absurd (subst (λ x. NoControl (ok (x, rest))) (sym e) n)
without_control-Delivers (r, ok response_end) (ok (l', rest)) n (e, u, h, free) =
    absurd (subst (λ x. NoControl (ok (x, rest))) (sym e) n)
without_control-Delivers (r, ok (line payload)) (ok (l', rest)) n d = d
without_control-Delivers (r, ok flush) (ok (l', rest)) n d = d
without_control-Delivers (r, ok end) (ok (l', rest)) n d = d
without_control-Delivers (r, err e) (err e') n d = d
without_control-Delivers (r, ok l) (err e) n d = absurd d
without_control-Delivers (r, err e) (ok f) n d = d

-- For a consistent reader that was not handed over: `next` reads the first packet of the unread
-- bytes and leaves the reader behind it, or throws what these bytes call for. Neither depends on how
-- they are cut into chunks, nor on how many of them are in the buffer.
pub next-frame :
    (r : PktLineReader)
    → IsReader r
    → r.handed_over ≡ false
    → Delivers (next r) (frame false (unread r))
unfolding next
next-frame r h free =
    without_control-Delivers (next_any false r) (frame false (unread r))
      (frame-NoControl (unread r)) (next_any-Delivers false r h free)

-- The same for `nextV2`, which reads the control packets of protocol v2 too.
pub next_v2-frame :
    (r : PktLineReader)
    → IsReader r
    → r.handed_over ≡ false
    → Delivers (next_v2 r) (frame true (unread r))
unfolding next_v2
next_v2-frame r h free = next_any-Delivers true r h free
