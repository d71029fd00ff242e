-- ===== src/Pack/Stream/Reading.antt =====
-- What `PackStream` hands out, and what its checksum covers, in terms of the whole pack.
use open_relic.Prelude.{
  ℕ, ◌+◌, ◌≤◌, ◌<◌, ◌≡◌, refl, sym, ap, ◌∙◌, Bool, true, false, List, [], ◌++◌, length, take, drop,
  arith, append-nil, length-append, length-drop, take-append_le, drop-append_le, drop-drop, Result,
  ok, err, thrown,
}
use open_relic.PktLine.Fill.{joined}
use open_relic.Pack.{Fault, truncated}
use open_relic.Pack.Stream.{PackStream, new_stream, fill, take_bytes}
use open_relic.Pack.Stream.Laws.{IsStream, Filled, fill-Filled}

pub new_stream-IsStream : (chunks : List (List ℕ)) → IsStream (joined chunks) (new_stream chunks)
unfolding new_stream
new_stream-IsStream chunks = record {
  pulled_part = refl;
  held_back = omega arith;
  unread_part = refl;
  within = omega arith;
  drained = tt;
}

-- Taking from the front of the buffer.
module _ (whole : List ℕ) (count : ℕ) (s : PackStream) (h : IsStream whole s)
    (k : count ≤ length s.buffer) where
  taken_part : take count s.buffer ≡ take count (drop s.position whole)
  taken_part =
      sym (take-append_le count s.buffer (joined s.body) k) ∙ ap (λ x. take count x) h.unread_part

  pub left_part : drop count s.buffer ++ joined s.body ≡ drop (s.position + count) whole
  left_part =
      sym (drop-append_le count s.buffer (joined s.body) k)
      ∙ ap (λ x. drop count x) h.unread_part
      ∙ drop-drop count s.position whole

  pub still_within : s.position + count ≤ length whole
  still_within = omega (
    arith,
    ap length h.unread_part,
    length-append s.buffer (joined s.body),
    length-drop s.position whole,
    h.within,
  )

  pub after_take :
      IsStream whole (record s { buffer = drop count s.buffer; position = s.position + count })
  after_take = record {
    pulled_part = h.pulled_part;
    held_back = h.held_back;
    unread_part = left_part;
    within = still_within;
    drained = h.drained;
  }

-- What is left, where the body is used up.
pub all_in_buffer :
    (whole : List ℕ) (s : PackStream)
    → IsStream whole s
    → s.body ≡ []
    → s.buffer ≡ drop s.position whole
all_in_buffer whole s h e =
    sym (append-nil s.buffer) ∙ ap (λ b. s.buffer ++ joined b) (sym e) ∙ h.unread_part

-- The answer of `take`: the next bytes of the pack, or `truncated`.
abbrev pub Takes : List ℕ → ℕ → PackStream → Result Fault (List ℕ × PackStream) → Type 0
Takes whole count s (ok (bytes, t)) =
    (s.position + count ≤ length whole)
    × (bytes ≡ take count (drop s.position whole))
    × IsStream whole t
    × (t.position ≡ s.position + count)
Takes whole count s (err e) = (e ≡ thrown truncated) × (length whole < s.position + count)

take_bytes-Takes_at :
    (whole : List ℕ) (count : ℕ) (s : PackStream) (p : PackStream × Bool)
    → fill count s ≡ p
    → Filled whole count s p
    → Takes whole count s (take_bytes count s)
unfolding take_bytes
take_bytes-Takes_at whole count s (t, true) e (h, same, enough) = rw e (
  rw (← same) (still_within whole count t h enough),
  rw (← same) (taken_part whole count t h enough),
  after_take whole count t h enough,
  ap (λ n. n + count) same,
)
take_bytes-Takes_at whole count s (t, false) e (h, same, none_left, short) = rw e (
  refl,
  omega (
    arith,
    same,
    ap length (all_in_buffer whole t h none_left),
    length-drop t.position whole,
    h.within,
  ),
)

-- `take` hands out the next `count` bytes of the pack, as long as there are so many, and throws
-- `truncated` if there are not, however the pack is cut into chunks.
pub take_bytes-Takes :
    (whole : List ℕ) (count : ℕ) (s : PackStream)
    → IsStream whole s
    → Takes whole count s (take_bytes count s)
take_bytes-Takes whole count s h =
    take_bytes-Takes_at whole count s (fill count s) refl (fill-Filled whole count s h)
