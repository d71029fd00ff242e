-- ===== src/Pack/Stream/Ending.antt =====
-- The end of a pack: `atEnd`, the checksum, and the bytes that an inflater hands back.
use open_relic.Prelude.{
  ℕ, ◌+◌, ◌-◌, ◌<◌, ◌≡◌, refl, sym, ap, ◌∙◌, Bool, true, false, List, [], ◌∷◌, ◌++◌, length, take,
  drop, ◌==◌, if◌then◌else◌, arith, append-nil, append_assoc, length-append, length-drop,
  take-append, drop-append, drop-length, Result, ok, err, thrown, Bool-cases, inl, inr, ==_iff,
}
use open_relic.PktLine.Fill.{joined}
use open_relic.Pack.{Fault, truncated}
use open_relic.Pack.Stream.{PackStream, fill, take_buffered, put_back, at_end}
use open_relic.Pack.Stream.Laws.{IsStream, seen, Filled, fill-Filled}
use open_relic.Pack.Stream.Reading.{left_part, still_within, all_in_buffer}

-- Once the body is used up, all but the last 20 bytes of the pack are hashed, and these are held.
checksum_of_whole :
    (whole : List ℕ) (s : PackStream)
    → IsStream whole s
    → s.body ≡ []
    → (s.hashed ≡ take (length whole - 20) whole) × (s.held ≡ drop (length whole - 20) whole)
checksum_of_whole whole s h e =
    let all : seen s ≡ whole =
      sym (append-nil (seen s)) ∙ ap (λ b. seen s ++ joined b) (sym e) ∙ h.pulled_part in
    let cut : length whole - 20 ≡ length s.hashed =
      omega (arith, ap length all, length-append s.hashed s.held, h.held_back) in
    (
      sym (take-append s.hashed s.held cut) ∙ ap (λ x. take (length whole - 20) x) all,
      sym (drop-append s.hashed s.held cut) ∙ ap (λ x. drop (length whole - 20) x) all,
    )

-- The answer of `atEnd`.
abbrev pub Ends : List ℕ → PackStream → PackStream × Bool → Type 0
Ends whole s (t, true) =
    IsStream whole t
    × (s.position ≡ length whole)
    × (t.hashed ≡ take (length whole - 20) whole)
    × (t.held ≡ drop (length whole - 20) whole)
Ends whole s (t, false) = IsStream whole t × (t.position ≡ s.position) × (s.position < length whole)

whole_end :
    (whole : List ℕ) (s t : PackStream) (b : Bool)
    → (length t.buffer == 0) ≡ b
    → IsStream whole t
    → t.position ≡ s.position
    → (length t.buffer ≡ 0 → t.body ≡ [])
    → Ends whole s (t, b)
whole_end whole s t true e h same used =
    let none_left = used (ground arith) in
    let (hashed, held) = checksum_of_whole whole t h none_left in
    (
      h,
      omega (
        arith,
        same,
        ap length (all_in_buffer whole t h none_left),
        length-drop t.position whole,
        h.within,
        (==_iff (length t.buffer) 0).0 e,
      ),
      hashed,
      held,
    )
whole_end whole s t false e h same used = (
  h,
  same,
  omega (
    arith,
    some_left,
    same,
    ap length h.unread_part,
    length-append t.buffer (joined t.body),
    length-drop t.position whole,
  ),
)
  where
    some_left : 0 < length t.buffer
    some_left = ground arith

at_end-Ends_at :
    (whole : List ℕ) (s : PackStream) (p : PackStream × Bool)
    → fill 1 s ≡ p
    → Filled whole 1 s p
    → Ends whole s (at_end s)
unfolding at_end
at_end-Ends_at whole s (t, true) e (h, same, enough) =
    rw e (whole_end whole s t (length t.buffer == 0) refl h same (λ z. absurd (omega arith)))
at_end-Ends_at whole s (t, false) e (h, same, none_left, short) =
    rw e (whole_end whole s t (length t.buffer == 0) refl h same (λ z. none_left))

-- `atEnd` answers whether the whole pack was consumed. When it was, the checksum is over all of the
-- pack but its last 20 bytes, and these are held back; however the pack is cut into chunks.
pub at_end-Ends : (whole : List ℕ) (s : PackStream) → IsStream whole s → Ends whole s (at_end s)
at_end-Ends whole s h = at_end-Ends_at whole s (fill 1 s) refl (fill-Filled whole 1 s h)

-- The answer of `takeBuffered`: the next bytes of the pack, and the stream behind them.
abbrev pub TakesSome : List ℕ → PackStream → Result Fault (List ℕ × PackStream) → Type 0
TakesSome whole s (ok (bytes, t)) =
    (0 < length bytes)
    × (drop s.position whole ≡ bytes ++ drop t.position whole)
    × IsStream whole t
    × (t.position ≡ s.position + length bytes)
TakesSome whole s (err e) = (e ≡ thrown truncated) × (s.position ≡ length whole)

tail_part :
    (whole : List ℕ) (t : PackStream)
    → IsStream whole t
    → joined t.body ≡ drop (t.position + length t.buffer) whole
tail_part whole t h =
    ap (λ x. x ++ joined t.body) (sym (drop-length t.buffer {n = length t.buffer} (omega arith)))
    ∙ left_part whole (length t.buffer) t h (omega arith)

take_buffered-TakesSome_at :
    (whole : List ℕ) (s : PackStream) (p : PackStream × Bool)
    → fill 1 s ≡ p
    → Filled whole 1 s p
    → TakesSome whole s (take_buffered s)
unfolding take_buffered
take_buffered-TakesSome_at whole s (t, true) e (h, same, enough) =
    let tail = tail_part whole t h in
    rw e (
      enough,
      ap (λ n. drop n whole) (sym same) ∙ sym h.unread_part ∙ ap (λ x. t.buffer ++ x) tail,
      record {
        pulled_part = h.pulled_part;
        held_back = h.held_back;
        unread_part = tail;
        within = still_within whole (length t.buffer) t h (omega arith);
        drained = h.drained;
      },
      ap (λ n. n + length t.buffer) same,
    )
take_buffered-TakesSome_at whole s (t, false) e (h, same, none_left, short) = rw e (
  refl,
  omega (
    arith,
    same,
    ap length (all_in_buffer whole t h none_left),
    length-drop t.position whole,
    h.within,
  ),
)

-- `takeBuffered` hands out at least one byte, the next ones of the pack, and its position moves on by
-- as many; it throws `truncated` only where the pack is used up.
pub take_buffered-TakesSome :
    (whole : List ℕ) (s : PackStream) → IsStream whole s → TakesSome whole s (take_buffered s)
take_buffered-TakesSome whole s h =
    take_buffered-TakesSome_at whole s (fill 1 s) refl (fill-Filled whole 1 s h)

in_front :
    (bytes buffer : List ℕ)
    → (if length buffer == 0 then bytes else bytes ++ buffer) ≡ bytes ++ buffer
in_front bytes [] = sym (append-nil bytes)
in_front bytes (b ∷ bs) = ground arith

-- Handing back bytes that were the last ones taken.
pub put_back-IsStream :
    (whole bytes : List ℕ) (from : ℕ) (s : PackStream)
    → IsStream whole s
    → s.position ≡ from + length bytes
    → drop from whole ≡ bytes ++ drop s.position whole
    → IsStream whole (put_back bytes s) × ((put_back bytes s).position ≡ from)
unfolding put_back
put_back-IsStream whole bytes from s h e same = elim (Bool-cases (length bytes == 0)) [
  | inl nothing ↦ rw nothing (h, omega (arith, (==_iff (length bytes) 0).0 nothing))
  | inr something ↦
      let back : s.position - length bytes ≡ from = omega arith in
      rw something (
        record {
          pulled_part = h.pulled_part;
          held_back = h.held_back;
          unread_part =
              rw (in_front bytes s.buffer, back)
                (append_assoc bytes s.buffer (joined s.body)
                  ∙ ap (λ x. bytes ++ x) h.unread_part
                  ∙ sym same);
          within = omega (arith, h.within);
          drained = h.drained;
        },
        back,
      )
]
