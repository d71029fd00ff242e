-- ===== src/Pack/Stream/Laws.antt =====
-- What `PackStream` hands out and what it hashes, whatever the chunks are.
use open_relic.Prelude.{
  ℕ, zero, suc, ◌+◌, ◌-◌, ◌≤◌, ◌<◌, ◌≡◌, refl, ap, ◌∙◌, min, Bool, true, false, List, [], ◌∷◌, ◌++◌,
  length, drop, ltb, leb, ◌==◌, if◌then◌else◌, arith, append_assoc, length-append, length-drop,
  take-append-drop, Bool-cases, inl, inr,
}
use open_relic.PktLine.Fill.{joined, Drained}
use open_relic.Pack.Stream.{PackStream, hold, pulled, pull, fill_loop, fill}

-- All bytes that the hasher has seen or that are held back from it.
abbrev pub seen : PackStream → List ℕ
seen s = s.hashed ++ s.held

-- The invariant, for a stream that carries `whole`.
pub record IsStream (whole : List ℕ) (s : PackStream) : Type 0 where
  pub pulled_part : seen s ++ joined s.body ≡ whole
  pub held_back : length s.held ≡ min 20 (length (seen s))
  pub unread_part : s.buffer ++ joined s.body ≡ drop s.position whole
  pub within : s.position ≤ length whole
  pub drained : Drained s.exhausted s.body

all_seen : (chunk : List ℕ) (s : PackStream) → seen (hold chunk s) ≡ seen s ++ chunk
unfolding hold
all_seen chunk s = elim (Bool-cases (leb 20 (length chunk))) [
  | inl large ↦
      rw (large, append_assoc (s.hashed ++ s.held), take-append-drop (length chunk - 20) chunk)
  | inr small ↦
      rw (small, append_assoc s.hashed, take-append-drop, ← append_assoc s.hashed s.held chunk)
]

hold_held :
    (chunk : List ℕ) (s : PackStream)
    → length s.held ≡ min 20 (length (seen s))
    → length (hold chunk s).held ≡ min 20 (length (seen s) + length chunk)
unfolding hold
hold_held chunk s h = ground (
  arith,
  length-append s.hashed s.held,
  length-append s.held chunk,
  length-drop (length chunk - 20) chunk,
  length-drop (length (s.held ++ chunk) - min 20 (length (s.held ++ chunk))) (s.held ++ chunk),
)

hold_rest :
    (chunk : List ℕ) (s : PackStream)
    → ((hold chunk s).buffer ≡ s.buffer)
      × ((hold chunk s).position ≡ s.position)
      × ((hold chunk s).exhausted ≡ s.exhausted)
unfolding hold
hold_rest chunk s = ground arith

abbrev stream : List (List ℕ) → List ℕ → List ℕ → List ℕ → Bool → ℕ → PackStream
stream body buffer held hashed exhausted position = record {
  body = body;
  buffer = buffer;
  held = held;
  hashed = hashed;
  exhausted = exhausted;
  position = position;
}

-- A pull takes a chunk, or shows that there is none. The position stays.
abbrev Pulled : List ℕ → PackStream → PackStream × Bool → Type 0
Pulled whole s (t, true) =
    IsStream whole t × (t.position ≡ s.position) × (length t.body < length s.body)
Pulled whole s (t, false) =
    IsStream whole t × (t.position ≡ s.position) × (t.body ≡ []) × (t.buffer ≡ s.buffer)

grown :
    (buffer value : List ℕ)
    → (if length buffer == 0 then value else buffer ++ value) ≡ buffer ++ value
grown [] value = refl
grown (b ∷ bs) value = ground arith

module _ (whole buffer held hashed : List ℕ) (position : ℕ) where
  chunk-Pulled :
      (c : List ℕ) (cs : List (List ℕ))
      → IsStream whole (stream (c ∷ cs) buffer held hashed false position)
      → Pulled whole
          (stream (c ∷ cs) buffer held hashed false position)
          (pulled (stream (c ∷ cs) buffer held hashed false position) (c ∷ cs))
  unfolding pulled
  chunk-Pulled c cs h =
      let s = stream (c ∷ cs) buffer held hashed false position in
      let same = hold_rest c s in
      let all_seen = all_seen c s in
      (
        record {
          pulled_part =
              ap (λ x. x ++ joined cs) all_seen
              ∙ append_assoc (seen s) c (joined cs)
              ∙ h.pulled_part;
          held_back = rw all_seen (rw (length-append (seen s) c) (hold_held c s h.held_back));
          unread_part =
              rw (grown buffer c, same.1) (append_assoc buffer c (joined cs) ∙ h.unread_part);
          within = rw (same.1) h.within;
          drained = rw (same.2) tt;
        },
        same.1,
        omega arith,
      )

  pull-Pulled_fields :
      (body : List (List ℕ)) (exhausted : Bool)
      → IsStream whole (stream body buffer held hashed exhausted position)
      → Pulled whole
          (stream body buffer held hashed exhausted position)
          (pull (stream body buffer held hashed exhausted position))
  unfolding pull
  pull-Pulled_fields body true h = (h, refl, h.drained, refl)
  pull-Pulled_fields [] false h =
      unfold pulled in
      (
        record {
          pulled_part = h.pulled_part;
          held_back = h.held_back;
          unread_part = h.unread_part;
          within = h.within;
          drained = refl;
        },
        refl,
        refl,
        refl,
      )
  pull-Pulled_fields (c ∷ cs) false h = chunk-Pulled c cs h

pull-Pulled : {whole : List ℕ} (s : PackStream) → IsStream whole s → Pulled whole s (pull s)
pull-Pulled {whole} s h =
    pull-Pulled_fields whole s.buffer s.held s.hashed s.position s.body s.exhausted h

-- A fill succeeds with enough bytes in the buffer, or fails with all that there are.
abbrev pub Filled : List ℕ → ℕ → PackStream → PackStream × Bool → Type 0
Filled whole count s (t, true) =
    IsStream whole t × (t.position ≡ s.position) × (count ≤ length t.buffer)
Filled whole count s (t, false) =
    IsStream whole t × (t.position ≡ s.position) × (t.body ≡ []) × (length t.buffer < count)

Filled-moved :
    (whole : List ℕ) (count : ℕ) (s u : PackStream) (p : PackStream × Bool)
    → u.position ≡ s.position
    → Filled whole count u p
    → Filled whole count s p
Filled-moved whole count s u (t, true) e (h, e', k) = (h, e' ∙ e, k)
Filled-moved whole count s u (t, false) e (h, e', k, j) = (h, e' ∙ e, k, j)

refill :
    (whole : List ℕ) (count : ℕ) (s : PackStream) (p : PackStream × Bool)
    (f : PackStream → PackStream × Bool)
    → length s.buffer < count
    → Pulled whole s p
    → ((t : PackStream)
        → length t.body < length s.body
        → IsStream whole t
        → Filled whole count t (f t))
    → Filled whole count s (if p.1 then f p.0 else (p.0, false))
refill whole count s (t, true) f short (h, e, fewer) again =
    Filled-moved whole count s t (f t) e (again t fewer h)
refill whole count s (t, false) f short (h, e, none_left, same) again =
    (h, e, none_left, rw same short)

fill_loop-Filled :
    (whole : List ℕ) (rounds count : ℕ) (s : PackStream)
    → length s.body < rounds
    → IsStream whole s
    → Filled whole count s (fill_loop rounds count s)
unfolding fill_loop
fill_loop-Filled whole zero count s k h = absurd (omega arith)
fill_loop-Filled whole (suc rounds) count s k h = elim (Bool-cases (ltb (length s.buffer) count)) [
  | inr enough ↦ rw enough (h, refl, ground arith)
  | inl short ↦ rw short (
      refill whole count s (pull s) (fill_loop rounds count) (ground arith) (pull-Pulled s h)
        λ t fewer j. fill_loop-Filled whole rounds count t (omega arith) j)
]

pub fill-Filled :
    (whole : List ℕ) (count : ℕ) (s : PackStream)
    → IsStream whole s
    → Filled whole count s (fill count s)
unfolding fill
fill-Filled whole count s h = fill_loop-Filled whole (length s.body + 1) count s (omega arith) h
