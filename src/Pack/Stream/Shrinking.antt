-- ===== src/Pack/Stream/Shrinking.antt =====
-- Each chunk that `takeBuffered` hands out takes the buffer or a part of the body.
use open_relic.Prelude.{
  ℕ, zero, suc, ◌+◌, ◌≤◌, ◌<◌, ◌≡◌, refl, ap, Bool, true, false, List, [], ◌∷◌, length, ltb,
  if◌then◌else◌, Result, ok, err, thrown, Bool-cases, inl, inr, arith,
}
use open_relic.Pack.{Fault, truncated}
use open_relic.Pack.Stream.{PackStream, pulled, pull, fill_loop, fill, take_buffered}

-- A pull that brings a chunk takes it off the body, and any other leaves nothing.
Less : PackStream → PackStream × Bool → Type 0
Less s (t, true) = length t.body < length s.body
Less s (t, false) = length t.body ≤ length s.body

pulled-Less : (s : PackStream) → Less s (pulled s s.body)
unfolding pulled Less
pulled-Less s = by s.body refl
  where
    by : (body : List (List ℕ)) → s.body ≡ body → Less s (pulled s body)
    by [] e = omega arith
    by (value ∷ more) e = omega (arith, ap length e)

pull-Less : (s : PackStream) → Less s (pull s)
unfolding pull Less
pull-Less s = by s.exhausted
  where
    by : (b : Bool) → Less s (if b then (s, false) else pulled s s.body)
    by true = omega arith
    by false = pulled-Less s

fill_loop-body :
    (rounds count : ℕ) (s : PackStream) → length (fill_loop rounds count s).0.body ≤ length s.body
unfolding fill_loop Less
fill_loop-body zero count s = omega arith
fill_loop-body (suc rounds) count s = elim (Bool-cases (ltb (length s.buffer) count)) [
  | inr enough ↦ rw enough (omega arith)
  | inl short ↦ rw short (by (fill_loop-body rounds count) (pull s) (pull-Less s))
]
  where
    by :
        ((u : PackStream) → length (fill_loop rounds count u).0.body ≤ length u.body)
        → (p : PackStream × Bool) → Less s p
        → length (if p.1 then fill_loop rounds count p.0 else (p.0, false)).0.body ≤ length s.body
    by again (t, true) h = omega (arith, again t)
    by again (t, false) h = h

-- A fill of an empty buffer that succeeds takes a chunk.
fill_empty :
    (rounds : ℕ) (s t : PackStream)
    → s.buffer ≡ []
    → fill_loop rounds 1 s ≡ (t, true)
    → length t.body < length s.body
unfolding fill_loop Less
fill_empty zero s t e f = let bad = ap (λ (p : PackStream × Bool). p.1) f in cc
fill_empty (suc rounds) s t e f =
    by (pull s) (pull-Less s) (rw (ap (λ (b : List ℕ). ltb (length b) 1) e) at f)
  where
    by :
        (p : PackStream × Bool)
        → Less s p
        → (if p.1 then fill_loop rounds 1 p.0 else (p.0, false)) ≡ (t, true)
        → length t.body < length s.body
    by (u, true) h g =
        let k = fill_loop-body rounds 1 u in
        let same : (fill_loop rounds 1 u).0.body ≡ t.body =
          ap (λ (p : PackStream × Bool). p.0.body) g in
        omega (arith, ap length same)
    by (u, false) h g = let bad = ap (λ (p : PackStream × Bool). p.1) g in cc

-- The buffer is empty behind a chunk, and where it was empty before, the body has become shorter.
abbrev pub Shrinks : PackStream → Result Fault (List ℕ × PackStream) → Type 0
Shrinks s (ok (bytes, t)) = (t.buffer ≡ []) × (s.buffer ≡ [] → length t.body < length s.body)
Shrinks s (err e) = Unit {0}

pub take_buffered-Shrinks : (s : PackStream) → Shrinks s (take_buffered s)
unfolding take_buffered fill
take_buffered-Shrinks s = by (fill 1 s) refl
  where
    by :
        (p : PackStream × Bool)
        → fill 1 s ≡ p
        → Shrinks s (
            if p.1
            then ok (
              p.0.buffer,
              record p.0 { buffer = []; position = p.0.position + length p.0.buffer },
            )
            else err (thrown truncated))
    by (t, true) e = (refl, λ empty. fill_empty (length s.body + 1) s t empty e)
    by (t, false) e = tt
