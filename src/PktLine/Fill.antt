-- ===== src/PktLine/Fill.antt =====
-- `#fill` and `#pull`: how the buffer grows, whatever the chunks are.
use open_relic.Prelude.{
  ℕ, zero, suc, ◌+◌, ◌≤◌, ◌<◌, ◌≡◌, refl, ◌∙◌, Bool, true, false, List, [], ◌∷◌, ◌++◌, length, ltb,
  arith, append_assoc, Bool-cases, inl, inr, if◌then◌else◌,
}
use open_relic.PktLine.{PktLineReader, pulled, pull, fill_loop, fill}

abbrev pub joined : List (List ℕ) → List ℕ
joined [] = []
joined (c ∷ cs) = c ++ joined cs

-- All bytes that the reader has still to give, whichever side of the buffer they are on.
abbrev pub unread : PktLineReader → List ℕ
unread r = r.buffer ++ joined r.body

abbrev pub Drained : Bool → List (List ℕ) → Type 0
Drained true body = body ≡ []
Drained false body = Unit

-- The invariant of a reader: it is exhausted only when the body has no chunk left.
abbrev pub IsReader : PktLineReader → Type 0
IsReader r = Drained r.exhausted r.body

-- What a call that fills the buffer leaves alone.
pub record SameStream (r r' : PktLineReader) : Type 0 where
  pub same_bytes : unread r' ≡ unread r
  pub same_owner : r'.handed_over ≡ r.handed_over
  pub coherent : IsReader r'

pub SameStream-refl : (r : PktLineReader) → IsReader r → SameStream r r
SameStream-refl r h = record { same_bytes = refl; same_owner = refl; coherent = h }

pub SameStream-trans : {r s t : PktLineReader} → SameStream r s → SameStream s t → SameStream r t
SameStream-trans p q = record {
  same_bytes = q.same_bytes ∙ p.same_bytes;
  same_owner = q.same_owner ∙ p.same_owner;
  coherent = q.coherent;
}

-- A pull takes a chunk, or shows that there is none.
abbrev Pulled : PktLineReader → PktLineReader × Bool → Type 0
Pulled r (r', true) = SameStream r r' × (length r'.body < length r.body)
Pulled r (r', false) = SameStream r r' × (r'.body ≡ []) × (r'.buffer ≡ r.buffer)

abbrev reader : List (List ℕ) → List ℕ → Bool → Bool → PktLineReader
reader body buffer exhausted handed_over = record {
  body = body;
  buffer = buffer;
  exhausted = exhausted;
  handed_over = handed_over;
}

pull-Pulled_fields :
    (body : List (List ℕ)) (buffer : List ℕ) (exhausted handed_over : Bool)
    → Drained exhausted body
    → Pulled
        (reader body buffer exhausted handed_over)
        (pull (reader body buffer exhausted handed_over))
unfolding pull pulled
pull-Pulled_fields body buffer true handed_over h =
    (record { same_bytes = refl; same_owner = refl; coherent = h }, h, refl)
pull-Pulled_fields [] buffer false handed_over h =
    (record { same_bytes = refl; same_owner = refl; coherent = refl }, refl, refl)
pull-Pulled_fields (c ∷ cs) [] false handed_over h =
    (record { same_bytes = refl; same_owner = refl; coherent = tt }, omega arith)
pull-Pulled_fields (c ∷ cs) (b ∷ bs) false handed_over h = (
  record { same_bytes = append_assoc (b ∷ bs) c (joined cs); same_owner = refl; coherent = tt },
  omega arith,
)

pull-Pulled : (r : PktLineReader) → IsReader r → Pulled r (pull r)
pull-Pulled r h = pull-Pulled_fields r.body r.buffer r.exhausted r.handed_over h

-- A fill succeeds with enough bytes in the buffer, or fails with all that there are.
abbrev pub Filled : ℕ → PktLineReader → PktLineReader × Bool → Type 0
Filled count r (r', true) = SameStream r r' × (count ≤ length r'.buffer)
Filled count r (r', false) = SameStream r r' × (r'.body ≡ []) × (length r'.buffer < count)

Filled-trans :
    (count : ℕ) {r s : PktLineReader} (p : PktLineReader × Bool)
    → SameStream r s
    → Filled count s p
    → Filled count r p
Filled-trans count (t, true) same (h, k) = (SameStream-trans same h, k)
Filled-trans count (t, false) same (h, k, j) = (SameStream-trans same h, k, j)

-- The round behind a pull.
refill :
    (count : ℕ) (r : PktLineReader) (p : PktLineReader × Bool)
    (f : PktLineReader → PktLineReader × Bool)
    → length r.buffer < count
    → Pulled r p
    → ((s : PktLineReader) → length s.body < length r.body → IsReader s → Filled count s (f s))
    → Filled count r (if p.1 then f p.0 else (p.0, false))
refill count r (s, true) f short (same, fewer) again =
    Filled-trans count (f s) same (again s fewer same.coherent)
refill count r (s, false) f short (same, none_left, e) again = (same, none_left, rw e short)

fill_loop-Filled :
    (rounds count : ℕ) (r : PktLineReader)
    → length r.body < rounds
    → IsReader r
    → Filled count r (fill_loop rounds count r)
unfolding fill_loop
fill_loop-Filled zero count r h k = absurd (omega arith)
fill_loop-Filled (suc rounds) count r h k = elim (Bool-cases (ltb (length r.buffer) count)) [
  | inr enough ↦ rw enough (SameStream-refl r k, ground arith)
  | inl short ↦ rw short (
      refill count r (pull r) (fill_loop rounds count) (ground arith) (pull-Pulled r k)
        λ s fewer j. fill_loop-Filled rounds count s (omega arith) j)
]

pub fill-Filled : (count : ℕ) (r : PktLineReader) → IsReader r → Filled count r (fill count r)
unfolding fill
fill-Filled count r h = fill_loop-Filled (length r.body + 1) count r (omega arith) h
