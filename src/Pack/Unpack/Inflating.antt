-- ===== src/Pack/Unpack/Inflating.antt =====
-- The entries of a pack are read one after the other, however its body is cut into chunks: what an
-- inflater hands back is where the next entry begins.
use open_relic.Prelude.{
  ℕ, zero, suc, ◌+◌, ◌<◌, ◌≡◌, ◌≢◌, refl, sym, ap, ◌∙◌, List, [], ◌∷◌, ◌++◌, true, false, length,
  take, drop, Option, none, some, Result, ok, err, thrown, out_of_fuel, Bool-cases, ◌⊎◌, inl, inr,
  append-nil, append_assoc, length-append, drop-append, drop-drop, take-append-drop, arith,
}
use mathlib.Core.Path.{subst}
use open_relic.PktLine.Fill.{joined}
use open_relic.Inflate.Reader.{Inflater, new_inflater, zlib, is_done}
use open_relic.Inflate.Push.{Pushed, push}
use open_relic.Inflate.Tails.{IsTail, Handed, push-Handed}
use open_relic.Inflate.Termination.{push-ends}
use open_relic.Prelude.Codes.{Text}
use open_relic.Pack.{Fault, PackObject, PackBase}
use open_relic.Pack.Action.{Unpacking, resume, reading, read_answer}
use open_relic.Pack.Stream.{PackStream, take_buffered, put_back}
use open_relic.Pack.Stream.Laws.{IsStream}
use open_relic.Pack.Stream.Ending.{TakesSome, take_buffered-TakesSome, put_back-IsStream}
use open_relic.Pack.Stream.Shrinking.{Shrinks, take_buffered-Shrinks}
use open_relic.Pack.Header.Reads.{Reads}
use open_relic.Pack.Recent.{RecentPackBases}
use open_relic.Pack.Writes.{PackWrites}
use open_relic.Pack.Unpack.{
  NativeInflation, inflated, inflate_loop, inflate_rounds, inflate_buffered, inflate_first,
  inflate_entry, unread, end_entry, inflate_rest,
}

-- The pack and what is kept of it beside the stream.
module _ (whole : List ℕ) (Store : PackWrites → RecentPackBases → Type 0) where
  pub record Sound (s : Unpacking) : Type 0 where
    pub stream : IsStream whole s.stream
    pub stored : Store s.writes s.recent

  -- How a step ends: as is said, with a throw that leaves what is sound, but never for want of fuel.
  unfoldable pub After {ℓ} :
      {A : Type ℓ} → (A → Unpacking → Type 0) → Unpacking × Result Fault A → Type 0
  After Q (s, ok a) = Q a s
  After Q (s, err (thrown e)) = Sound s
  After Q (s, err out_of_fuel) = true ≡ false

  pub resume-After {ℓ κ} :
      {A : Type ℓ} {B : Type κ} (Q : A → Unpacking → Type 0) (R : B → Unpacking → Type 0)
      (more : A → Unpacking → Unpacking × Result Fault B) (r : Unpacking × Result Fault A)
      → After Q r
      → ((a : A) (t : Unpacking) → Q a t → After R (more a t))
      → After R (resume more r)
  unfolding After resume
  resume-After Q R more (s, ok a) h k = k a s h
  resume-After Q R more (s, err (thrown e)) h k = h
  resume-After Q R more (s, err out_of_fuel) h k = h

  pub reading-After {ℓ} :
      {A : Type ℓ} (s : Unpacking) (r : Result Fault (A × PackStream))
      → Sound s
      → Reads whole r
      → After (λ (a : A) (t : Unpacking). Sound t) (read_answer s r)
  unfolding After read_answer Reads
  reading-After s (ok (a, t)) h k = record { stream = k; stored = h.stored }
  reading-After s (err (thrown e)) h k = h
  reading-After s (err out_of_fuel) h k = k

  -- Bytes that were taken from the pack, up to where the stream is now.
  pub record Taken (from : ℕ) (taken : List ℕ) (s : Unpacking) : Type 0 where
    pub bytes : drop from whole ≡ taken ++ drop s.stream.position whole
    pub moved : s.stream.position ≡ from + length taken

  put_back-Sound :
      (from : ℕ) (taken bytes : List ℕ) (s : Unpacking)
      → Sound s
      → Taken from taken s
      → IsTail bytes taken
      → Sound (record s { stream = put_back bytes s.stream })
  put_back-Sound from taken bytes s h k (front, e) =
      let n = length front in
      let size = ap length e ∙ length-append front bytes in
      let rest = drop s.stream.position whole in
      record {
        stream =
            (put_back-IsStream whole bytes (from + n) s.stream h.stream
              (omega (arith, k.moved, size))
              (sym (drop-drop n from whole)
                ∙ ap (λ x. drop n x)
                    (k.bytes ∙ ap (λ x. x ++ rest) e ∙ append_assoc front bytes rest)
                ∙ drop-append front (bytes ++ rest) refl)).0;
        stored = h.stored;
      }

  -- A chunk that is taken in front of what follows.
  take_buffered-After {ℓ} :
      {B : Type ℓ} (R : B → Unpacking → Type 0)
      (more : List ℕ → Unpacking → Unpacking × Result Fault B) (from : ℕ) (taken : List ℕ)
      (s : Unpacking)
      → Sound s
      → Taken from taken s
      → ((chunk : List ℕ) (t : Unpacking)
          → Sound t
          → Taken from (taken ++ chunk) t
          → t.stream.buffer ≡ []
          → (s.stream.buffer ≡ [] → length t.stream.body < length s.stream.body)
          → After R (more chunk t))
      → After R (resume more (reading take_buffered s))
  unfolding After resume read_answer
  take_buffered-After R more from taken s h k go =
      by (take_buffered s.stream) (take_buffered-TakesSome whole s.stream h.stream)
        (take_buffered-Shrinks s.stream)
    where
      by :
          (r : Result Fault (List ℕ × PackStream))
          → TakesSome whole s.stream r
          → Shrinks s.stream r
          → After R (resume more (read_answer s r))
      by (ok (chunk, t)) (some_bytes, e, j, moved) (empty, less) =
          go chunk (record s { stream = t }) (record { stream = j; stored = h.stored })
            (record {
              bytes =
                  k.bytes
                  ∙ ap (λ x. taken ++ x) e
                  ∙ sym (append_assoc taken chunk (drop t.position whole));
              moved = omega (arith, moved, k.moved, length-append taken chunk);
            })
            empty less
      by (err (thrown e)) a b = h
      by (err out_of_fuel) (e, a) b = let bad = e in cc

  -- An inflater that was given these bytes.
  abbrev Given : List ℕ → Inflater → Type 0
  Given bytes i =
      IsTail i.input bytes × ((i.leftover ≡ []) ⊎ ((is_done i ≡ true) × IsTail i.leftover bytes))

  inflated-After {ℓ} :
      {B : Type ℓ} (R : B → Unpacking → Type 0)
      (more : Inflater → Unpacking → Unpacking × Result Fault B) (bytes : List ℕ) (p : Pushed)
      (s : Unpacking)
      → Handed bytes p
      → p.1 ≢ err out_of_fuel
      → Sound s
      → ((i : Inflater) → Given bytes i → After R (more i s))
      → After R (resume more (inflated p s))
  unfolding After resume inflated Handed
  inflated-After R more bytes (i, ok u) s g n h go = go i g
  inflated-After R more bytes (i, err (thrown e)) s g n h go = h
  inflated-After R more bytes (i, err out_of_fuel) s g n h go = absurd (n refl)

  joined_last :
      (parts : List (List ℕ)) (chunk : List ℕ)
      → joined (parts ++ (chunk ∷ [])) ≡ joined parts ++ chunk
  joined_last [] chunk = append-nil chunk
  joined_last (part ∷ parts) chunk =
      ap (λ x. part ++ x) (joined_last parts chunk) ∙ sym (append_assoc part (joined parts) chunk)

  -- Where the loop ends, what the inflater hands back ends the parts.
  abbrev Inflated : ℕ → Inflater × List (List ℕ) → Unpacking → Type 0
  Inflated from (i, parts) t =
      Sound t × Taken from (joined parts) t × IsTail i.leftover (joined parts)

  inflate_loop-After :
      (fuel from : ℕ) (i : Inflater) (parts : List (List ℕ)) (s : Unpacking)
      → length s.stream.body < fuel
      → s.stream.buffer ≡ []
      → Sound s
      → Taken from (joined parts) s
      → Given (joined parts) i
      → After (Inflated from) (inflate_loop fuel i parts s)
  unfolding inflate_loop After
  inflate_loop-After zero from i parts s less e h k g = absurd (omega arith)
  inflate_loop-After (suc fuel) from i parts s less e h k (input, handed) =
      elim (Bool-cases (is_done i)) [
        | inl over ↦
            rw (inflate_loop, over)
              (
                h,
                k,
                elim handed [
                  | inl nothing ↦
                      subst (λ x. IsTail x (joined parts)) (sym nothing)
                        (joined parts, sym (append-nil (joined parts)))
                  | inr (_, tail) ↦ tail
                ],
              )
        | inr more ↦
            rw (inflate_loop, more)
              (take_buffered-After (Inflated from) _ from (joined parts) s h k
                (λ chunk t j l empty shorter.
                  inflated-After (Inflated from) _ (joined parts ++ chunk) (push chunk false i) t
                    (push-Handed (joined parts) chunk false i input (open_leftover handed more))
                    (push-ends chunk false i) j
                    (λ i' g.
                      let same = sym (joined_last parts chunk) in
                      inflate_loop-After fuel from i' (parts ++ (chunk ∷ [])) t
                        (omega (arith, shorter e)) empty j (subst (λ x. Taken from x t) same l)
                        (subst (λ x. Given x i') same g))))
      ]
    where
      open_leftover :
          (i.leftover ≡ []) ⊎ ((is_done i ≡ true) × IsTail i.leftover (joined parts))
          → is_done i ≡ false
          → i.leftover ≡ []
      open_leftover (inl nothing) n = nothing
      open_leftover (inr (d, tail)) n = let bad = sym d ∙ n in cc

  end_entry-After :
      (from : ℕ) (p : Inflater × List (List ℕ)) (s : Unpacking)
      → Inflated from p s
      → After (λ e t. Sound t) (end_entry p s)
  unfolding end_entry unread After resume
  end_entry-After from (i, parts) s (h, k, tail) =
      put_back-Sound from (joined parts) i.leftover s h k tail

  inflate_rest-After :
      (from : ℕ) (first : List ℕ) (i : Inflater) (s : Unpacking)
      → s.stream.buffer ≡ []
      → Sound s
      → Taken from first s
      → Given first i
      → After (λ e t. Sound t) (inflate_rest first i s)
  unfolding inflate_rest
  inflate_rest-After from first i s e h k g =
      let same = sym (append-nil first) in
      resume-After (Inflated from) (λ e t. Sound t) end_entry
        (inflate_loop (inflate_rounds s) i (first ∷ []) s)
        (inflate_loop-After (inflate_rounds s) from i (first ∷ []) s (omega arith) e h
          (subst (λ x. Taken from x s) same k) (subst (λ x. Given x i) same g))
        (end_entry-After from)

  starting-Given :
      (size : ℕ) (first : List ℕ) → Handed first (push first false (new_inflater size zlib))
  unfolding new_inflater
  starting-Given size first = push-Handed [] first false (new_inflater size zlib) ([], refl) refl

  -- The native inflater, SHA-1, TextDecoder and the sink.
  module _ (inflate_sync : List ℕ → ℕ → Option NativeInflation) (sha1 : List ℕ → List ℕ)
      (decode : List ℕ → Text) (sink_read : List (List PackObject) → Text → Option PackBase) where
    native-After :
        (from size : ℕ) (first : List ℕ) (native : NativeInflation) (s : Unpacking)
        → Sound s
        → Taken from first s
        → After
            (λ e t. Sound t)
            (inflate_first inflate_sync sha1 decode sink_read first size (some native) s)
    unfolding inflate_first unread After resume
    native-After from size first native s h k =
        put_back-Sound from first (drop native.bytes_written first) s h k
          (take native.bytes_written first, sym (take-append-drop native.bytes_written first))

    inflate_first-After :
        (from size : ℕ) (first : List ℕ) (native : Option NativeInflation) (s : Unpacking)
        → s.stream.buffer ≡ []
        → Sound s
        → Taken from first s
        → After
            (λ e t. Sound t)
            (inflate_first inflate_sync sha1 decode sink_read first size native s)
    unfolding inflate_first
    inflate_first-After from size first (some native) s e h k =
        native-After from size first native s h k
    inflate_first-After from size first none s e h k =
        inflated-After (λ e t. Sound t) (inflate_rest first) first
          (push first false (new_inflater size zlib)) s (starting-Given size first)
          (push-ends first false (new_inflater size zlib)) h
          (λ i g. inflate_rest-After from first i s e h k g)

    -- An entry is read up to where its compressed bytes end.
    pub inflate_entry-After :
        (size : ℕ) (s : Unpacking)
        → Sound s
        → After (λ e t. Sound t) (inflate_entry inflate_sync sha1 decode sink_read size s)
    unfolding inflate_entry
    inflate_entry-After size s h =
        take_buffered-After (λ e t. Sound t) _ s.stream.position [] s h
          (record { bytes = refl; moved = omega arith })
          (λ chunk t j k empty shorter.
            inflate_first-After s.stream.position size chunk
              (inflate_buffered inflate_sync sha1 decode sink_read chunk size) t empty j k)
