-- ===== src/Pack/Unpack/Whole.antt =====
-- All of `readPack`: what it has written however it ends, and what a pack that it accepts is.
use open_relic.Prelude.{
  ℕ, ◌+◌, ◌-◌, ◌≤◌, ◌≡◌, refl, sym, ap, ◌∙◌, List, [], ◌∷◌, Bool, true, false, not, ◌&&◌, length,
  take, drop, ◌==◌, Option, Result, ok, err, thrown, out_of_fuel, Bool-cases, ◌⊎◌, inl, inr, arith,
  take-length, length-drop, ==_iff,
}
use mathlib.Core.Path.{subst}
use open_relic.Prelude.Codes.{Text, text_eq}
use open_relic.Pack.{
  Fault, PackErrorCode, PackObject, PackBase, checksum_mismatch, trailing_bytes, not_a_pack,
  unsupported_version,
}
use open_relic.Pack.Action.{Unpacking, Action, resume, reading, read_answer, throw_if, ◌>>=◌}
use open_relic.Pack.Stream.{PackStream, take_bytes, at_end}
use open_relic.Pack.Stream.Reading.{Takes, take_bytes-Takes}
use open_relic.Pack.Stream
use open_relic.Pack.Stream.Ending.{at_end-Ends}
use open_relic.Pack.Writes
use open_relic.Pack.Writes.Batches.{pending-flush}
use open_relic.Pack.Recent
use open_relic.Pack.Unpack.{
  NativeInflation, equal, every_same, read_uint32, pack_signature, read_header, check_trailer,
  read_entries, unpack_stream,
}
use open_relic.Pack.Unpack.Inflating.{Sound, After, resume-After}
use open_relic.Pack.Unpack.Kept.{flush-AllWrites}
use open_relic.Pack.Unpack.Rounds.{IsKept, Stored, read_entries-Ends, going-Ends}

every_same-same :
    (left right : List ℕ) → length left ≡ length right → every_same left right ≡ true → left ≡ right
unfolding every_same
every_same-same [] [] n h = refl
every_same-same [] (y ∷ right) n h = absurd (omega arith)
every_same-same (x ∷ left) [] n h = absurd (omega arith)
every_same-same (x ∷ left) (y ∷ right) n h = elim (Bool-cases (x == y)) [
  | inl same ↦
      let rest = every_same-same left right (omega (arith, n)) (rw same at h) in
      ap (λ z. z ∷ left) ((==_iff x y).0 same) ∙ ap (λ zs. y ∷ zs) rest
  | inr other ↦ let bad = rw other at h in cc
]

equal-same : (left right : List ℕ) → equal left right ≡ true → left ≡ right
unfolding equal
equal-same left right h = elim (Bool-cases (length left == length right)) [
  | inl same ↦
      every_same-same left right ((==_iff (length left) (length right)).0 same)
        (rw (equal, same) at h)
  | inr other ↦ let bad = rw (equal, other) at h in cc
]

refute : (b : Bool) → not b ≡ false → b ≡ true
refute true h = refl
refute false h = let bad = h in cc

two_or_three :
    (version : ℕ)
    → (not (version == 2) && not (version == 3)) ≡ false
    → (version ≡ 2) ⊎ (version ≡ 3)
two_or_three version h = elim (Bool-cases (version == 2)) [
  | inl two ↦ inl ((==_iff version 2).0 two)
  | inr other ↦ inr ((==_iff version 3).0 (refute (version == 3) (rw other at h)))
]

-- The header of a pack, and its trailer.
abbrev pub HeaderIs : (List ℕ → Text) → ℕ → List ℕ → Type 0
HeaderIs decode count header =
    (text_eq (decode (take 4 header)) pack_signature ≡ true)
    × ((read_uint32 (drop 4 header) ≡ 2) ⊎ (read_uint32 (drop 4 header) ≡ 3))
    × (read_uint32 (drop 8 header) ≡ count)

abbrev pub HasTrailer : (List ℕ → List ℕ) → List ℕ → Type 0
HasTrailer sha1 whole =
    (20 ≤ length whole) × (drop (length whole - 20) whole ≡ sha1 (take (length whole - 20) whole))

module _ (inflate_sync : List ℕ → ℕ → Option NativeInflation) (sha1 : List ℕ → List ℕ)
    (decode : List ℕ → Text) (sink_read : List (List PackObject) → Text → Option PackBase)
    (Written : PackObject → Type 0) (Held : Text → PackBase → Type 0)
    (kept : IsKept inflate_sync sha1 decode sink_read Written Held) (whole : List ℕ) where
  abbrev Kept : Writes.PackWrites → Recent.RecentPackBases → Type 0
  Kept = Stored inflate_sync sha1 decode sink_read Written Held

  abbrev Fine : Unpacking → Type 0
  Fine = Sound whole Kept

  abbrev Ends {ℓ} : {A : Type ℓ} → (A → Unpacking → Type 0) → Unpacking × Result Fault A → Type 0
  Ends = After whole Kept

  throw_if-Ends {ℓ} :
      {B : Type ℓ} (R : B → Unpacking → Type 0) (more : Unit {0} → Action B) (test : Bool)
      (code : PackErrorCode) (s : Unpacking)
      → Fine s
      → (test ≡ false → Ends R (more tt s))
      → Ends R (resume more (throw_if test code s))
  unfolding After resume
  throw_if-Ends R more true code s h k = h
  throw_if-Ends R more false code s h k = k refl

  done-Ends {ℓ} :
      {A : Type ℓ} (Q : A → Unpacking → Type 0) (a : A) (s : Unpacking) → Q a s → Ends Q (s, ok a)
  unfolding After
  done-Ends Q a s h = h

  check-Ends :
      (Q : Unit {0} → Unpacking → Type 0) (test : Bool) (code : PackErrorCode) (s : Unpacking)
      → Fine s
      → (test ≡ false → Q tt s)
      → Ends Q (throw_if test code s)
  unfolding After
  check-Ends Q true code s h k = h
  check-Ends Q false code s h k = k refl

  -- A read of so many bytes.
  bytes-Ends {ℓ} :
      {B : Type ℓ} (R : B → Unpacking → Type 0) (more : List ℕ → Action B) (count : ℕ)
      (s : Unpacking)
      → Fine s
      → ((bytes : List ℕ) (t : Unpacking)
          → Fine t
          → s.stream.position + count ≤ length whole
          → bytes ≡ take count (drop s.stream.position whole)
          → t.stream.position ≡ s.stream.position + count
          → t.writes ≡ s.writes
          → Ends R (more bytes t))
      → Ends R (resume more (reading (take_bytes count) s))
  unfolding After resume read_answer
  bytes-Ends R more count s h k =
      by (take_bytes count s.stream) (take_bytes-Takes whole count s.stream h.stream)
    where
      by :
          (r : Result Fault (List ℕ × PackStream))
          → Takes whole count s.stream r
          → Ends R (resume more (read_answer s r))
      by (ok (bytes, t)) (within, same, j, moved) =
          k bytes (record s { stream = t }) (record { stream = j; stored = h.stored }) within same
            moved refl
      by (err (thrown e)) j = h
      by (err out_of_fuel) (e, short) = let bad = e in cc

  read_header-Ends :
      (s : Unpacking)
      → Fine s
      → s.stream.position ≡ 0
      → Ends
          (λ count t. Fine t × HeaderIs decode count (take 12 whole))
          (read_header inflate_sync sha1 decode sink_read s)
  unfolding read_header
  read_header-Ends s h start =
      let R = λ (count : ℕ) (t : Unpacking). Fine t × HeaderIs decode count (take 12 whole) in
      bytes-Ends R _ 12 s h (λ header t j within same moved unchanged.
        let e : take 12 whole ≡ header = sym (same ∙ ap (λ n. take 12 (drop n whole)) start) in
        let version = read_uint32 (drop 4 header) in
        throw_if-Ends R _ (not (text_eq (decode (take 4 header)) pack_signature)) not_a_pack t j
          (λ signed.
            throw_if-Ends R _ (not (version == 2) && not (version == 3)) unsupported_version t j
              (λ supported. done-Ends R (read_uint32 (drop 8 header)) t (
                j,
                subst (HeaderIs decode (read_uint32 (drop 8 header))) (sym e) (
                  refute (text_eq (decode (take 4 header)) pack_signature) signed,
                  two_or_three version supported,
                  refl,
                ),
              ))))

  last_bytes :
      (trailer hashed : List ℕ) (at : ℕ)
      → trailer ≡ take 20 (drop at whole)
      → at + 20 ≡ length whole
      → at + 20 ≤ length whole
      → trailer ≡ sha1 hashed
      → hashed ≡ take (length whole - 20) whole
      → drop (length whole - 20) whole ≡ sha1 (take (length whole - 20) whole)
  last_bytes trailer hashed at same last within digest front =
      let place : length whole - 20 ≡ at = omega arith in
      sym (
        take-length (drop (length whole - 20) whole) {n = 20}
          (omega (arith, length-drop (length whole - 20) whole)))
      ∙ ap (λ n. take 20 (drop n whole)) place
      ∙ sym same
      ∙ digest
      ∙ ap sha1 front

  check_trailer-Ends :
      (s : Unpacking)
      → Fine s
      → Ends
          (λ u t. Fine t × HasTrailer sha1 whole × (t.writes ≡ s.writes))
          (check_trailer inflate_sync sha1 decode sink_read s)
  unfolding check_trailer
  check_trailer-Ends s h =
      let R =
        λ (u : Unit {0}) (t : Unpacking). Fine t × HasTrailer sha1 whole × (t.writes ≡ s.writes) in
      bytes-Ends R _ 20 s h (λ trailer t j within same moved unchanged.
        by trailer t j within same moved unchanged (at_end t.stream)
          (at_end-Ends whole t.stream j.stream))
    where
      by :
          (trailer : List ℕ) (t : Unpacking)
          → Fine t
          → s.stream.position + 20 ≤ length whole
          → trailer ≡ take 20 (drop s.stream.position whole)
          → t.stream.position ≡ s.stream.position + 20
          → t.writes ≡ s.writes
          → (p : PackStream × Bool) → Stream.Ending.Ends whole t.stream p
          → Ends
              (λ (u : Unit {0}) v. Fine v × HasTrailer sha1 whole × (v.writes ≡ s.writes))
              (resume
                (λ ended. throw_if (not ended) trailing_bytes >>= (λ u.
                  (λ v. (v, ok (sha1 v.stream.hashed)))
                  >>= (λ digest. throw_if (not (equal trailer digest)) checksum_mismatch)))
                (record t { stream = p.0 }, ok p.1))
      by trailer t j within same moved unchanged (stream, false) (g, stays, more) =
          going-Ends inflate_sync sha1 decode sink_read Written Held kept whole _ _ false
            (record t { stream = stream })
            (throw_if-Ends _ _ true trailing_bytes (record t { stream = stream })
              (record { stream = g; stored = j.stored }) (λ bad. absurd (cc)))
      by trailer t j within same moved unchanged (stream, true) (g, ended, hashed, held) =
          let v : Unpacking = record t { stream = stream } in
          let w : Fine v = record { stream = g; stored = j.stored } in
          let R = λ (u : Unit {0}) (v : Unpacking).
            Fine v × HasTrailer sha1 whole × (v.writes ≡ s.writes) in
          going-Ends inflate_sync sha1 decode sink_read Written Held kept whole R _ true v (
            throw_if-Ends R _ false trailing_bytes v w (λ no_rest.
              going-Ends inflate_sync sha1 decode sink_read Written Held kept whole R _
                (sha1 stream.hashed) v
                (check-Ends R (not (equal trailer (sha1 stream.hashed))) checksum_mismatch v w
                  (λ right. (
                    w,
                    (
                      omega (arith, within),
                      last_bytes trailer stream.hashed s.stream.position same
                          (omega (arith, moved, ended)) within
                          (equal-same trailer (sha1 stream.hashed) (refute _ right)) hashed,
                    ),
                    unchanged,
                  )))))

  -- What is left at the end of a pack that is accepted.
  abbrev pub Accepted : ℕ → Unpacking → Type 0
  Accepted count t =
      Fine t
      × HeaderIs decode count (take 12 whole)
      × HasTrailer sha1 whole
      × (length t.writes.pending ≡ 0)

  pub unpack_stream-Ends :
      (s : Unpacking)
      → Fine s
      → s.stream.position ≡ 0
      → Ends Accepted (unpack_stream inflate_sync sha1 decode sink_read s)
  unfolding unpack_stream
  unpack_stream-Ends s h start =
      resume-After whole Kept (λ count t. Fine t × HeaderIs decode count (take 12 whole)) Accepted _
        (read_header inflate_sync sha1 decode sink_read s) (read_header-Ends s h start)
        (λ count t (j, header).
          resume-After whole Kept (λ u v. Fine v) Accepted _
            (read_entries inflate_sync sha1 decode sink_read count t)
            (read_entries-Ends inflate_sync sha1 decode sink_read Written Held kept whole count t j)
            (λ u v k.
              let w : Unpacking = record v { writes = Writes.flush v.writes } in
              let l : Fine w = record {
                stream = k.stream;
                stored = (flush-AllWrites Written v.writes (k.stored).0, (k.stored).1);
              } in
              going-Ends inflate_sync sha1 decode sink_read Written Held kept whole Accepted _ tt w
                (resume-After whole Kept
                  (λ u x. Fine x × HasTrailer sha1 whole × (x.writes ≡ w.writes)) Accepted _
                  (check_trailer inflate_sync sha1 decode sink_read w) (check_trailer-Ends w l)
                  (λ u x (m, trailer, same). done-Ends Accepted count x (
                    m,
                    header,
                    trailer,
                    ap (λ (y : Writes.PackWrites). length y.pending) same ∙ pending-flush v.writes,
                  )))))
