-- ===== src/Pack/Writes/Batches.antt =====
-- The batches stay within their bounds, and nothing is lost or moved.
use open_relic.Prelude.{
  ℕ, suc, ◌+◌, ◌≤◌, ◌<◌, ◌≡◌, refl, sym, ap, ◌∙◌, List, [], ◌∷◌, ◌++◌, All, All-append, Bool, true,
  false, not, ◌||◌, ◌⊎◌, inl, inr, length, length-append, leb, ltb, ◌==◌, arith, append-nil,
  append_assoc, Bool-cases,
}
use open_relic.Prelude.Codes.{Text, text_eq}
use open_relic.Prelude.Maps.{Map, lookup, insert}
use open_relic.Pack.{PackObject}
use open_relic.Pack.Writes.{
  PackWrites, values, found, flush, make_room, put, flush_full, write, object_size,
}

abbrev pub total : List PackObject → ℕ
total [] = 0
total (o ∷ os) = object_size o + total os

-- A batch for the sink: at most 128 objects, and at most 4 MiB unless it is one object.
pub record IsBatch (os : List PackObject) : Type 0 where
  pub some_objects : 0 < length os
  pub few : length os ≤ 128
  pub small : (total os ≤ 4194304) ⊎ (length os ≡ 1)

pub record IsWrites (s : PackWrites) : Type 0 where
  pub counted : s.bytes ≡ total (values s.pending)
  pub few : length s.pending < 128
  pub small : s.bytes < 4194304
  pub batches : All IsBatch s.written

-- Every object that the sink was or is to be asked for, in order.
abbrev pub flat : List (List PackObject) → List PackObject
flat [] = []
flat (b ∷ bs) = b ++ flat bs

abbrev pub contents : PackWrites → List PackObject
contents s = flat s.written ++ values s.pending

flat-append : (a b : List (List PackObject)) → flat (a ++ b) ≡ flat a ++ flat b
flat-append [] b = refl
flat-append (x ∷ a) b = ap (λ t. x ++ t) (flat-append a b) ∙ sym (append_assoc x (flat a) (flat b))

total-append : (a b : List PackObject) → total (a ++ b) ≡ total a + total b
total-append [] b = omega arith
total-append (x ∷ a) b = omega (arith, total-append a b)

length-values : (m : Map PackObject) → length (values m) ≡ length m
length-values [] = refl
length-values ((k, o) ∷ m) = ap suc (length-values m)

values-insert :
    (oid : Text) (o : PackObject) (m : Map PackObject)
    → found (lookup oid m) ≡ false
    → values (insert oid o m) ≡ values m ++ (o ∷ [])
unfolding lookup insert
values-insert oid o [] h = refl
values-insert oid o ((k, x) ∷ m) h = elim (Bool-cases (text_eq k oid)) [
  | inl same ↦ absurd (cc (rw same at h))
  | inr other ↦ rw other (ap (λ t. x ∷ t) (values-insert oid o m (rw other at h)))
]

contents-flush : (s : PackWrites) → contents (flush s) ≡ contents s
unfolding flush
contents-flush s = elim (Bool-cases (length s.pending == 0)) [
  | inl empty ↦ rw empty refl
  | inr full ↦ rw full (
      append-nil (flat (s.written ++ (values s.pending ∷ [])))
      ∙ flat-append s.written (values s.pending ∷ [])
      ∙ ap (λ t. flat s.written ++ t) (append-nil (values s.pending)))
]

contents-make_room : (size : ℕ) (s : PackWrites) → contents (make_room size s) ≡ contents s
unfolding make_room
contents-make_room size s = elim (Bool-cases (ltb 4194304 (s.bytes + size))) [
  | inl over ↦ rw over (contents-flush s)
  | inr fits ↦ rw fits refl
]

contents-flush_full : (s : PackWrites) → contents (flush_full s) ≡ contents s
unfolding flush_full
contents-flush_full s = elim (Bool-cases (leb 128 (length s.pending) || leb 4194304 s.bytes)) [
  | inl full ↦ rw full (contents-flush s)
  | inr room ↦ rw room refl
]

absent-make_room :
    (oid : Text) (size : ℕ) (s : PackWrites)
    → found (lookup oid s.pending) ≡ false
    → found (lookup oid (make_room size s).pending) ≡ false
unfolding make_room flush lookup
absent-make_room oid size s h = elim (Bool-cases (ltb 4194304 (s.bytes + size))) [
  | inr fits ↦ rw fits h
  | inl over ↦ elim (Bool-cases (length s.pending == 0)) [
    | inl empty ↦ rw (over, empty) h
    | inr full ↦ rw (over, full) refl
  ]
]

contents-put :
    (o : PackObject) (s : PackWrites)
    → found (lookup o.oid s.pending) ≡ false
    → contents (put o s) ≡ contents s ++ (o ∷ [])
unfolding put
contents-put o s h =
    ap (λ t. flat s.written ++ t) (values-insert o.oid o s.pending h)
    ∙ sym (append_assoc (flat s.written) (values s.pending) (o ∷ []))

empty_flush :
    (batched : Bool) (pending : Map PackObject) (bytes : ℕ) (written : List (List PackObject))
    → bytes ≡ total (values pending)
    → (0 < length pending → IsBatch (values pending))
    → All IsBatch written
    → IsWrites
        (flush (record { batched = batched; pending = pending; bytes = bytes; written = written }))
unfolding flush
empty_flush batched [] bytes written e b h = record {
  counted = e;
  few = omega arith;
  small = omega (arith, e);
  batches = h;
}
empty_flush batched ((k, o) ∷ m) bytes written e b h =
    let full : (length ((k, o) ∷ m) == 0) ≡ false = ground arith in
    rw full (record {
      counted = refl;
      few = omega arith;
      small = omega arith;
      batches = All-append IsBatch written (values ((k, o) ∷ m) ∷ []) h (b (omega arith), tt);
    })

pub flush-IsWrites : (s : PackWrites) → IsWrites s → IsWrites (flush s)
flush-IsWrites s h =
    empty_flush s.batched s.pending s.bytes s.written h.counted
      (λ b. record {
        some_objects = omega (arith, length-values s.pending);
        few = omega (arith, length-values s.pending, h.few);
        small = inl (omega (arith, h.counted, h.small));
      })
      h.batches

pub pending-flush : (s : PackWrites) → length (flush s).pending ≡ 0
unfolding flush
pending-flush s = elim (Bool-cases (length s.pending == 0)) [
  | inl empty ↦ rw empty (ground (arith, empty))
  | inr full ↦ rw full refl
]

make_room-IsWrites :
    (size : ℕ) (s : PackWrites)
    → IsWrites s
    → IsWrites (make_room size s)
      × ((length (make_room size s).pending ≡ 0) ⊎ ((make_room size s).bytes + size ≤ 4194304))
unfolding make_room
make_room-IsWrites size s h = elim (Bool-cases (ltb 4194304 (s.bytes + size))) [
  | inl over ↦ rw over (flush-IsWrites s h, inl (pending-flush s))
  | inr fits ↦ rw fits (h, inr (ground arith))
]

-- The state behind `put`, which a flush may have to follow.
record IsFilled (s : PackWrites) : Type 0 where
  pub counted : s.bytes ≡ total (values s.pending)
  pub batch : IsBatch (values s.pending)
  pub batches : All IsBatch s.written

put-IsFilled :
    (o : PackObject) (s : PackWrites)
    → IsWrites s
    → found (lookup o.oid s.pending) ≡ false
    → (length s.pending ≡ 0) ⊎ (s.bytes + object_size o ≤ 4194304)
    → IsFilled (put o s)
unfolding put
put-IsFilled o s h absent room =
    let e = values-insert o.oid o s.pending absent in
    let sum : s.bytes + object_size o ≡ total (values (insert o.oid o s.pending)) =
      omega (arith, ap total e, total-append (values s.pending) (o ∷ []), h.counted) in
    let size : length (values (insert o.oid o s.pending)) ≡ length s.pending + 1 =
      omega
        (arith, ap length e, length-append (values s.pending) (o ∷ []), length-values s.pending) in
    record {
      counted = sum;
      batch = record {
        some_objects = omega (arith, size);
        few = omega (arith, size, h.few);
        small = elim room [
          | inl empty ↦ inr (omega (arith, size, empty))
          | inr fits ↦ inl (omega (arith, sum, fits))
        ];
      };
      batches = h.batches;
    }

flush_full-IsWrites : (s : PackWrites) → IsFilled s → IsWrites (flush_full s)
unfolding flush_full
flush_full-IsWrites s h = elim (Bool-cases (leb 128 (length s.pending) || leb 4194304 s.bytes)) [
  | inl full ↦
      rw full (empty_flush s.batched s.pending s.bytes s.written h.counted (λ _. h.batch) h.batches)
  | inr room ↦ rw room (record {
    counted = h.counted;
    few = ground (arith, room);
    small = ground (arith, room);
    batches = h.batches;
  })
]

-- With a sink that takes batches, `write` keeps the bounds: fewer than 128 objects and less than 4 MiB
-- are pending, and every batch has at most 128 objects, and at most 4 MiB unless it is a single
-- object. An object whose id is pending changes nothing; any other one comes last in the order of
-- all objects, written or pending, of which none is lost or moved.
pub write-IsWrites :
    (o : PackObject) (s : PackWrites)
    → s.batched ≡ true
    → IsWrites s
    → IsWrites (write o s)
      × (found (lookup o.oid s.pending) ≡ true → write o s ≡ s)
      × (found (lookup o.oid s.pending) ≡ false → contents (write o s) ≡ contents s ++ (o ∷ []))
unfolding write
write-IsWrites o s b h = elim (Bool-cases (found (lookup o.oid s.pending))) [
  | inl pending ↦ rw (ap not b, pending) (h, λ _. refl, λ f. absurd (cc))
  | inr absent ↦
      let t = make_room (object_size o) s in
      let (k, room) = make_room-IsWrites (object_size o) s h in
      let gone = absent-make_room o.oid (object_size o) s absent in
      rw (ap not b, absent)
        (
          flush_full-IsWrites (put o t) (put-IsFilled o t k gone room),
          λ f. absurd (cc),
          λ _.
              contents-flush_full (put o t)
              ∙ contents-put o t gone
              ∙ ap (λ x. x ++ (o ∷ [])) (contents-make_room (object_size o) s),
        )
]

-- The last flush keeps the bounds, leaves nothing pending, and asks the sink for all objects in their
-- order.
pub flush-contents :
    (s : PackWrites)
    → IsWrites s
    → IsWrites (flush s) × (length (flush s).pending ≡ 0) × (contents (flush s) ≡ contents s)
flush-contents s h = (flush-IsWrites s h, pending-flush s, contents-flush s)
