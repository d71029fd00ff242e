-- ===== src/Pack/Recent/Window.antt =====
-- What `remember` leaves in the window.
use open_relic.Prelude.{
  ℕ, ◌+◌, ◌-◌, ◌≤◌, ◌<◌, ◌≡◌, ◌≢◌, refl, true, false, [], ◌∷◌, ◌++◌, none, some, length, ltb,
  if◌then◌else◌, arith, Bool-cases, Option-cases, inl, inr,
}
use open_relic.Prelude.Codes.{Text, text_eq, text_eq_iff}
use open_relic.Prelude.Maps.{Map, lookup, insert, lookup-insert, lookup-without}
use open_relic.Pack.{PackBase}
use open_relic.Pack.Recent.{RecentPackBases, read, forget, evict, remember}
use open_relic.Pack.Recent.Laws.{
  total, Distinct, IsRecent, without-Distinct, without-present, insert-absent, insert-Distinct,
}

forget-IsRecent : (oid : Text) (r : RecentPackBases) → IsRecent r → IsRecent (forget oid r)
unfolding forget
forget-IsRecent oid r h = elim (Option-cases (lookup oid r.entries)) [
  | inl absent ↦ rw (absent, forget) h
  | inr (v, present) ↦
      let (bytes, count) = without-present oid r.entries v h.distinct present in
      rw (present, forget)
        (record {
          counted = omega (arith, h.counted);
          few = omega (arith, h.few);
          small = omega (arith, h.small);
          distinct = without-Distinct oid r.entries h.distinct;
        })
]

lookup-forget :
    (oid j : Text) (r : RecentPackBases)
    → lookup j (forget oid r).entries ≡ (if text_eq oid j then none else lookup j r.entries)
unfolding forget
lookup-forget oid j r = elim (Option-cases (lookup oid r.entries)) [
  | inl absent ↦ rw (absent, forget) (ground (arith, text_eq_iff oid j))
  | inr (v, present) ↦ rw (present, forget) (lookup-without oid j r.entries)
]

-- The counter of the loop is right, and its bounds hold when it ends.
evict-IsRecent :
    (m : Map PackBase) (bytes : ℕ) → bytes ≡ total m → Distinct m → IsRecent (evict m bytes)
unfolding evict
evict-IsRecent [] bytes e d = omega (arith, e)
evict-IsRecent ((k, v) ∷ m) bytes e (d, ds) =
    ground (arith, evict-IsRecent m (bytes - length v.bytes))

-- `remember` keeps the window's invariant: the bytes counted are those of the entries, there are at most 256 entries
-- and 4 MiB, and no name stands twice.
pub remember-IsRecent :
    (oid : Text) (object : PackBase) (r : RecentPackBases)
    → IsRecent r
    → IsRecent (remember oid object r)
unfolding remember
remember-IsRecent oid object r h =
    let s = forget oid r in
    let k = forget-IsRecent oid r h in
    let absent : lookup oid s.entries ≡ none =
      ground (arith, lookup-forget oid oid r, text_eq_iff oid oid) in
    elim (Bool-cases (ltb 4194304 (length object.bytes))) [
      | inl large ↦ rw large k
      | inr fits ↦ rw fits (
          evict-IsRecent (insert oid object s.entries) (s.bytes + length object.bytes)
            (omega (arith, k.counted, insert-absent oid object s.entries absent))
            (insert-Distinct oid object s.entries absent k.distinct))
    ]

-- What is dropped is the oldest; what is left answers as before.
evict_sound :
    (m : Map PackBase) (bytes : ℕ) (j : Text) (x : PackBase)
    → Distinct m
    → lookup j (evict m bytes).entries ≡ some x
    → lookup j m ≡ some x
unfolding evict lookup
evict_sound [] bytes j x d e = e
evict_sound ((k, v) ∷ m) bytes j x (d, ds) e =
    ground (arith, evict_sound m (bytes - length v.bytes) j x ds, text_eq_iff k j)

insert-append :
    (k : Text) (v : PackBase) (m : Map PackBase)
    → lookup k m ≡ none
    → insert k v m ≡ m ++ (k, v) ∷ []
unfolding insert lookup
insert-append k v [] h = refl
insert-append k v ((j, w) ∷ m) h = ground (arith, insert-append k v m)

lookup-last :
    (k : Text) (v : PackBase) (m : Map PackBase)
    → lookup k m ≡ none
    → lookup k (m ++ (k, v) ∷ []) ≡ some v
unfolding lookup
lookup-last k v [] h = ground (arith, text_eq_iff k k)
lookup-last k v ((j, w) ∷ m) h = ground (arith, lookup-last k v m)

-- The newest entry stays, if it fits by itself.
evict-newest :
    (m : Map PackBase) (k : Text) (v : PackBase) (bytes : ℕ)
    → lookup k m ≡ none
    → bytes ≡ total (m ++ (k, v) ∷ [])
    → length v.bytes ≤ 4194304
    → lookup k (evict (m ++ (k, v) ∷ []) bytes).entries ≡ some v
unfolding evict lookup
evict-newest [] k v bytes h e fits = ground (arith, text_eq_iff k k)
evict-newest ((j, w) ∷ m) k v bytes h e fits =
    ground (arith, evict-newest m k v (bytes - length w.bytes), lookup-last k v m, text_eq_iff j k)

forget-absent : (oid : Text) (r : RecentPackBases) → lookup oid (forget oid r).entries ≡ none
forget-absent oid r = ground (arith, lookup-forget oid oid r, text_eq_iff oid oid)

remember_others :
    (oid j : Text) (object x : PackBase) (r : RecentPackBases)
    → IsRecent r
    → j ≢ oid
    → read j (remember oid object r) ≡ some x
    → read j r ≡ some x
unfolding read remember
remember_others oid j object x r h other e =
    let s = forget oid r in
    let absent = forget-absent oid r in
    let d = insert-Distinct oid object s.entries absent (forget-IsRecent oid r h).distinct in
    let bytes = s.bytes + length object.bytes in
    ground (
      arith,
      e,
      evict_sound (insert oid object s.entries) bytes j x d,
      lookup-insert oid j object s.entries,
      lookup-forget oid j r,
      text_eq_iff oid j,
    )

remember_newest :
    (oid : Text) (object : PackBase) (r : RecentPackBases)
    → IsRecent r
    → length object.bytes ≤ 4194304
    → read oid (remember oid object r) ≡ some object
unfolding read remember
remember_newest oid object r h fits =
    let s = forget oid r in
    let absent = forget-absent oid r in
    let last = insert-append oid object s.entries absent in
    let size = (insert-absent oid object s.entries absent).0 in
    let small : ltb 4194304 (length object.bytes) ≡ false = ground arith in
    let counted : s.bytes + length object.bytes ≡ total (insert oid object s.entries) =
      omega (arith, (forget-IsRecent oid r h).counted, size) in
    rw (small, last)
      (evict-newest s.entries oid object (s.bytes + length object.bytes) absent (rw last at counted)
        fits)

remember_too_large :
    (oid : Text) (object : PackBase) (r : RecentPackBases)
    → 4194304 < length object.bytes
    → read oid (remember oid object r) ≡ none
unfolding read remember
remember_too_large oid object r large =
    let over : ltb 4194304 (length object.bytes) ≡ true = ground arith in
    rw over (forget-absent oid r)

-- Right after it was remembered, an object of at most 4 MiB is answered for its name, and for the
-- name of a larger one there is no answer; every answer for another name is one that the window
-- gave before.
pub read-remember :
    (oid : Text) (object : PackBase) (r : RecentPackBases)
    → IsRecent r
    → (length object.bytes ≤ 4194304 → read oid (remember oid object r) ≡ some object)
      × (4194304 < length object.bytes → read oid (remember oid object r) ≡ none)
      × ((j : Text) (x : PackBase)
          → j ≢ oid
          → read j (remember oid object r) ≡ some x
          → read j r ≡ some x)
read-remember oid object r h = (
  remember_newest oid object r h,
  remember_too_large oid object r,
  λ j x other e. remember_others oid j object x r h other e,
)
