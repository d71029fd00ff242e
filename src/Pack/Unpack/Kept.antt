-- ===== src/Pack/Unpack/Kept.antt =====
-- What is known of each object that is written, of each that is pending, and of each recent base.
use open_relic.Prelude.{
  ℕ, ◌+◌, ◌-◌, ◌≡◌, refl, List, [], ◌∷◌, not, ◌||◌, length, leb, ltb, ◌==◌, Option, some,
  Bool-cases, Option-cases, inl, inr, All, All-append,
}
use mathlib.Core.Path.{subst}
use open_relic.Prelude.Codes.{Text}
use open_relic.Prelude.Maps.{
  Map, lookup, insert, Entries, lookup-Entries, insert-Entries, without-Entries,
}
use open_relic.Pack.{PackObject, PackBase}
use open_relic.Pack.Recent.{
  RecentPackBases, recent_base_count, recent_base_bytes, forget, evict, remember,
}
use open_relic.Pack.Writes
use open_relic.Pack.Writes.{
  PackWrites, values, found, flush, make_room, put, flush_full, write, object_size,
  pack_write_batch_bytes, pack_write_batch_count,
}

module _ (P : Text → PackBase → Type 0) where
  evict-Entries : (m : Map PackBase) (bytes : ℕ) → Entries P m → Entries P (evict m bytes).entries
  unfolding evict
  evict-Entries [] bytes h = tt
  evict-Entries ((oid, oldest) ∷ m) bytes (p, h) =
      elim (Bool-cases
        (ltb recent_base_count (length ((oid, oldest) ∷ m)) || ltb recent_base_bytes bytes)) [
          | inl over ↦ rw (evict, over) (evict-Entries m (bytes - length oldest.bytes) h)
          | inr fits ↦ rw (evict, fits) (p, h)
        ]

  forget-Entries :
      (oid : Text) (r : RecentPackBases) → Entries P r.entries → Entries P (forget oid r).entries
  unfolding forget
  forget-Entries oid r h = elim (Option-cases (lookup oid r.entries)) [
    | inl absent ↦ rw (forget, absent) h
    | inr (previous, there) ↦ rw (forget, there) (without-Entries P r.entries oid h)
  ]

  pub remember-Entries :
      (oid : Text) (object : PackBase) (r : RecentPackBases)
      → P oid object
      → Entries P r.entries
      → Entries P (remember oid object r).entries
  unfolding remember
  remember-Entries oid object r p h =
      let s = forget oid r in
      elim (Bool-cases (ltb recent_base_bytes (length object.bytes))) [
        | inl large ↦ rw (remember, large) (forget-Entries oid r h)
        | inr small ↦
            rw (remember, small)
              (evict-Entries (insert oid object s.entries) (s.bytes + length object.bytes)
                (insert-Entries P s.entries oid object p (forget-Entries oid r h)))
      ]

module _ (G : PackObject → Type 0) where
  -- A pending object stands under its own id.
  abbrev pub IsPending : Text → PackObject → Type 0
  IsPending oid o = (o.oid ≡ oid) × G o

  pub record AllWrites (w : PackWrites) : Type 0 where
    pub written : All (λ (batch : List PackObject). All G batch) w.written
    pub pending : Entries IsPending w.pending

  values-All : (m : Map PackObject) → Entries IsPending m → All G (values m)
  values-All [] h = tt
  values-All ((k, o) ∷ m) ((e, g), h) = (g, values-All m h)

  pub flush-AllWrites : (w : PackWrites) → AllWrites w → AllWrites (flush w)
  unfolding flush
  flush-AllWrites w h = elim (Bool-cases (length w.pending == 0)) [
    | inl empty ↦ rw (flush, empty) h
    | inr some_objects ↦
        rw (flush, some_objects)
          (record {
            written =
                All-append (λ (batch : List PackObject). All G batch) w.written
                  (values w.pending ∷ []) h.written (values-All w.pending h.pending, tt);
            pending = tt;
          })
  ]

  room-AllWrites : (size : ℕ) (w : PackWrites) → AllWrites w → AllWrites (make_room size w)
  unfolding make_room
  room-AllWrites size w h = elim (Bool-cases (ltb pack_write_batch_bytes (w.bytes + size))) [
    | inl over ↦ rw (make_room, over) (flush-AllWrites w h)
    | inr fits ↦ rw (make_room, fits) h
  ]

  put-AllWrites : (o : PackObject) (w : PackWrites) → G o → AllWrites w → AllWrites (put o w)
  unfolding put
  put-AllWrites o w g h = record {
    written = h.written;
    pending = insert-Entries IsPending w.pending o.oid o (refl, g) h.pending;
  }

  full-AllWrites : (w : PackWrites) → AllWrites w → AllWrites (flush_full w)
  unfolding flush_full
  full-AllWrites w h =
      elim (Bool-cases
        (leb pack_write_batch_count (length w.pending) || leb pack_write_batch_bytes w.bytes)) [
          | inl full ↦ rw (flush_full, full) (flush-AllWrites w h)
          | inr room ↦ rw (flush_full, room) h
        ]

  pub write-AllWrites :
      (o : PackObject) (w : PackWrites) → G o → AllWrites w → AllWrites (write o w)
  unfolding write
  write-AllWrites o w g h = elim (Bool-cases (not w.batched)) [
    | inl single ↦
        rw (write, single)
          (record {
            written =
                All-append (λ (batch : List PackObject). All G batch) w.written ((o ∷ []) ∷ [])
                  h.written ((g, tt), tt);
            pending = h.pending;
          })
    | inr batched ↦ elim (Bool-cases (found (lookup o.oid w.pending))) [
      | inl old ↦ rw (write, batched, old) h
      | inr new ↦
          rw (write, batched, new)
            (full-AllWrites (put o (make_room (object_size o) w)) (
              put-AllWrites o (make_room (object_size o) w) g (room-AllWrites (object_size o) w h)))
    ]
  ]

  -- What is read back, from what is pending or from the sink.
  pub read-Held :
      (P : Text → PackBase → Type 0) (sink_read : Text → Option PackBase) (oid : Text)
      (w : PackWrites) (x : PackBase)
      → ((o : PackObject) → G o → P o.oid (record { type = o.type; bytes = o.bytes }))
      → ((y : PackBase) → sink_read oid ≡ some y → P oid y)
      → AllWrites w
      → Writes.read sink_read oid w ≡ some x
      → P oid x
  unfolding Writes.read
  read-Held P sink_read oid w x own sunk h e = elim (Option-cases (lookup oid w.pending)) [
    | inl absent ↦ sunk x (rw (Writes.read, absent) at e)
    | inr (o, there) ↦
        let same : ◌≡◌ {A = Option PackBase} (some (record { type = o.type; bytes = o.bytes }))
            (some x) =
          rw (Writes.read, there) at e in
        let value : ◌≡◌ {A = PackBase} (record { type = o.type; bytes = o.bytes }) x = cc in
        let (name, g) = lookup-Entries IsPending w.pending oid o h.pending there in
        subst (P oid) value
          (subst (λ k. P k (record { type = o.type; bytes = o.bytes })) name (own o g))
  ]
