-- ===== src/Pack/Unpack/Rounds.antt =====
-- A round of the loop of `readPack`, and all of them: what is true of the objects stays true.
use open_relic.Prelude.{
  ℕ, zero, suc, ◌≡◌, ◌≢◌, refl, ◌∙◌, List, ◌∷◌, leb, ◌==◌, Option, none, some, Result, ok, err,
  Stop, thrown, out_of_fuel, Bool-cases, Option-cases, inl, inr, All,
}
use open_relic.Prelude.Codes.{Text}
use open_relic.Prelude.Maps.{Entries, lookup-Entries}
use open_relic.GitObject.{ObjectType}
use open_relic.Hex.{to_hex}
use open_relic.Delta.{apply_delta, DeltaErrorCode}
use open_relic.Delta.Bounds.{apply_delta-ne-out_of_fuel}
use open_relic.Pack.{Fault, PackErrorCode, PackObject, PackBase, missing_base, corrupt}
use open_relic.Pack.Action.{Unpacking, Action, resume, reading}
use open_relic.Pack.Stream.{take_bytes}
use open_relic.Pack.Header.{EntryHeader, read_entry_header, read_back_offset}
use open_relic.Pack.Header.Reads.{take_bytes-Reads, read_entry_header-Reads, read_back_offset-Reads}
use open_relic.Pack.Recent
use open_relic.Pack.Recent.{RecentPackBases}
use open_relic.Pack.Writes.{PackWrites, pack_write_batch_bytes}
use open_relic.Pack.Unpack.{
  NativeInflation, inflate_entry, applied, required, base_at, find_base, store, flush_large,
  hash_object, resolve, whole_object, entry_object, read_entry, read_entries, object_type_for_kind,
  ofs_delta, ref_delta,
}
use open_relic.Pack.Unpack.Inflating.{
  Sound, After, resume-After, reading-After, inflate_entry-After,
}
use open_relic.Pack.Unpack.Kept.{
  AllWrites, flush-AllWrites, write-AllWrites, remember-Entries, read-Held,
}

-- `Written` is to hold of each object that is written, and `Held` of each base that is read under an id.
module _ (inflate_sync : List ℕ → ℕ → Option NativeInflation) (sha1 : List ℕ → List ℕ)
    (decode : List ℕ → Text) (sink_read : List (List PackObject) → Text → Option PackBase)
    (Written : PackObject → Type 0) (Held : Text → PackBase → Type 0) where
  -- What makes them hold: an object that is written can be read, the sink reads back what it was given, and
  -- the objects of the pack are as they have to be, whole ones and those that a delta gives.
  pub record IsKept : Type 0 where
    pub own : (o : PackObject) → Written o → Held o.oid (record { type = o.type; bytes = o.bytes })
    pub sunk :
        (written : List (List PackObject)) (oid : Text) (x : PackBase)
        → All (λ (batch : List PackObject). All Written batch) written
        → sink_read written oid ≡ some x
        → Held oid x
    pub alone :
        (type : ObjectType) (bytes compressed : List ℕ)
        → Written (record {
          oid = hash_object sha1 type bytes;
          type = type;
          bytes = bytes;
          delta = none;
          compressed = some compressed;
        })
    pub rebuilt :
        (base_oid : Text) (base : PackBase) (delta bytes compressed : List ℕ)
        → Held base_oid base
        → apply_delta base.bytes delta ≡ ok bytes
        → Written (record {
          oid = hash_object sha1 base.type bytes;
          type = base.type;
          bytes = bytes;
          delta = some (record { base_oid = base_oid; bytes = delta });
          compressed = some compressed;
        })

  abbrev pub Stored : PackWrites → RecentPackBases → Type 0
  Stored w r = AllWrites Written w × Entries Held r.entries

  module _ (kept : IsKept) (whole : List ℕ) where
    abbrev Fine : Unpacking → Type 0
    Fine = Sound whole Stored

    abbrev Ends {ℓ} : {A : Type ℓ} → (A → Unpacking → Type 0) → Unpacking × Result Fault A → Type 0
    Ends = After whole Stored

    store-Fine : (o : PackObject) (s : Unpacking) → Written o → Fine s → Fine (store o s)
    unfolding store
    store-Fine o s g h = record {
      stream = h.stream;
      stored = (
        write-AllWrites Written o s.writes g (h.stored).0,
        remember-Entries Held o.oid (record { type = o.type; bytes = o.bytes }) s.recent
            (kept.own o g) (h.stored).1,
      );
    }

    flush-Fine : (size : ℕ) (s : Unpacking) → Fine s → Fine (flush_large size s)
    unfolding flush_large
    flush-Fine size s h = elim (Bool-cases (leb pack_write_batch_bytes size)) [
      | inl large ↦
          rw (flush_large, large)
            (record {
              stream = h.stream;
              stored = (flush-AllWrites Written s.writes (h.stored).0, (h.stored).1);
            })
      | inr small ↦ rw (flush_large, small) h
    ]

    base-Held :
        (oid : Text) (s : Unpacking) (x : PackBase)
        → Fine s
        → find_base sink_read oid s ≡ some x
        → Held oid x
    unfolding find_base Recent.read
    base-Held oid s x h e = elim (Option-cases (Recent.read oid s.recent)) [
      | inl absent ↦
          read-Held Written Held (sink_read s.writes.written) oid s.writes x kept.own
            (λ y f. kept.sunk s.writes.written oid y ((h.stored).0).written f) (h.stored).0
            (rw (find_base, absent) at e)
      | inr (recent, there) ↦
          lookup-Entries Held s.recent.entries oid x (h.stored).1
            (there ∙ rw (find_base, there) at e)
    ]

    -- A step that throws nothing.
    pub going-Ends {ℓ κ} :
        {A : Type ℓ} {B : Type κ} (R : B → Unpacking → Type 0) (more : A → Action B) (a : A)
        (s : Unpacking)
        → Ends R (more a s)
        → Ends R (resume more (s, ok a))
    unfolding resume
    going-Ends R more a s h = h

    gives-Ends {ℓ} :
        {A : Type ℓ} (a : A) (s : Unpacking) → Fine s → Ends (λ (x : A) t. Fine t) (s, ok a)
    unfolding After
    gives-Ends a s h = h

    required-Ends {ℓ κ} :
        {A : Type ℓ} {B : Type κ} (R : B → Unpacking → Type 0) (more : A → Action B)
        (code : PackErrorCode) (o : Option A) (s : Unpacking)
        → Fine s
        → ((a : A) → o ≡ some a → Ends R (more a s))
        → Ends R (resume more (required code o s))
    unfolding resume After
    required-Ends R more code none s h k = h
    required-Ends R more code (some a) s h k = k a refl

    applied-Ends {ℓ} :
        {B : Type ℓ} (R : B → Unpacking → Type 0) (more : List ℕ → Action B)
        (r : Result (Stop DeltaErrorCode) (List ℕ)) (s : Unpacking)
        → r ≢ err out_of_fuel
        → Fine s
        → ((bytes : List ℕ) → r ≡ ok bytes → Ends R (more bytes s))
        → Ends R (resume more (applied r s))
    unfolding resume After applied
    applied-Ends R more (ok bytes) s n h k = k bytes refl
    applied-Ends R more (err (thrown e)) s n h k = h
    applied-Ends R more (err out_of_fuel) s n h k = absurd (n refl)

    abbrev Named : Text → Unpacking → Type 0
    Named oid t = Fine t

    resolve-Ends :
        (size : ℕ) (base_oid : Text) (s : Unpacking)
        → Fine s
        → Ends Named (resolve inflate_sync sha1 decode sink_read size base_oid s)
    unfolding resolve
    resolve-Ends size base_oid s h =
        resume-After whole Stored (λ e t. Fine t) Named _
          (inflate_entry inflate_sync sha1 decode sink_read size s)
          (inflate_entry-After whole Stored inflate_sync sha1 decode sink_read size s h)
          (λ delta t j.
            required-Ends Named _ missing_base (find_base sink_read base_oid t) t j (λ base e.
              applied-Ends Named _ (apply_delta base.bytes delta.bytes) t
                (apply_delta-ne-out_of_fuel base.bytes delta.bytes) j
                (λ bytes f. going-Ends Named _ tt _ (
                  gives-Ends _ _ (
                    store-Fine _ t
                      (kept.rebuilt base_oid base delta.bytes bytes delta.compressed
                        (base-Held base_oid t base j e) f)
                      j)))))

    alone-Ends :
        (type : ObjectType) (size : ℕ) (s : Unpacking)
        → Fine s
        → Ends Named (whole_object inflate_sync sha1 decode sink_read type size s)
    unfolding whole_object
    alone-Ends type size s h =
        resume-After whole Stored (λ e t. Fine t) Named _
          (inflate_entry inflate_sync sha1 decode sink_read size s)
          (inflate_entry-After whole Stored inflate_sync sha1 decode sink_read size s h)
          (λ entry t j.
            going-Ends Named _ tt _
              (gives-Ends _ _ (store-Fine _ t (kept.alone type entry.bytes entry.compressed) j)))

    entry_object-Ends :
        (offset : ℕ) (header : EntryHeader) (s : Unpacking)
        → Fine s
        → Ends Named (entry_object inflate_sync sha1 decode sink_read offset header s)
    unfolding entry_object
    entry_object-Ends offset header s h = elim (Bool-cases (header.kind == ofs_delta)) [
      | inl by_offset ↦
          rw (entry_object, by_offset)
            (resume-After whole Stored (λ a t. Fine t) Named _ (reading read_back_offset s)
              (reading-After whole Stored s (read_back_offset s.stream) h
                (read_back_offset-Reads whole s.stream h.stream))
              (λ back t j.
                required-Ends Named _ missing_base (base_at offset back t) t j
                  (λ oid e. resolve-Ends header.size oid t j)))
      | inr other ↦ elim (Bool-cases (header.kind == ref_delta)) [
        | inl by_name ↦
            rw (entry_object, other, by_name)
              (resume-After whole Stored (λ a t. Fine t) Named _ (reading (take_bytes 20) s)
                (reading-After whole Stored s (take_bytes 20 s.stream) h
                  (take_bytes-Reads whole 20 s.stream h.stream))
                (λ bytes t j. resolve-Ends header.size (to_hex bytes) t j))
        | inr alone ↦
            rw (entry_object, other, alone)
              (required-Ends Named _ corrupt (object_type_for_kind header.kind) s h
                (λ type e. alone-Ends type header.size s h))
      ]
    ]

    read_entry-Ends :
        (s : Unpacking)
        → Fine s
        → Ends (λ u t. Fine t) (read_entry inflate_sync sha1 decode sink_read s)
    unfolding read_entry
    read_entry-Ends s h =
        let R = λ (u : Unit {0}) (t : Unpacking). Fine t in
        let offset = s.stream.position in
        going-Ends R _ offset s (
          resume-After whole Stored (λ a t. Fine t) R _ (reading read_entry_header s)
            (reading-After whole Stored s (read_entry_header s.stream) h
              (read_entry_header-Reads whole s.stream h.stream))
            (λ header t j.
              let k = flush-Fine header.size t j in
              going-Ends R _ tt (flush_large header.size t) (
                resume-After whole Stored Named R _
                  (entry_object inflate_sync sha1 decode sink_read offset header
                    (flush_large header.size t))
                  (entry_object-Ends offset header (flush_large header.size t) k)
                  (λ oid u l.
                    gives-Ends tt (record u { oid_by_offset = (offset, oid) ∷ u.oid_by_offset })
                      (record { stream = l.stream; stored = l.stored })))))

    pub read_entries-Ends :
        (count : ℕ) (s : Unpacking)
        → Fine s
        → Ends (λ u t. Fine t) (read_entries inflate_sync sha1 decode sink_read count s)
    unfolding read_entries After
    read_entries-Ends zero s h = h
    read_entries-Ends (suc count) s h =
        resume-After whole Stored (λ u t. Fine t) (λ u t. Fine t) _
          (read_entry inflate_sync sha1 decode sink_read s) (read_entry-Ends s h)
          (λ u t j. read_entries-Ends count t j)
