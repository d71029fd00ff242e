-- ===== src/Pack/Unpack/Correct.antt =====
-- What `readPack` promises its caller.
use open_relic.Prelude.{
  ℕ, ◌≡◌, ◌≢◌, refl, sym, List, Bool, length, take, Option, none, some, Result, ok, err, thrown,
  out_of_fuel, All, ok-injective,
}
use mathlib.Core.Path.{subst}
use open_relic.PktLine.Fill.{joined}
use open_relic.Prelude.Codes.{Text}
use open_relic.GitObject.{ObjectType}
use open_relic.Delta.{apply_delta}
use open_relic.Pack.{Fault, PackObject, PackBase, PackDelta}
use open_relic.Pack.Action.{Unpacking, new_unpacking}
use open_relic.Pack.Stream.{new_stream}
use open_relic.Pack.Stream.Reading.{new_stream-IsStream}
use open_relic.Pack.Writes.{new_writes}
use open_relic.Pack.Unpack.{NativeInflation, hash_object, read_pack}
use open_relic.Pack.Unpack.Inflating.{After}
use open_relic.Pack.Unpack.Rounds.{IsKept, Stored}
use open_relic.Pack.Unpack.Whole.{HeaderIs, HasTrailer, Accepted, unpack_stream-Ends}

-- A delta that is kept rebuilds the bytes from a base of the same type, named by its hash.
abbrev pub IsRebuilt : (List ℕ → List ℕ) → ObjectType → List ℕ → Option PackDelta → Type 0
IsRebuilt sha1 type bytes none = Unit {0}
IsRebuilt sha1 type bytes (some delta) =
    (base : List ℕ) × (hash_object sha1 type base ≡ delta.base_oid)
    × (apply_delta base delta.bytes ≡ ok bytes)

-- The id of an object is the hash of its type and bytes, and its delta gives these bytes.
abbrev pub IsGenuine : (List ℕ → List ℕ) → PackObject → Type 0
IsGenuine sha1 o = (o.oid ≡ hash_object sha1 o.type o.bytes) × IsRebuilt sha1 o.type o.bytes o.delta

-- What a sink reads back, of whatever genuine objects it was given, is named by its hash.
abbrev pub IsSink : (List ℕ → List ℕ) → (List (List PackObject) → Text → Option PackBase) → Type 0
IsSink sha1 sink_read =
    (written : List (List PackObject)) (oid : Text) (x : PackBase)
    → All (λ (batch : List PackObject). All (IsGenuine sha1) batch) written
    → sink_read written oid ≡ some x
    → hash_object sha1 x.type x.bytes ≡ oid

module _ (inflate_sync : List ℕ → ℕ → Option NativeInflation) (sha1 : List ℕ → List ℕ)
    (decode : List ℕ → Text) (sink_read : List (List PackObject) → Text → Option PackBase) where
  hashed-IsKept :
      IsSink sha1 sink_read
      → IsKept inflate_sync sha1 decode sink_read
          (IsGenuine sha1)
          (λ oid x. hash_object sha1 x.type x.bytes ≡ oid)
  hashed-IsKept sink = record {
    own = λ o g. sym g.0;
    sunk = sink;
    alone = λ type bytes compressed. (refl, tt);
    rebuilt = λ base_oid base delta bytes compressed h e. (refl, (base.bytes, h, e));
  }

  -- Where nothing is asked of the objects.
  plain-IsKept : IsKept inflate_sync sha1 decode sink_read (λ o. Unit {0}) (λ oid x. Unit {0})
  plain-IsKept = record {
    own = λ o g. tt;
    sunk = λ written oid x h e. tt;
    alone = λ type bytes compressed. tt;
    rebuilt = λ base_oid base delta bytes compressed h e. tt;
  }

  module _ (Written : PackObject → Type 0) (Held : Text → PackBase → Type 0)
      (kept : IsKept inflate_sync sha1 decode sink_read Written Held) where
    read_pack-After :
        (body : List (List ℕ)) (batched : Bool)
        → After
            (joined body)
            (Stored inflate_sync sha1 decode sink_read Written Held)
            (Accepted inflate_sync sha1 decode sink_read Written Held kept (joined body))
            (read_pack inflate_sync sha1 decode sink_read body batched)
    unfolding read_pack new_unpacking new_writes new_stream
    read_pack-After body batched =
        unpack_stream-Ends inflate_sync sha1 decode sink_read Written Held kept (joined body)
          (new_unpacking body batched)
          (record {
            stream = new_stream-IsStream body;
            stored = (record { written = tt; pending = tt }, tt);
          })
          refl

  written_part :
      (whole : List ℕ) (Written : PackObject → Type 0) (Held : Text → PackBase → Type 0)
      (kept : IsKept inflate_sync sha1 decode sink_read Written Held)
      (r : Unpacking × Result Fault ℕ)
      → After whole
          (Stored inflate_sync sha1 decode sink_read Written Held)
          (Accepted inflate_sync sha1 decode sink_read Written Held kept whole)
          r
      → All (λ (batch : List PackObject). All Written batch) r.0.writes.written
  unfolding After
  written_part whole Written Held kept (s, ok count) (h, header, trailer, flushed) =
      ((h.stored).0).written
  written_part whole Written Held kept (s, err (thrown e)) h = ((h.stored).0).written
  written_part whole Written Held kept (s, err out_of_fuel) h = let bad = h in cc

  -- However `readPack` ends, and whatever the native inflater does, each object that its sink was asked to
  -- write is named by the hash of its type and bytes, and where it is written with a delta, the delta
  -- applies to a base of the same type whose hash is the base's id, and gives those bytes. What the sink
  -- reads back is named by its hash itself.
  pub read_pack-IsGenuine :
      (body : List (List ℕ)) (batched : Bool)
      → IsSink sha1 sink_read
      → All
          (λ (batch : List PackObject). All (IsGenuine sha1) batch)
          (read_pack inflate_sync sha1 decode sink_read body batched).0.writes.written
  read_pack-IsGenuine body batched sink =
      written_part (joined body) (IsGenuine sha1) (λ oid x. hash_object sha1 x.type x.bytes ≡ oid)
        (hashed-IsKept sink) (read_pack inflate_sync sha1 decode sink_read body batched)
        (read_pack-After (IsGenuine sha1) (λ oid x. hash_object sha1 x.type x.bytes ≡ oid)
          (hashed-IsKept sink) body batched)

  ended_well :
      (whole : List ℕ) (r : Unpacking × Result Fault ℕ)
      → After whole
          (Stored inflate_sync sha1 decode sink_read (λ o. Unit {0}) (λ oid x. Unit {0}))
          (Accepted inflate_sync sha1 decode sink_read
            (λ o. Unit {0})
            (λ oid x. Unit {0})
            plain-IsKept
            whole)
          r
      → (r.1 ≢ err out_of_fuel)
        × ((count : ℕ)
            → r.1 ≡ ok count
            → HeaderIs decode count (take 12 whole)
              × HasTrailer sha1 whole
              × (length r.0.writes.pending ≡ 0))
  unfolding After
  ended_well whole (s, ok n) (h, header, trailer, flushed) = (
    λ bad. cc,
    λ count e. (
      subst (λ m. HeaderIs decode m (take 12 whole)) (ok-injective (ok n) refl e) header,
      trailer,
      flushed,
    ),
  )
  ended_well whole (s, err (thrown e)) h = (λ bad. cc, λ count bad. absurd (cc))
  ended_well whole (s, err out_of_fuel) h = let bad = h in cc

  -- `readPack` always ends, on every body and whatever its calls give: none of its loops, those of the
  -- headers' sizes and offsets, of the inflater and of the deltas, runs out of its rounds.
  pub read_pack-ends :
      (body : List (List ℕ)) (batched : Bool)
      → (read_pack inflate_sync sha1 decode sink_read body batched).1 ≢ err out_of_fuel
  read_pack-ends body batched =
      (ended_well (joined body) (read_pack inflate_sync sha1 decode sink_read body batched)
        (read_pack-After (λ o. Unit {0}) (λ oid x. Unit {0}) plain-IsKept body batched)).0

  -- A body that `readPack` accepts, however it is cut into chunks, begins with the signature, a version of 2
  -- or 3 and the count that is returned; its last 20 bytes are the SHA-1 of all that is in front of them;
  -- and nothing is left that its sink was not asked to write.
  pub read_pack-Accepts :
      (body : List (List ℕ)) (batched : Bool) (count : ℕ)
      → (read_pack inflate_sync sha1 decode sink_read body batched).1 ≡ ok count
      → HeaderIs decode count (take 12 (joined body))
        × HasTrailer sha1 (joined body)
        × (length (read_pack inflate_sync sha1 decode sink_read body batched).0.writes.pending ≡ 0)
  read_pack-Accepts body batched count =
      (ended_well (joined body) (read_pack inflate_sync sha1 decode sink_read body batched)
          (read_pack-After (λ o. Unit {0}) (λ oid x. Unit {0}) plain-IsKept body batched)).1
        count
