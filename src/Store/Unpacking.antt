-- ===== src/Store/Unpacking.antt =====
-- A push whose pack is read by `readPack` into the object store: what unpacking is, of the two together.
use open_relic.Prelude.{ℕ, List, true, Option, none, some, Result, ok, err, thrown, out_of_fuel}
use open_relic.Prelude.Codes.{Text}
use open_relic.GitObject.{ObjectType}
use open_relic.Connectivity.Walk.{ObjectSource}
use open_relic.Pack.{Fault, PackErrorCode, PackObject, PackBase}
use open_relic.Pack.Unpack.{NativeInflation, read_pack}
use open_relic.ReceivePack.Request.{RequestError}
use open_relic.Store.{Repository}
use open_relic.Store.Push.{Unpack, Unpacked, complete, broken, refused}
use open_relic.Store.Objects.{Queries, IsTruthful, absorb, write_batches, absorb-Grows}
use open_relic.Store.Invariant.{Grows}

abbrev as_base : Option (ObjectType × List ℕ) → Option PackBase
as_base none = none
as_base (some found) = some (record { type = found.0; bytes = found.1 })

-- What `readPack` reads back from the object store, when these batches were written to it.
unfoldable pub reads_back : ObjectSource → List (List PackObject) → Text → Option PackBase
reads_back objects written oid = as_base (write_batches written objects.read oid)

abbrev pub ended : (PackErrorCode → Text) → Result Fault ℕ → Unpacked
ended message (ok count) = complete
ended message (err (thrown code)) = refused (message code)
ended message (err out_of_fuel) = broken

module _ (inflate_sync : List ℕ → ℕ → Option NativeInflation) (sha1 : List ℕ → List ℕ)
    (decode : List ℕ → Text) (queries : Queries)
    (message : List (List ℕ) → ObjectSource → PackErrorCode → Text) where
  -- `readPack(lines.rest(), this.#objects)`.
  unfoldable pub unpack_pack : Unpack
  unpack_pack pack objects =
      let (s, r) = read_pack inflate_sync sha1 decode (reads_back objects) pack true in
      (absorb queries s.writes.written objects, ended (message pack objects) r)

  pub unpack_pack-Grows :
      IsTruthful decode queries
      → (pack : List (List ℕ)) (objects : ObjectSource)
      → Grows decode objects (unpack_pack pack objects).0
  unfolding unpack_pack
  unpack_pack-Grows truthful pack objects =
      absorb-Grows decode queries
        (read_pack inflate_sync sha1 decode (reads_back objects) pack true).0.writes.written objects
        truthful

-- The objects that a push leaves are those of the repository, or those that its pack leaves.
module _ (decode : List ℕ → Text) (encode : Text → List ℕ) (unpack : Unpack)
    (error_message : RequestError → Text) (fuel : ℕ) (P : ObjectSource → Type 0) where
  Objects : Repository → Type 0
  Objects s = P s.objects
