-- ===== src/Pack/Writes.antt =====
-- apps/api/src/pack.ts: PackWrites, which gathers the objects of a pack into bounded batches. What the
-- sink was asked to write is a list of batches; a sink without `writeBatch` is asked for one object
-- at a time. A sink that throws is not modelled.
pub mod Batches
use open_relic.Prelude.{
  ℕ, ◌+◌, List, [], ◌∷◌, ◌++◌, Bool, true, false, not, ◌||◌, length, leb, ltb, ◌==◌, if◌then◌else◌,
  Option, none, some,
}
use open_relic.Prelude.Codes.{Text}
use open_relic.Prelude.Maps.{Map, lookup, insert}
use open_relic.Pack.{PackObject, PackBase, PackDelta}

abbrev pub pack_write_batch_bytes : ℕ
pack_write_batch_bytes = 4194304

abbrev pub pack_write_batch_count : ℕ
pack_write_batch_count = 128

-- The fields of `PackWrites`; `batched` says whether the sink has `writeBatch`, and `written` is what
-- it was asked to write.
pub record PackWrites : Type 0 where
  pub batched : Bool
  pub pending : Map PackObject
  pub bytes : ℕ
  pub written : List (List PackObject)

unfoldable pub new_writes : Bool → PackWrites
new_writes batched = record { batched = batched; pending = []; bytes = 0; written = [] }

-- The bytes that an object counts for.
abbrev pub delta_length : Option PackDelta → ℕ
delta_length none = 0
delta_length (some delta) = length delta.bytes

abbrev pub optional_length : Option (List ℕ) → ℕ
optional_length none = 0
optional_length (some bytes) = length bytes

unfoldable pub object_size : PackObject → ℕ
object_size o = length o.bytes + delta_length o.delta + optional_length o.compressed

-- `[...map.values()]`.
abbrev pub values : Map PackObject → List PackObject
values [] = []
values ((oid, object) ∷ m) = object ∷ values m

-- `map.has(oid)`.
abbrev pub found : Option PackObject → Bool
found none = false
found (some object) = true

unfoldable pub flush : PackWrites → PackWrites
flush s =
    if length s.pending == 0
    then s
    else record s { pending = []; bytes = 0; written = s.written ++ (values s.pending ∷ []) }

-- The flush in front of an object that would not fit any more.
unfoldable pub make_room : ℕ → PackWrites → PackWrites
make_room size s =
    let flushed = flush s in if ltb pack_write_batch_bytes (s.bytes + size) then flushed else s

unfoldable pub put : PackObject → PackWrites → PackWrites
put o s = record s { pending = insert o.oid o s.pending; bytes = s.bytes + object_size o }

-- The flush behind an object that fills the batch.
unfoldable pub flush_full : PackWrites → PackWrites
flush_full s =
    let flushed = flush s in
    if leb pack_write_batch_count (length s.pending) || leb pack_write_batch_bytes s.bytes
    then flushed
    else s

unfoldable pub write : PackObject → PackWrites → PackWrites
write o s =
    let gathered = flush_full (put o (make_room (object_size o) s)) in
    if not s.batched
    then record s { written = s.written ++ ((o ∷ []) ∷ []) }
    else if found (lookup o.oid s.pending)
    then s
    else gathered

-- `sink_read` is the `read` of the sink.
unfoldable pub read : (Text → Option PackBase) → Text → PackWrites → Option PackBase
read sink_read oid s = elim (lookup oid s.pending) [
  | none ↦ sink_read oid
  | some o ↦ some (record { type = o.type; bytes = o.bytes })
]
