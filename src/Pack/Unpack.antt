-- ===== src/Pack/Unpack.antt =====
-- apps/api/src/pack.ts: `readPack`, with `resolve` and `inflateEntry`. The native inflater, SHA-1 and
-- TextDecoder are parameters, and so is what the sink reads back, after the batches that it was asked to
-- write. The object that `readPack` hands out is its state when it ends.
pub mod Inflating
pub mod Kept
pub mod Rounds
pub mod Whole
pub mod Correct
mod Examples
use open_relic.Prelude.{
  ℕ, zero, suc, ◌+◌, ◌-◌, ◌*◌, List, [], ◌∷◌, ◌++◌, Bool, true, false, not, ◌&&◌, ◌||◌, take, drop,
  length, ltb, leb, ◌==◌, replicate, if◌then◌else◌, Option, none, some, Result, ok, err, Stop,
  thrown, out_of_fuel,
}
use open_relic.Prelude.Codes.{Text, codes, text_eq}
use open_relic.GitObject.{ObjectType, commit, tree, blob, tag, loose_object}
use open_relic.Hex.{to_hex}
use open_relic.Delta.{apply_delta, DeltaErrorCode, too_large}
use open_relic.Inflate.Reader.{Inflater, new_inflater, zlib, is_done, output}
use open_relic.Inflate.Push.{InflateError, already_ended, wrong_size, corrupted, Pushed, push}
use open_relic.Pack.{
  Fault, PackErrorCode, PackObject, PackBase, not_a_pack, unsupported_version, truncated,
  checksum_mismatch, trailing_bytes, missing_base, object_too_large, corrupt,
}
use open_relic.Pack.Action.{
  Unpacking, new_unpacking, Action, ◌>>=◌, ◌>>◌, gives, fails, modify, throw_if, reading,
}
use open_relic.Pack.Stream.{take_bytes, take_buffered, put_back, at_end}
use open_relic.Pack.Header.{EntryHeader, read_entry_header, read_back_offset}
use open_relic.Pack.Recent.{remember}
use open_relic.Pack.Writes.{pack_write_batch_bytes}
use open_relic.Pack.Recent
use open_relic.Pack.Writes

abbrev pub pack_signature : Text
pack_signature = codes "PACK"

abbrev pub ofs_delta : ℕ
ofs_delta = 6

abbrev pub ref_delta : ℕ
ref_delta = 7

abbrev pub object_type_for_kind : ℕ → Option ObjectType
object_type_for_kind kind =
    if kind == 1
    then some commit
    else if kind == 2
    then some tree
    else if kind == 3
    then some blob
    else if kind == 4
    then some tag
    else none

-- The code of an inflater's error is the code of the pack's.
abbrev pub inflate_code : InflateError → PackErrorCode
inflate_code already_ended = corrupt
inflate_code InflateError.truncated = truncated
inflate_code wrong_size = corrupt
inflate_code (corrupted c) = corrupt

unfoldable pub inflated : Pushed → Action Inflater
inflated (inflater, ok u) = gives inflater
inflated (inflater, err (thrown e)) = fails (thrown (inflate_code e))
inflated (inflater, err out_of_fuel) = fails out_of_fuel

abbrev pub delta_code : DeltaErrorCode → PackErrorCode
delta_code too_large = object_too_large
delta_code DeltaErrorCode.corrupt = corrupt

unfoldable pub applied : Result (Stop DeltaErrorCode) (List ℕ) → Action (List ℕ)
applied (ok bytes) = gives bytes
applied (err (thrown e)) = fails (thrown (delta_code e))
applied (err out_of_fuel) = fails out_of_fuel

pub record InflatedEntry : Type 0 where
  pub bytes : List ℕ
  pub compressed : List ℕ

-- What `inflateSync` gives with `info`: its buffer, and the bytes of the input that it took.
pub record NativeInflation : Type 0 where
  pub buffer : List ℕ
  pub bytes_written : ℕ

-- The loop over the parts, into an array of `length` zeros.
unfoldable pub compressed_prefix : List (List ℕ) → ℕ → List ℕ
compressed_prefix [] remaining = replicate remaining 0
compressed_prefix (part ∷ parts) remaining =
    let copied = take remaining part in
    let rest = compressed_prefix parts (remaining - length copied) in
    if remaining == 0 then [] else copied ++ rest

abbrev pub total_length : List (List ℕ) → ℕ
total_length [] = 0
total_length (part ∷ parts) = length part + total_length parts

-- `equal`: the same length, and the same byte at each index.
unfoldable pub every_same : List ℕ → List ℕ → Bool
every_same [] right = true
every_same (byte ∷ left) [] = false
every_same (byte ∷ left) (other ∷ right) = (byte == other) && every_same left right

unfoldable pub equal : List ℕ → List ℕ → Bool
equal left right = (length left == length right) && every_same left right

unfoldable pub unread : List ℕ → Action (Unit {0})
unread bytes = modify (λ s. record s { stream = put_back bytes s.stream })

-- The loop of `inflateEntry` over the chunks, with the parts so far. A round takes at least the buffer or
-- a chunk of the body.
unfoldable pub inflate_loop : ℕ → Inflater → List (List ℕ) → Action (Inflater × List (List ℕ))
inflate_loop zero inflater parts = fails out_of_fuel
inflate_loop (suc fuel) inflater parts =
    let more : Action (Inflater × List (List ℕ)) = (do
      chunk ← reading take_buffered
      inflater' ← inflated (push chunk false inflater)
      inflate_loop fuel inflater' (parts ++ (chunk ∷ []))) in
    if is_done inflater then gives (inflater, parts) else more

abbrev pub inflate_rounds : Unpacking → ℕ
inflate_rounds s = length s.stream.body + 2

-- The end of `inflateEntry`, behind the loop.
unfoldable pub end_entry : Inflater × List (List ℕ) → Action InflatedEntry
end_entry (inflater, parts) = do
  u ← unread inflater.leftover
  gives (record {
    bytes = output inflater;
    compressed = compressed_prefix parts (total_length parts - length inflater.leftover);
  })

unfoldable pub inflate_rest : List ℕ → Inflater → Action InflatedEntry
inflate_rest first started =
    (λ s. inflate_loop (inflate_rounds s) started (first ∷ []) s) >>= end_entry

unfoldable pub read_uint32 : List ℕ → ℕ
read_uint32 (a ∷ b ∷ c ∷ d ∷ bytes) = a * 16777216 + (b * 65536 + (c * 256 + d))
read_uint32 bytes = 0

-- The entry at an offset before `offset`.
unfoldable pub lookup_offset : ℕ → List (ℕ × Text) → Option Text
lookup_offset offset [] = none
lookup_offset offset ((start, oid) ∷ entries) =
    let rest = lookup_offset offset entries in if start == offset then some oid else rest

unfoldable pub base_at : ℕ → ℕ → Unpacking → Option Text
base_at offset back s =
    if ltb offset back then none else lookup_offset (offset - back) s.oid_by_offset

abbrev pub required {ℓ} : {A : Type ℓ} → PackErrorCode → Option A → Action A
required code none = fails (thrown code)
required code (some a) = gives a

-- apps/api/src/object.ts: `hashObject`.
abbrev pub hash_object : (List ℕ → List ℕ) → ObjectType → List ℕ → Text
hash_object sha1 type contents = to_hex (sha1 (loose_object type contents))

-- The recent bases, and then the sink with what is pending.
unfoldable pub find_base :
    (List (List PackObject) → Text → Option PackBase) → Text → Unpacking → Option PackBase
find_base sink_read oid s = elim (Recent.read oid s.recent) [
  | some recent ↦ some recent
  | none ↦ Writes.read (sink_read s.writes.written) oid s.writes
]

-- The write of an object, and the memory of it.
unfoldable pub store : PackObject → Unpacking → Unpacking
store o s = record s {
  writes = Writes.write o s.writes;
  recent = remember o.oid (record { type = o.type; bytes = o.bytes }) s.recent;
}

unfoldable pub flush_large : ℕ → Unpacking → Unpacking
flush_large size s =
    if leb pack_write_batch_bytes size then record s { writes = Writes.flush s.writes } else s

module _ (inflate_sync : List ℕ → ℕ → Option NativeInflation) (sha1 : List ℕ → List ℕ)
    (decode : List ℕ → Text) (sink_read : List (List PackObject) → Text → Option PackBase) where
  unfoldable pub inflate_buffered : List ℕ → ℕ → Option NativeInflation
  inflate_buffered chunk size =
      let answer : Option NativeInflation = elim (inflate_sync chunk size) [
        | none ↦ none
        | some result ↦
            if not (length result.buffer == size) || ltb (length chunk) result.bytes_written
            then none
            else some result
      ] in
      if ltb size 1024 || (ltb pack_write_batch_bytes size || ltb (length chunk) (size + 64))
      then none
      else answer

  -- What is done with the first chunk, where the native inflater can not, and where it can.
  unfoldable pub inflate_first : List ℕ → ℕ → Option NativeInflation → Action InflatedEntry
  inflate_first first size (some native) = do
    u ← unread (drop native.bytes_written first)
    gives (record { bytes = native.buffer; compressed = take native.bytes_written first })
  inflate_first first size none =
      inflated (push first false (new_inflater size zlib)) >>= inflate_rest first

  unfoldable pub inflate_entry : ℕ → Action InflatedEntry
  inflate_entry size = do
    first ← reading take_buffered
    inflate_first first size (inflate_buffered first size)

  unfoldable pub resolve : ℕ → Text → Action Text
  resolve size base_oid = do
    delta ← inflate_entry size
    base ← (λ s. required missing_base (find_base sink_read base_oid s) s)
    bytes ← applied (apply_delta base.bytes delta.bytes)
    let oid = hash_object sha1 base.type bytes
    u ← modify (
        store (record {
          oid = oid;
          type = base.type;
          bytes = bytes;
          delta = some (record { base_oid = base_oid; bytes = delta.bytes });
          compressed = some delta.compressed;
        }))
    gives oid

  unfoldable pub whole_object : ObjectType → ℕ → Action Text
  whole_object type size = do
    entry ← inflate_entry size
    let oid = hash_object sha1 type entry.bytes
    u ← modify (
        store (record {
          oid = oid;
          type = type;
          bytes = entry.bytes;
          delta = none;
          compressed = some entry.compressed;
        }))
    gives oid

  -- The object of an entry whose header was read.
  unfoldable pub entry_object : ℕ → EntryHeader → Action Text
  entry_object offset header =
      let by_offset : Action Text = (do
        back ← reading read_back_offset
        base_oid ← (λ s. required missing_base (base_at offset back s) s)
        resolve header.size base_oid) in
      let by_name : Action Text = (do
        bytes ← reading (take_bytes 20)
        resolve header.size (to_hex bytes)) in
      let alone : Action Text = (do
        type ← required corrupt (object_type_for_kind header.kind)
        whole_object type header.size) in
      if header.kind == ofs_delta
      then by_offset
      else if header.kind == ref_delta
      then by_name
      else alone

  -- A round of the loop over the entries.
  unfoldable pub read_entry : Action (Unit {0})
  read_entry = do
    offset ← (λ s. gives s.stream.position s)
    header ← reading read_entry_header
    u ← modify (flush_large header.size)
    oid ← entry_object offset header
    modify (λ s. record s { oid_by_offset = (offset, oid) ∷ s.oid_by_offset })

  unfoldable pub read_entries : ℕ → Action (Unit {0})
  read_entries zero = gives tt
  read_entries (suc count) = do u ← read_entry; read_entries count

  -- The number of objects, once the header was checked.
  unfoldable pub read_header : Action ℕ
  read_header = do
    header ← reading (take_bytes 12)
    u ← throw_if (not (text_eq (decode (take 4 header)) pack_signature)) not_a_pack
    let version = read_uint32 (drop 4 header)
    v ← throw_if (not (version == 2) && not (version == 3)) unsupported_version
    gives (read_uint32 (drop 8 header))

  -- The trailer, and that nothing follows.
  unfoldable pub check_trailer : Action (Unit {0})
  check_trailer = do
    trailer ← reading (take_bytes 20)
    ended ←
        (λ s. let (stream, ended) = at_end s.stream in gives ended (record s { stream = stream }))
    u ← throw_if (not ended) trailing_bytes
    digest ← (λ s. gives (sha1 s.stream.hashed) s)
    throw_if (not (equal trailer digest)) checksum_mismatch

  -- The result is the `objectCount` of the summary.
  unfoldable pub unpack_stream : Action ℕ
  unpack_stream = do
    count ← read_header
    u ← read_entries count
    v ← modify (λ s. record s { writes = Writes.flush s.writes })
    w ← check_trailer
    gives count

  unfoldable pub read_pack : List (List ℕ) → Bool → Unpacking × Result Fault ℕ
  read_pack body batched = unpack_stream (new_unpacking body batched)
