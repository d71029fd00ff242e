-- ===== src/Pack/Examples.antt =====
-- Runs of the pack reader's parts, and their theorems at concrete inputs.
use open_relic.Prelude.{ℕ, ◌≡◌, ◌≢◌, ◌≤◌, ◌<◌, refl, List, [], ◌∷◌, ◌++◌, some, none, arith, ok}
use open_relic.Prelude.Codes.{Text, codes}
use open_relic.GitObject.{blob}
use open_relic.Delta.Format.{encode_size}
use open_relic.Prelude.{true, false, length}
use open_relic.Prelude.Maps.{lookup}
use open_relic.Pack.{PackBase, PackObject}
use open_relic.Pack.Stream.{PackStream, new_stream, take_bytes, take_buffered, at_end}
use open_relic.Pack.Stream.Reading.{new_stream-IsStream, Takes, take_bytes-Takes}
use open_relic.Pack.Stream.Ending.{Ends, at_end-Ends, TakesSome, take_buffered-TakesSome}
use open_relic.Pack.Header.{read_entry_header}
use open_relic.Pack.Header.RoundTrip.{StreamAt, encode_entry_header, read_entry_header-encode}
use open_relic.Pack.Writes.{new_writes, found, write, flush}
use open_relic.Pack.Writes.Batches.{IsWrites, contents, write-IsWrites, flush-contents}
use open_relic.Pack.Recent.{new_recent, read, remember}
use open_relic.Pack.Recent.Laws.{IsRecent}
use open_relic.Pack.Recent.Window.{remember-IsRecent, read-remember}

abbrev chunks : List (List ℕ)
chunks = codes "PA" ∷ [] ∷ codes "CK and so on" ∷ []

abbrev whole : List ℕ
whole = codes "PACK and so on"

take_bytes-Takes_example : Takes whole 4 (new_stream chunks) (take_bytes 4 (new_stream chunks))
take_bytes-Takes_example = take_bytes-Takes whole 4 (new_stream chunks) (new_stream-IsStream chunks)

take_buffered-TakesSome_example :
    TakesSome whole (new_stream chunks) (take_buffered (new_stream chunks))
take_buffered-TakesSome_example =
    take_buffered-TakesSome whole (new_stream chunks) (new_stream-IsStream chunks)

at_end-Ends_example : Ends whole (new_stream chunks) (at_end (new_stream chunks))
at_end-Ends_example = at_end-Ends whole (new_stream chunks) (new_stream-IsStream chunks)

-- A blob of 300 bytes.
abbrev header : List ℕ
header = 0xbc ∷ 0x12 ∷ 7 ∷ []

header_stream : StreamAt header (encode_entry_header 3 300 ++ 7 ∷ []) (new_stream (header ∷ []))
unfolding encode_entry_header new_stream encode_size
header_stream = (new_stream-IsStream (header ∷ []), refl)

read_entry_header-encode_example :
    (t : PackStream) × (read_entry_header (new_stream (header ∷ []))
      ≡ ok (record { kind = 3; size = 300 }, t))
    × StreamAt header (7 ∷ []) t
read_entry_header-encode_example =
    read_entry_header-encode header 3 300 (7 ∷ []) (new_stream (header ∷ [])) (omega arith)
      (omega arith) header_stream

abbrev object : PackBase
object = record { type = blob; bytes = 1 ∷ 2 ∷ [] }

new_recent-IsRecent : IsRecent new_recent
new_recent-IsRecent = omega arith

remember-IsRecent_example : IsRecent (remember (codes "a") object new_recent)
remember-IsRecent_example = remember-IsRecent (codes "a") object new_recent new_recent-IsRecent

read-remember_example :
    (2 ≤ 4194304 → read (codes "a") (remember (codes "a") object new_recent) ≡ some object)
    × (4194304 < 2 → read (codes "a") (remember (codes "a") object new_recent) ≡ none)
    × ((j : Text) (x : PackBase)
        → j ≢ codes "a"
        → read j (remember (codes "a") object new_recent) ≡ some x
        → read j new_recent ≡ some x)
read-remember_example = read-remember (codes "a") object new_recent new_recent-IsRecent

abbrev stored : PackObject
stored = record {
  oid = codes "a";
  type = blob;
  bytes = 1 ∷ 2 ∷ [];
  delta = none;
  compressed = none;
}

new_writes-IsWrites : IsWrites (new_writes true)
unfolding new_writes
new_writes-IsWrites = record {
  counted = refl;
  few = omega arith;
  small = omega arith;
  batches = tt;
}

new_writes_batched : (new_writes true).batched ≡ true
unfolding new_writes
new_writes_batched = refl

write-IsWrites_example :
    IsWrites (write stored (new_writes true))
    × (found (lookup (codes "a") (new_writes true).pending) ≡ true
        → write stored (new_writes true) ≡ new_writes true)
    × (found (lookup (codes "a") (new_writes true).pending) ≡ false
        → contents (write stored (new_writes true)) ≡ contents (new_writes true) ++ (stored ∷ []))
write-IsWrites_example =
    write-IsWrites stored (new_writes true) new_writes_batched new_writes-IsWrites

one_pending : IsWrites (write stored (new_writes true))
one_pending = (write-IsWrites stored (new_writes true) new_writes_batched new_writes-IsWrites).0

flush-contents_example :
    IsWrites (flush (write stored (new_writes true)))
    × (length (flush (write stored (new_writes true))).pending ≡ 0)
    × (contents (flush (write stored (new_writes true)))
        ≡ contents (write stored (new_writes true)))
flush-contents_example = flush-contents (write stored (new_writes true)) one_pending
