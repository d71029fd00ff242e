-- ===== src/Pack/Unpack/Examples.antt =====
-- A pack of one blob, in two chunks.
use open_relic.Prelude.{
  ℕ, ◌≡◌, ◌≢◌, refl, List, [], ◌∷◌, ◌++◌, true, Option, none, ok, err, out_of_fuel, replicate, All,
  length, take,
}
use open_relic.PktLine.Fill.{joined}
use open_relic.Prelude.Codes.{Text, codes}
use open_relic.Pack.{PackObject, PackBase}
use open_relic.Prelude.Codes.{text_eq}
use open_relic.Prelude.Maps.{lookup, insert}
use open_relic.Delta.{is_safe_integer}
use open_relic.Inflate.Adler.{adler32, adler_loop, add_run}
use open_relic.Inflate.Reader
use open_relic.Inflate.Reader.{bits, bits_loop, align, is_done, new_inflater}
use open_relic.Inflate.Steps.{
  enter, read_zlib_header, read_stored_header, read_block, read_block_header, leave_block,
  stored_end, copy_stored, compare_checksum, read_checksum, step_in, step,
}
use open_relic.Inflate.Push.{push, push_loop, after_step, append, finish, pause, compact}
use open_relic.Pack.Action.{new_unpacking, resume, read_answer}
use open_relic.Pack.Stream.{
  new_stream, hold, pulled, pull, fill_loop, fill, take_bytes, take_buffered, put_back, at_end,
}
use open_relic.Pack.Header.{next_byte, size_loop, read_entry_header}
use open_relic.Pack.Writes
use open_relic.Pack.Writes.{new_writes, flush, make_room, put, flush_full}
use open_relic.Pack.Unpack.{
  NativeInflation, read_pack, unpack_stream, read_header, check_trailer, read_entries, read_entry,
  entry_object, whole_object, inflate_entry, inflate_first, inflate_buffered, inflate_rest,
  inflate_loop, end_entry, inflated, unread, store, flush_large, read_uint32, equal, every_same,
}
use open_relic.Pack.Unpack.Whole.{HeaderIs, HasTrailer}
use open_relic.Pack.Unpack.Correct.{
  IsGenuine, IsSink, read_pack-IsGenuine, read_pack-ends, read_pack-Accepts,
}

-- A digest that is 20 times the same byte, a sink that holds nothing, and no native inflater.
abbrev same_digest : List ℕ → List ℕ
same_digest bytes = replicate 20 7

abbrev ascii : List ℕ → Text
ascii bytes = bytes

abbrev empty_sink : List (List PackObject) → Text → Option PackBase
empty_sink written oid = none

abbrev no_native : List ℕ → ℕ → Option NativeInflation
no_native chunk size = none

-- The contents are one letter, in a stored block.
abbrev one_blob : List (List ℕ)
one_blob =
    (codes "PACK" ++ (0 ∷ 0 ∷ 0 ∷ 2 ∷ 0 ∷ 0 ∷ 0 ∷ 1 ∷ 0x31 ∷ 120 ∷ 1 ∷ 1 ∷ 1 ∷ 0 ∷ []))
    ∷ ((254 ∷ 255 ∷ 65 ∷ 0 ∷ 66 ∷ 0 ∷ 66 ∷ []) ++ replicate 20 7)
    ∷ []

accepted : (read_pack no_native same_digest ascii empty_sink one_blob true).1 ≡ ok 1
unfolding read_pack new_unpacking resume read_answer unpack_stream read_header check_trailer
    read_entries read_entry entry_object whole_object inflate_entry inflate_first inflate_buffered
    inflate_rest inflate_loop end_entry inflated unread store flush_large read_uint32 equal
    every_same new_stream hold pulled pull fill_loop fill take_bytes take_buffered put_back at_end
    next_byte size_loop read_entry_header is_safe_integer new_writes Writes.write flush make_room
    put flush_full lookup insert text_eq push push_loop after_step append finish pause compact step
    step_in read_zlib_header enter read_block_header read_block read_stored_header copy_stored
    stored_end leave_block read_checksum compare_checksum bits bits_loop align Reader.write
    Reader.resume is_done new_inflater adler32 adler_loop add_run
accepted = refl

empty-IsSink : IsSink same_digest empty_sink
empty-IsSink written oid x h e = let bad = e in cc

read_pack-IsGenuine_example :
    All
      (λ (batch : List PackObject). All (IsGenuine same_digest) batch)
      (read_pack no_native same_digest ascii empty_sink one_blob true).0.writes.written
read_pack-IsGenuine_example =
    read_pack-IsGenuine no_native same_digest ascii empty_sink one_blob true empty-IsSink

read_pack-ends_example :
    (read_pack no_native same_digest ascii empty_sink one_blob true).1 ≢ err out_of_fuel
read_pack-ends_example = read_pack-ends no_native same_digest ascii empty_sink one_blob true

read_pack-Accepts_example :
    HeaderIs ascii 1 (take 12 (joined one_blob))
    × HasTrailer same_digest (joined one_blob)
    × (length (read_pack no_native same_digest ascii empty_sink one_blob true).0.writes.pending ≡ 0)
read_pack-Accepts_example =
    read_pack-Accepts no_native same_digest ascii empty_sink one_blob true 1 accepted
