-- ===== src/Pack/Stream.antt =====
-- `PackStream`: the bytes of a pack, and the running checksum of all but the last 20 of them. A
-- ReadableStream is the list of its chunks, and a SHA-1 in progress the bytes that it was given.
pub mod Laws
pub mod Reading
pub mod Ending
pub mod Shrinking
use open_relic.Prelude.{
  ℕ, zero, suc, ◌+◌, ◌-◌, min, Bool, true, false, List, [], ◌∷◌, ◌++◌, length, take, drop, ltb, leb,
  ◌==◌, if◌then◌else◌, Result, ok, err, thrown,
}
use open_relic.Pack.{Fault, truncated}

abbrev pub trailer_bytes : ℕ
trailer_bytes = 20

pub record PackStream : Type 0 where
  pub body : List (List ℕ)
  pub buffer : List ℕ
  pub held : List ℕ
  pub hashed : List ℕ
  pub exhausted : Bool
  pub position : ℕ

unfoldable pub new_stream : List (List ℕ) → PackStream
new_stream body = record {
  body = body;
  buffer = [];
  held = [];
  hashed = [];
  exhausted = false;
  position = 0;
}

-- `#hold`: everything but the last 20 bytes seen so far is hashed.
unfoldable pub hold : List ℕ → PackStream → PackStream
hold chunk s =
    let combined = s.held ++ chunk in
    let keep = min trailer_bytes (length combined) in
    if leb trailer_bytes (length chunk)
    then record s {
      hashed = (s.hashed ++ s.held) ++ take (length chunk - trailer_bytes) chunk;
      held = drop (length chunk - trailer_bytes) chunk;
    }
    else record s {
      hashed = s.hashed ++ take (length combined - keep) combined;
      held = drop (length combined - keep) combined;
    }

-- `#pull` once a read has answered. An empty buffer is replaced by the chunk, and another grows.
unfoldable pub pulled : PackStream → List (List ℕ) → PackStream × Bool
pulled s [] = (record s { exhausted = true; body = [] }, false)
pulled s (value ∷ more) =
    let t = hold value s in
    (
      record t { body = more; buffer = if length s.buffer == 0 then value else s.buffer ++ value },
      true,
    )

unfoldable pub pull : PackStream → PackStream × Bool
pull s = if s.exhausted then (s, false) else pulled s s.body

-- The loops `while (this.#buffer.length < count)`, for `rounds` rounds; the result says whether the
-- buffer has `count` bytes.
unfoldable pub fill_loop : ℕ → ℕ → PackStream → PackStream × Bool
fill_loop zero count s = (s, false)
fill_loop (suc rounds) count s =
    let (t, more) = pull s in
    let again = fill_loop rounds count t in
    if ltb (length s.buffer) count then if more then again else (t, false) else (s, true)

unfoldable pub fill : ℕ → PackStream → PackStream × Bool
fill count s = fill_loop (length s.body + 1) count s

unfoldable pub take_bytes : ℕ → PackStream → Result Fault (List ℕ × PackStream)
take_bytes count s =
    let (t, filled) = fill count s in
    if filled
    then ok (
      take count t.buffer,
      record t { buffer = drop count t.buffer; position = t.position + count },
    )
    else err (thrown truncated)

-- `takeBuffered`: a buffer is empty exactly when it has less than one byte.
unfoldable pub take_buffered : PackStream → Result Fault (List ℕ × PackStream)
take_buffered s =
    let (t, filled) = fill 1 s in
    if filled
    then ok (t.buffer, record t { buffer = []; position = t.position + length t.buffer })
    else err (thrown truncated)

-- `unread`: the tail that an inflater hands back. It was taken before, so that the position stays
-- at 0 or above.
unfoldable pub put_back : List ℕ → PackStream → PackStream
put_back bytes s = if length bytes == 0 then s else record s {
  buffer = if length s.buffer == 0 then bytes else bytes ++ s.buffer;
  position = s.position - length bytes;
}

unfoldable pub at_end : PackStream → PackStream × Bool
at_end s = let (t, filled) = fill 1 s in (t, length t.buffer == 0)
