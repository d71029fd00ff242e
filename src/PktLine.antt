-- ===== src/PktLine.antt =====
-- apps/api/src/git/pkt-line.ts: Git's framing. A ReadableStream is the list of the chunks that
-- its reader has still to hand out; a Uint8Array is a list of bytes.
mod Examples
pub mod Fill
pub mod Framing
pub mod RoundTrip
use open_relic.Prelude.{
  ℕ, zero, suc, ◌+◌, ◌-◌, ◌≡◌, refl, Bool, true, false, not, ◌&&◌, List, [], ◌∷◌, ◌++◌, length,
  take, drop, all, ltb, leb, ◌==◌, if◌then◌else◌, Result, ok, err,
}
use open_relic.Prelude.Codes.{codes}
use open_relic.Prelude.Numbers.{to_string_hex, pad_start, is_hex, parse_hex}

abbrev pub pkt_line_length_bytes : ℕ
pkt_line_length_bytes = 4

abbrev pub pkt_line_max_bytes : ℕ
pkt_line_max_bytes = 65520

abbrev pub pkt_line_max_payload_bytes : ℕ
pkt_line_max_payload_bytes = pkt_line_max_bytes - pkt_line_length_bytes

abbrev pub flush_pkt : List ℕ
flush_pkt = codes "0000"

abbrev pub delimiter_pkt : List ℕ
delimiter_pkt = codes "0001"

-- The RangeError of `pktLine`.
pub data RangeError : Type 0 where
  payload_too_long : RangeError

unfoldable pub pkt_line : List ℕ → Result RangeError (List ℕ)
unfolding to_string_hex
pkt_line bytes =
    if ltb pkt_line_max_payload_bytes (length bytes)
    then err payload_too_long
    else ok (
        pad_start pkt_line_length_bytes 48 (to_string_hex (length bytes + pkt_line_length_bytes))
        ++ bytes)

-- The throws of `PktLineReader`, in the order in which they stand.
pub data PktLineError : Type 0 where
  control_packet handed_over inside_length inside_payload not_a_length : PktLineError
  no_meaning too_long : ℕ → PktLineError

-- `PktLine`, with the two further constructors of `ProtocolV2PktLine`.
pub data PktLine : Type 0 where
  line : List ℕ → PktLine
  flush end delimiter response_end : PktLine

-- The fields of `PktLineReader`; `body` is what `#reader` has still to hand out.
pub record PktLineReader : Type 0 where
  pub body : List (List ℕ)
  pub buffer : List ℕ
  pub exhausted : Bool
  pub handed_over : Bool

unfoldable pub new_reader : List (List ℕ) → PktLineReader
new_reader body = record { body = body; buffer = []; exhausted = false; handed_over = false }

abbrev pub is_empty : List ℕ → Bool
is_empty [] = true
is_empty (b ∷ bs) = false

-- `#pull` once a read has answered: a chunk, or done.
pub pulled : PktLineReader → List (List ℕ) → PktLineReader × Bool
pulled r [] = (record r { body = []; exhausted = true }, false)
pulled r (value ∷ more) = (
  record r { body = more; buffer = if is_empty r.buffer then value else r.buffer ++ value },
  true,
)

pub pull : PktLineReader → PktLineReader × Bool
pull r = if r.exhausted then (r, false) else pulled r r.body

-- The loop of `#fill`, for `rounds` rounds.
pub fill_loop : ℕ → ℕ → PktLineReader → PktLineReader × Bool
fill_loop zero count r = (r, false)
fill_loop (suc rounds) count r =
    let (r', more) = pull r in
    let again = fill_loop rounds count r' in
    if ltb (length r.buffer) count then if more then again else (r', false) else (r, true)

-- Every round but the last takes a chunk, so one round more than there are chunks is enough.
pub fill : ℕ → PktLineReader → PktLineReader × Bool
fill count r = fill_loop (length r.body + 1) count r

pub advance : ℕ → PktLineReader → PktLineReader
advance count r = record r { buffer = drop count r.buffer }

-- `#declaredLength`. Four bytes decode to four hexadecimal digits exactly when each is one.
pub declared_length : PktLineReader → Result PktLineError ℕ
declared_length r =
    let text = take pkt_line_length_bytes r.buffer in
    if all is_hex text && length text == 4 then ok (parse_hex 0 text) else err not_a_length

-- The part of `#next` behind the control packets: a line of `length` bytes.
pub next_payload : ℕ → PktLineReader → PktLineReader × Result PktLineError PktLine
next_payload size r =
    let (r', filled) = fill size r in
    if ltb size pkt_line_length_bytes
    then (r, err (no_meaning size))
    else if ltb pkt_line_max_bytes size
    then (r, err (too_long size))
    else if filled
    then (advance size r', ok (line (drop pkt_line_length_bytes (take size r'.buffer))))
    else (r', err inside_payload)

-- The part of `#next` behind the length: a control packet or a line.
pub next_framed :
    Bool → Result PktLineError ℕ → PktLineReader → PktLineReader × Result PktLineError PktLine
next_framed v2 (err e) r = (r, err e)
next_framed v2 (ok size) r =
    if size == 0
    then (advance pkt_line_length_bytes r, ok flush)
    else if v2 && size == 1
    then (advance pkt_line_length_bytes r, ok delimiter)
    else if v2 && size == 2
    then (advance pkt_line_length_bytes r, ok response_end)
    else next_payload size r

-- `#next`.
pub next_any : Bool → PktLineReader → PktLineReader × Result PktLineError PktLine
next_any v2 r =
    let (r', filled) = fill pkt_line_length_bytes r in
    if r.handed_over
    then (r, err handed_over)
    else if filled
    then next_framed v2 (declared_length r') r'
    else if is_empty r'.buffer
    then (r', ok end)
    else (r', err inside_length)

-- What the v0/v1 `next` makes of a packet.
pub without_control : Result PktLineError PktLine → Result PktLineError PktLine
without_control (ok delimiter) = err control_packet
without_control (ok response_end) = err control_packet
without_control l = l

unfoldable pub next : PktLineReader → PktLineReader × Result PktLineError PktLine
next r = let (r', l) = next_any false r in (r', without_control l)

unfoldable pub next_v2 : PktLineReader → PktLineReader × Result PktLineError PktLine
next_v2 r = next_any true r

-- `rest`: the chunks of the stream that takes over.
unfoldable pub rest : PktLineReader → PktLineReader × List (List ℕ)
rest r = (
  record r { body = []; buffer = []; handed_over = true },
  if is_empty r.buffer then r.body else r.buffer ∷ r.body,
)

-- `cancel`: the body's tail is given up.
unfoldable pub cancel : PktLineReader → PktLineReader
cancel r = if r.handed_over then r else record r { body = []; buffer = []; handed_over = true }
