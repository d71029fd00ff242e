-- ===== src/ReceivePack/Report.antt =====
-- apps/api/src/git/receive-pack.ts: the report that a client reads back, and how it is sent.
pub mod Framing
pub mod Lines
pub mod SideBand
use open_relic.Prelude.{
  ℕ, List, [], ◌∷◌, ◌++◌, Bool, true, false, ◌&&◌, ◌||◌, not, length, ltb, leb, ◌==◌, if◌then◌else◌,
  Result, ok, ◌>>=◌,
}
use open_relic.Prelude.Codes.{Text, codes}
use open_relic.Prelude.Strings.{member, trim}
use open_relic.PktLine.{pkt_line, flush_pkt, RangeError}
use open_relic.PktLine.Fill.{joined}
use open_relic.ReceivePack.{
  report_status_capability, report_status_v2_capability, side_band_64k_capability,
}

pub data RefStatus : Type 0 where
  accepted : Text → RefStatus
  rejected : Text → Text → RefStatus

pub record ReceivePackReport : Type 0 where
  pub unpack : Text
  pub refs : List RefStatus
  pub messages : List Text

abbrev pub data_band : ℕ
data_band = 1

abbrev pub progress_band : ℕ
progress_band = 2

unfoldable pub is_control : ℕ → Bool
is_control code = ltb code 0x20 || code == 0x7f

-- The loop of `oneLine`. It goes by code points, of which the ones past 0xffff are two code units,
-- none of them a control character; so it is the same by code units.
unfoldable pub flattened : Text → Text
flattened [] = []
flattened (c ∷ text) = (if is_control c then 0x20 else c) ∷ flattened text

unfoldable pub one_line : Text → Text
one_line text = trim (flattened text)

-- The lines of `reportLines`, without the newline.
unfoldable pub unpack_line : ReceivePackReport → Text
unpack_line report = codes "unpack " ++ one_line report.unpack

unfoldable pub ref_line : RefStatus → Text
ref_line (accepted name) = codes "ok " ++ one_line name
ref_line (rejected name reason) = codes "ng " ++ (one_line name ++ (codes " " ++ one_line reason))

unfoldable pub band_line : ℕ → List ℕ → Result RangeError (List ℕ)
band_line band bytes = pkt_line (band ∷ bytes)

-- The loop that wraps the lines of the report.
unfoldable pub data_lines : List (List ℕ) → Result RangeError (List (List ℕ))
data_lines [] = ok []
data_lines (line ∷ lines) = do
  first ← band_line data_band line
  more ← data_lines lines
  ok (first ∷ more)

-- `encode` is the `encode` of a TextEncoder.
module _ (encode : Text → List ℕ) where
  -- A line of text as a payload.
  abbrev pub payload : Text → List ℕ
  payload text = encode (text ++ codes "\n")

  -- The loop over the refs.
  unfoldable pub ref_lines : List RefStatus → Result RangeError (List (List ℕ))
  ref_lines [] = ok []
  ref_lines (ref ∷ refs) = do
    first ← pkt_line (payload (ref_line ref))
    more ← ref_lines refs
    ok (first ∷ more)

  unfoldable pub report_lines : ReceivePackReport → Result RangeError (List (List ℕ))
  report_lines report = do
    first ← pkt_line (payload (unpack_line report))
    refs ← ref_lines report.refs
    ok (first ∷ (refs ++ (flush_pkt ∷ [])))

  -- The loop over the messages.
  unfoldable pub message_lines : List Text → Result RangeError (List (List ℕ))
  message_lines [] = ok []
  message_lines (message ∷ messages) = do
    first ← band_line progress_band (payload (one_line message))
    more ← message_lines messages
    ok (first ∷ more)

  unfoldable pub result_lines : ReceivePackReport → Bool → Result RangeError (List (List ℕ))
  result_lines report false = report_lines report
  result_lines report true = do
    messages ← message_lines report.messages
    lines ← report_lines report
    wrapped ← data_lines lines
    ok (messages ++ (wrapped ++ (flush_pkt ∷ [])))

  unfoldable pub receive_pack_result : ReceivePackReport → List Text → Result RangeError (List ℕ)
  receive_pack_result report capabilities =
      let sent : Result RangeError (List ℕ) = (do
        lines ← result_lines report (member side_band_64k_capability capabilities)
        ok (joined lines)) in
      if not (member report_status_capability capabilities)
        && not (member report_status_v2_capability capabilities)
      then ok []
      else sent
