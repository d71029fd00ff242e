-- ===== src/ReceivePack/Examples.antt =====
-- A push, its report and its screening at concrete values.
use open_relic.Prelude.{
  ℕ, ◌≡◌, ◌≢◌, ◌↔◌, refl, List, [], ◌∷◌, ◌++◌, map, All, get_elem?, true, false, ◌||◌, none, some,
  ok, arith, replicate,
}
use open_relic.Prelude.Codes.{Text, codes, text_eq}
use open_relic.Prelude.Strings.{IsDecoder, member, trim, trim_start, trim_end}
use open_relic.Prelude.Numbers.{hex_digit}
use open_relic.Prelude.Maps.{lookup}
use open_relic.GitObject.{zero_oid}
use open_relic.PktLine.{PktLineReader, pkt_line, new_reader, rest, flush_pkt}
use open_relic.PktLine.Fill.{joined}
use open_relic.PktLine.RoundTrip.{Reads, write_section}
use open_relic.ReceivePack.{
  ReceivePackCommand, understands_capability, report_status_capability, report_status_v2_capability,
  side_band_64k_capability,
}
use open_relic.ReceivePack.Request.{read_receive_pack_request}
use open_relic.ReceivePack.Request.Parsing.{first_line, other_line, IsCommand}
use open_relic.ReceivePack.Request.Commands.{read_receive_pack_request-write}
use open_relic.ReceivePack.Report.{
  ReceivePackReport, accepted, rejected, receive_pack_result, report_lines, ref_lines,
  message_lines, data_lines, band_line, result_lines, payload, one_line, flattened, is_control,
  unpack_line, ref_line,
}
use open_relic.ReceivePack.Report.Lines.{IsEncoder, IsLine, texts}
use open_relic.ReceivePack.Report.Framing.{receive_pack_result-Reads}
use open_relic.ReceivePack.Report.SideBand.{banded, message_payloads, receive_pack_result-banded}
use open_relic.ReceivePack.Screen.{screen_commands, is_ref_name}
use open_relic.ReceivePack.Screen.Safety.{Expects, screen_commands-Passes_iff}

-- On ASCII the platform's encoder and decoder are the identity.
abbrev ascii : List ℕ → List ℕ
ascii text = text

ascii-IsEncoder : IsEncoder ascii
ascii-IsEncoder = record { final_ascii = λ text c h. refl; printable = λ text h. h }

ascii-IsDecoder : IsDecoder ascii
ascii-IsDecoder bytes h = refl

abbrev new_id : Text
new_id = replicate 40 97

abbrev create_main : ReceivePackCommand
create_main = record { old_oid = zero_oid; new_oid = new_id; name = codes "refs/heads/main" }

abbrev delete_old : ReceivePackCommand
delete_old = record { old_oid = new_id; new_oid = zero_oid; name = codes "refs/heads/old" }

abbrev words : List Text
words = codes "report-status" ∷ codes "agent=git/2" ∷ []

abbrev lines : List (List ℕ)
lines = first_line create_main words ∷ map other_line (delete_old ∷ [])

abbrev wire : List ℕ
wire =
    (codes "0080" ++ first_line create_main words)
    ++ ((codes "0065" ++ other_line delete_old) ++ flush_pkt)

lines_written : write_section lines ≡ ok wire
unfolding write_section pkt_line hex_digit
lines_written = refl

-- A name that carries a status line of its own.
abbrev report : ReceivePackReport
report = record {
  unpack = codes "ok";
  refs =
      accepted (codes "refs/heads/main")
      ∷ rejected (10 ∷ codes "ok b") (codes "funny refname")
      ∷ [];
  messages = codes "hello" ∷ [];
}

abbrev report_wire : List ℕ
report_wire =
    codes "000eunpack ok"
    ++ (10
        ∷ (codes "0017ok refs/heads/main"
            ++ (10 ∷ (codes "001ang ok b funny refname" ++ (10 ∷ codes "0000")))))

abbrev plain_words : List Text
plain_words = codes "report-status" ∷ []

report_sent : receive_pack_result ascii report plain_words ≡ ok report_wire
unfolding receive_pack_result result_lines report_lines ref_lines pkt_line hex_digit one_line
    flattened trim trim_start trim_end is_control unpack_line ref_line member text_eq
report_sent = refl

create_main-IsCommand : IsCommand create_main
create_main-IsCommand = record {
  old_id = refl;
  new_id = refl;
  some_name = omega arith;
  one_line = refl;
  no_nul = ground arith;
}

delete_old-IsCommand : IsCommand delete_old
delete_old-IsCommand = record {
  old_id = refl;
  new_id = refl;
  some_name = omega arith;
  one_line = refl;
  no_nul = ground arith;
}

words_understood : All (λ w. understands_capability w ≡ true) words
unfolding understands_capability member text_eq
words_understood = (refl, (refl, tt))

read_receive_pack_request-write_example :
    (s : PktLineReader) × (read_receive_pack_request ascii
        (new_reader ((wire ++ codes "PACK") ∷ []))
      ≡ (s, ok (record { commands = create_main ∷ delete_old ∷ []; capabilities = words })))
    × (joined (rest s).1 ≡ codes "PACK")
read_receive_pack_request-write_example =
    read_receive_pack_request-write ascii create_main (delete_old ∷ []) words wire (codes "PACK")
      ((wire ++ codes "PACK") ∷ []) ascii-IsDecoder
      (create_main-IsCommand, (delete_old-IsCommand, tt)) (ground arith) (ground arith)
      words_understood lines_written refl

report_asked :
    (member report_status_capability plain_words || member report_status_v2_capability plain_words)
    ≡ true
unfolding member text_eq
report_asked = refl

no_side_band : member side_band_64k_capability plain_words ≡ false
unfolding member text_eq
no_side_band = refl

receive_pack_result-Reads_example :
    (s : PktLineReader) × Reads
      (new_reader (report_wire ∷ []))
      (map (payload ascii) (texts report))
      s
    × (joined (rest s).1 ≡ [])
    × All IsLine (map (payload ascii) (texts report))
receive_pack_result-Reads_example =
    receive_pack_result-Reads ascii report plain_words report_wire [] (report_wire ∷ [])
      ascii-IsEncoder report_asked no_side_band report_sent refl

abbrev band_words : List Text
band_words = codes "side-band-64k" ∷ codes "report-status-v2" ∷ []

band_asked :
    (member report_status_capability band_words || member report_status_v2_capability band_words)
    ≡ true
unfolding member text_eq
band_asked = refl

side_band : member side_band_64k_capability band_words ≡ true
unfolding member text_eq
side_band = refl

abbrev band_wire : List ℕ
band_wire =
    (codes "000b" ++ (2 ∷ (codes "hello" ++ (10 ∷ []))))
    ++ ((codes "0013" ++ (1 ∷ (codes "000eunpack ok" ++ (10 ∷ []))))
        ++ ((codes "001c" ++ (1 ∷ (codes "0017ok refs/heads/main" ++ (10 ∷ []))))
            ++ ((codes "001f" ++ (1 ∷ (codes "001ang ok b funny refname" ++ (10 ∷ []))))
                ++ (codes "0009" ++ (1 ∷ codes "00000000")))))

band_sent : receive_pack_result ascii report band_words ≡ ok band_wire
unfolding receive_pack_result result_lines report_lines ref_lines message_lines data_lines band_line
    pkt_line hex_digit one_line flattened trim trim_start trim_end is_control unpack_line ref_line
    member text_eq
band_sent = refl

receive_pack_result-banded_example :
    (ls : List (List ℕ)) × (s : PktLineReader) × Reads
      (new_reader (band_wire ∷ []))
      (banded 2 (message_payloads ascii report.messages) ++ banded 1 ls)
      s
    × (joined (rest s).1 ≡ [])
    × (write_section (map (payload ascii) (texts report)) ≡ ok (joined ls))
    × All IsLine (message_payloads ascii report.messages)
receive_pack_result-banded_example =
    receive_pack_result-banded ascii report band_words band_wire [] (band_wire ∷ []) ascii-IsEncoder
      band_asked side_band band_sent refl

screen_commands-Passes_iff_example :
    (get_elem?
        (screen_commands (create_main ∷ delete_old ∷ []) ((codes "refs/heads/old", new_id) ∷ []))
        1
      ≡ some none)
    ↔ ((is_ref_name (codes "refs/heads/old") ≡ true)
        × All (λ (d : ReceivePackCommand). d.name ≢ codes "refs/heads/old") (create_main ∷ [])
        × Expects delete_old
            (lookup (codes "refs/heads/old") ((codes "refs/heads/old", new_id) ∷ [])))
screen_commands-Passes_iff_example =
    screen_commands-Passes_iff (create_main ∷ []) delete_old []
      ((codes "refs/heads/old", new_id) ∷ [])
