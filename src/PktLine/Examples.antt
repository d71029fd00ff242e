-- ===== src/PktLine/Examples.antt =====
-- Runs of the reader, and its theorems at concrete streams.
use open_relic.Prelude.{ℕ, ◌≡◌, refl, true, false, List, [], ◌∷◌, ok}
use open_relic.Prelude.Codes.{codes}
use open_relic.Prelude.Numbers.{hex_digit}
use open_relic.PktLine.{
  PktLineReader, new_reader, next, next_v2, next_any, next_framed, next_payload, declared_length,
  fill, fill_loop, pull, pulled, advance, without_control, rest, line, pkt_line,
}
use open_relic.PktLine.Fill.{unread, joined}
use open_relic.PktLine.Framing.{frame, Delivers, next-frame, next_v2-frame}
use open_relic.PktLine.RoundTrip.{Reads, write_section, read-write_section}

abbrev chunks : List (List ℕ)
chunks = codes "000" ∷ [] ∷ codes "7ab" ∷ codes "c0000PA" ∷ codes "CK" ∷ []

abbrev sample : PktLineReader
sample = record { body = chunks; buffer = codes "0001"; exhausted = false; handed_over = false }

next_runs : (next (new_reader chunks)).1 ≡ ok (line (codes "abc"))
unfolding next next_any next_framed next_payload declared_length fill fill_loop pull pulled advance
    new_reader without_control
next_runs = refl

sample_written : write_section (codes "abc" ∷ []) ≡ ok (codes "0007abc0000")
unfolding write_section pkt_line hex_digit
sample_written = refl

next-frame_example : Delivers (next sample) (frame false (unread sample))
next-frame_example = next-frame sample tt refl

next_v2-frame_example : Delivers (next_v2 sample) (frame true (unread sample))
next_v2-frame_example = next_v2-frame sample tt refl

read-write_section_example :
    (s : PktLineReader) × Reads (new_reader chunks) (codes "abc" ∷ []) s
    × (joined (rest s).1 ≡ codes "PACK")
read-write_section_example =
    read-write_section (codes "abc" ∷ []) (codes "0007abc0000") (codes "PACK") chunks sample_written
      refl
