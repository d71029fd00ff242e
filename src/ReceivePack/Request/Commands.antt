-- ===== src/ReceivePack/Request/Commands.antt =====
-- The command list of a push is read as the client wrote it.
use open_relic.Prelude.{
  ℕ, zero, suc, ◌+◌, ◌≤◌, ◌<◌, ◌≡◌, refl, sym, ap, ◌∙◌, List, [], ◌∷◌, ◌++◌, map, All, length,
  arith, true, none, ok, append_assoc, append-nil, length-append,
}
use open_relic.Prelude.Codes.{Text}
use open_relic.Prelude.Strings.{IsDecoder}
use open_relic.PktLine.{PktLineReader, line, flush, next, new_reader, rest}
use open_relic.PktLine.Fill.{joined}
use open_relic.PktLine.RoundTrip.{
  Reads, flushed, read_line, write_section, read-write_section, write_section_fits, section,
}
use open_relic.ReceivePack.{ReceivePackCommand, understands_capability}
use open_relic.ReceivePack.Request.{
  read_command, request_step, request_loop, read_receive_pack_request, negotiate, first_unsupported,
}
use open_relic.ReceivePack.Request.Parsing.{
  IsCommand, IsWord, first_line, other_line, parse_text-first_line, parse_text-other_line,
}

abbrev pub IsAscii : Text → Type 0
IsAscii = All (λ (c : ℕ). c < 128)

understood :
    (words : List Text)
    → All (λ w. understands_capability w ≡ true) words
    → first_unsupported words ≡ none
unfolding first_unsupported
understood [] h = refl
understood (w ∷ words) (h, hs) = rw h (understood words hs)

module _ (decode : List ℕ → Text) (utf8 : IsDecoder decode) where
  read_other :
      (c : ReceivePackCommand) (commands : List ReceivePackCommand) (words : List Text)
      → IsCommand c
      → IsAscii (other_line c)
      → read_command decode (other_line c) commands words ≡ ok (c, words)
  unfolding read_command negotiate
  read_other c commands words h a = rw (utf8 (other_line c) a, parse_text-other_line c words h) refl

  read_first :
      (c : ReceivePackCommand) (words : List Text)
      → IsCommand c
      → IsAscii (first_line c words)
      → All IsWord words
      → All (λ w. understands_capability w ≡ true) words
      → read_command decode (first_line c words) [] [] ≡ ok (c, words)
  unfolding read_command negotiate
  read_first c words h a k u =
      rw
        (
          utf8 (first_line c words) a,
          parse_text-first_line c words [] h k,
          negotiate,
          understood words u,
        )
        refl

  -- A round of the loop, and its end.
  loop_line :
      (fuel : ℕ) (commands : List ReceivePackCommand) (words words' : List Text)
      (r s : PktLineReader) (p : List ℕ) (c : ReceivePackCommand)
      → next r ≡ (s, ok (line p))
      → read_command decode p commands words ≡ ok (c, words')
      → request_loop decode (suc fuel) commands words r
        ≡ request_loop decode fuel (commands ++ (c ∷ [])) words' s
  unfolding request_loop request_step
  loop_line fuel commands words words' r s p c e f =
      let more = λ (x : ReceivePackCommand × List Text) (s : PktLineReader).
        request_loop decode fuel (commands ++ (x.0 ∷ [])) x.1 s in
      ap (request_step decode more commands words) e ∙ rw (request_step, f) refl

  loop_flush :
      (fuel : ℕ) (commands : List ReceivePackCommand) (words : List Text) (r s : PktLineReader)
      → next r ≡ (s, ok flush)
      → request_loop decode (suc fuel) commands words r
        ≡ (s, ok (record { commands = commands; capabilities = words }))
  unfolding request_loop request_step
  loop_flush fuel commands words r s e =
      let more = λ (x : ReceivePackCommand × List Text) (s : PktLineReader).
        request_loop decode fuel (commands ++ (x.0 ∷ [])) x.1 s in
      ap (request_step decode more commands words) e

  loop_others :
      (fuel : ℕ) (cs commands : List ReceivePackCommand) (words : List Text) (r s : PktLineReader)
      → All IsCommand cs
      → All IsAscii (map other_line cs)
      → Reads r (map other_line cs) s
      → length cs < fuel
      → request_loop decode fuel commands words r
        ≡ (s, ok (record { commands = commands ++ cs; capabilities = words }))
  loop_others zero cs commands words r s h a reads b = absurd (omega arith)
  loop_others (suc fuel) [] commands words r s h a (flushed e) b =
      loop_flush fuel commands words r s e
      ∙ ap (λ cs. (s, ok (record { commands = cs; capabilities = words })))
          (sym (append-nil commands))
  loop_others (suc fuel) (c ∷ cs) commands words r s (h, hs) (a, others) (read_line {s = m} e reads)
        b =
      loop_line fuel commands words words r m (other_line c) c e (read_other c commands words h a)
      ∙ loop_others fuel cs (commands ++ (c ∷ [])) words m s hs others reads (omega arith)
      ∙ ap (λ ds. (s, ok (record { commands = ds; capabilities = words })))
          (append_assoc commands (c ∷ []) cs)

  loop_request :
      (fuel : ℕ) (c : ReceivePackCommand) (cs : List ReceivePackCommand) (words : List Text)
      (r s : PktLineReader)
      → All IsCommand (c ∷ cs)
      → All IsAscii (first_line c words ∷ map other_line cs)
      → All IsWord words
      → All (λ w. understands_capability w ≡ true) words
      → Reads r (first_line c words ∷ map other_line cs) s
      → suc (length cs) < fuel
      → request_loop decode fuel [] [] r
        ≡ (s, ok (record { commands = c ∷ cs; capabilities = words }))
  loop_request zero c cs words r s h a k u reads b = absurd (omega arith)
  loop_request (suc fuel) c cs words r s (h, hs) (a, others) k u (read_line {s = m} e reads) b =
      loop_line fuel [] [] words r m (first_line c words) c e (read_first c words h a k u)
      ∙ loop_others fuel cs (c ∷ []) words m s hs others reads (omega arith)

-- A section is at least as long as the number of its lines.
section_long : (ps : List (List ℕ)) (more : List ℕ) → length ps + 4 ≤ length (section ps more)
section_long [] more = omega arith
section_long (p ∷ ps) more = omega (arith, section_long ps more, length-append p (section ps more))

length-map_lines : (cs : List ReceivePackCommand) → length (map other_line cs) ≡ length cs
length-map_lines [] = refl
length-map_lines (c ∷ cs) = ap suc (length-map_lines cs)

-- However the body of a push is cut into chunks: where it starts with a command list in Git's format,
-- a newline behind each line, `readReceivePackRequest` gives these commands in their order with the capabilities of the first
-- line, and leaves the reader where `rest` hands over exactly the pack. The ids are 40 hexadecimal
-- digits, the names and capabilities are ASCII, there is at least one command, and every capability
-- is one that the server understands.
pub read_receive_pack_request-write :
    (decode : List ℕ → Text) (c : ReceivePackCommand) (cs : List ReceivePackCommand)
    (words : List Text) (wire pack : List ℕ) (chunks : List (List ℕ))
    → IsDecoder decode
    → All IsCommand (c ∷ cs)
    → All IsAscii (first_line c words ∷ map other_line cs)
    → All IsWord words
    → All (λ w. understands_capability w ≡ true) words
    → write_section (first_line c words ∷ map other_line cs) ≡ ok wire
    → joined chunks ≡ wire ++ pack
    → (s : PktLineReader) × (read_receive_pack_request decode (new_reader chunks)
        ≡ (s, ok (record { commands = c ∷ cs; capabilities = words })))
      × (joined (rest s).1 ≡ pack)
unfolding read_receive_pack_request new_reader
read_receive_pack_request-write decode c cs words wire pack chunks utf8 h a k u wrote cut =
    let ps = first_line c words ∷ map other_line cs in
    let (s, reads, left) = read-write_section ps wire pack chunks wrote cut in
    let (_, same) = write_section_fits ps wire pack wrote in
    let long = section_long ps pack in
    let enough : suc (length cs) < suc (length (joined chunks)) =
      omega (arith, long, ap length (cut ∙ same), length-map_lines cs) in
    (
      s,
      loop_request decode utf8 (suc (length (joined chunks))) c cs words (new_reader chunks) s h a k
          u reads enough,
      left,
    )
