-- ===== src/ReceivePack/Report/SideBand.antt =====
-- The report where it shares the response with the messages for a human.
use open_relic.Prelude.{
  ℕ, ◌≡◌, refl, sym, ap, ◌∙◌, List, [], ◌∷◌, ◌++◌, map, All, true, ◌||◌, inl, inr, Result, ok,
  ◌>>=◌, Result-cases, append_assoc, append-nil,
}
use open_relic.Prelude.Codes.{Text}
use open_relic.Prelude.Strings.{member}
use open_relic.PktLine.{pkt_line, flush_pkt, RangeError, PktLineReader, new_reader, rest}
use open_relic.PktLine.Fill.{joined}
use open_relic.PktLine.RoundTrip.{Reads, write_section, read-write_section}
use open_relic.ReceivePack.{
  report_status_capability, report_status_v2_capability, side_band_64k_capability,
}
use open_relic.ReceivePack.Report.{
  ReceivePackReport, report_lines, message_lines, data_lines, band_line, result_lines, one_line,
  receive_pack_result, payload,
}
use open_relic.ReceivePack.Report.Lines.{
  IsEncoder, IsLine, texts, payload-IsLine, one_line-IsPrintable,
}
use open_relic.ReceivePack.Report.Framing.{joined-append, not_refused, report_lines-section}

-- Payloads behind the byte of a band.
abbrev pub banded : ℕ → List (List ℕ) → List (List ℕ)
banded band [] = []
banded band (p ∷ ps) = (band ∷ p) ∷ banded band ps

data_lines-section :
    (lines : List (List ℕ))
    → write_section (banded 1 lines) ≡ (data_lines lines >>= λ ws. ok (joined ws ++ flush_pkt))
unfolding write_section data_lines band_line
data_lines-section [] = refl
data_lines-section (l ∷ lines) = elim (Result-cases (pkt_line (1 ∷ l))) [
  | inr (e, refused) ↦ rw refused refl
  | inl (w, framed) ↦ elim (Result-cases (data_lines lines)) [
    | inr (e, refused) ↦ rw (framed, data_lines-section lines, refused) refl
    | inl (ws, more) ↦
        rw (framed, data_lines-section lines, more)
          (ap ok (sym (append_assoc w (joined ws) flush_pkt)))
  ]
]

module _ (encode : Text → List ℕ) where
  abbrev pub message_payloads : List Text → List (List ℕ)
  message_payloads [] = []
  message_payloads (m ∷ messages) = payload encode (one_line m) ∷ message_payloads messages

  message_lines-section :
      (messages : List Text) (qs : List (List ℕ)) (more : List ℕ)
      → write_section qs ≡ ok more
      → write_section (banded 2 (message_payloads messages) ++ qs)
        ≡ (message_lines encode messages >>= λ ms. ok (joined ms ++ more))
  unfolding write_section message_lines band_line
  message_lines-section [] qs more h = h
  message_lines-section (m ∷ messages) qs more h =
      elim (Result-cases (pkt_line (2 ∷ payload encode (one_line m)))) [
        | inr (e, refused) ↦ rw refused refl
        | inl (w, framed) ↦ elim (Result-cases (message_lines encode messages)) [
          | inr (e, refused) ↦ rw (framed, message_lines-section messages qs more h, refused) refl
          | inl (ws, wrote) ↦
              rw (framed, message_lines-section messages qs more h, wrote)
                (ap ok (sym (append_assoc w (joined ws) more)))
        ]
      ]

  joined_parts :
      (ms ws : List (List ℕ))
      → joined (ms ++ (ws ++ (flush_pkt ∷ []))) ≡ joined ms ++ (joined ws ++ flush_pkt)
  joined_parts ms ws =
      joined-append ms (ws ++ (flush_pkt ∷ []))
      ∙ ap (λ t. joined ms ++ t)
          (joined-append ws (flush_pkt ∷ []) ∙ ap (λ t. joined ws ++ t) (append-nil flush_pkt))

  -- What was sent over the side band, as a section of the pkt-line format.
  multiplexed :
      (report : ReceivePackReport) (capabilities : List Text) (wire : List ℕ)
      → (member report_status_capability capabilities
          || member report_status_v2_capability capabilities)
        ≡ true
      → member side_band_64k_capability capabilities ≡ true
      → receive_pack_result encode report capabilities ≡ ok wire
      → (lines : List (List ℕ)) × (report_lines encode report ≡ ok lines)
        × (write_section (banded 2 (message_payloads report.messages) ++ banded 1 lines) ≡ ok wire)
  unfolding receive_pack_result result_lines
  multiplexed report capabilities wire asked side sent =
      let a = member report_status_capability capabilities in
      let b = member report_status_v2_capability capabilities in
      let sent' = rw (not_refused a b asked, side) at sent in
      elim (Result-cases (message_lines encode report.messages)) [
        | inr (e, refused) ↦ absurd (cc (rw refused at sent'))
        | inl (ms, wrote) ↦ elim (Result-cases (report_lines encode report)) [
          | inr (e, refused) ↦ absurd (cc (rw (wrote, refused) at sent'))
          | inl (lines, framed) ↦ elim (Result-cases (data_lines lines)) [
            | inr (e, refused) ↦ absurd (cc (rw (wrote, framed, refused) at sent'))
            | inl (ws, wrapped) ↦ (
              lines,
              framed,
              whole ms lines ws wire wrote wrapped (rw (wrote, framed, wrapped) at sent'),
            )
          ]
        ]
      ]
    where
      whole :
          (ms lines ws : List (List ℕ)) (wire : List ℕ)
          → message_lines encode report.messages ≡ ok ms
          → data_lines lines ≡ ok ws
          → ◌≡◌ {A = Result RangeError (List ℕ)}
              (ok (joined (ms ++ (ws ++ (flush_pkt ∷ [])))))
              (ok wire)
          → write_section (banded 2 (message_payloads report.messages) ++ banded 1 lines) ≡ ok wire
      whole ms lines ws wire wrote wrapped total =
          let behind : write_section (banded 1 lines) ≡ ok (joined ws ++ flush_pkt) =
            rw (data_lines-section lines, wrapped) refl in
          rw
            (
              message_lines-section report.messages (banded 1 lines) (joined ws ++ flush_pkt)
                  behind,
              wrote,
            )
            (sym (ap ok (joined_parts ms ws)) ∙ total)

-- What a client that asked for the report and for the side band reads, however the response is cut
-- into chunks: each message as a single line without control characters on band 2, in the order of
-- the messages; then on band 1 the lines of the report, whose bytes together are the section that a
-- client without the side band is sent; and a flush packet. This holds wherever the response can be
-- sent.
pub receive_pack_result-banded :
    (encode : Text → List ℕ) (report : ReceivePackReport) (capabilities : List Text)
    (wire more : List ℕ) (chunks : List (List ℕ))
    → IsEncoder encode
    → (member report_status_capability capabilities
        || member report_status_v2_capability capabilities)
      ≡ true
    → member side_band_64k_capability capabilities ≡ true
    → receive_pack_result encode report capabilities ≡ ok wire
    → joined chunks ≡ wire ++ more
    → (lines : List (List ℕ)) × (s : PktLineReader) × Reads
        (new_reader chunks)
        (banded 2 (message_payloads encode report.messages) ++ banded 1 lines)
        s
      × (joined (rest s).1 ≡ more)
      × (write_section (map (payload encode) (texts report)) ≡ ok (joined lines))
      × All IsLine (message_payloads encode report.messages)
receive_pack_result-banded encode report capabilities wire more chunks utf8 asked side sent cut =
    let (lines, framed, wrote) = multiplexed encode report capabilities wire asked side sent in
    let ps = banded 2 (message_payloads encode report.messages) ++ banded 1 lines in
    let (s, reads, left) = read-write_section ps wire more chunks wrote cut in
    (
      lines,
      s,
      reads,
      left,
      rw (report_lines-section encode report, framed) refl,
      each report.messages,
    )
  where
    each : (messages : List Text) → All IsLine (message_payloads encode messages)
    each [] = tt
    each (m ∷ messages) =
        (payload-IsLine encode utf8 (one_line m) (one_line-IsPrintable m), each messages)
