-- ===== src/ReceivePack/Report/Framing.antt =====
-- The report as the client's pkt-line reader reads it back.
use open_relic.Prelude.{
  ℕ, ◌≡◌, refl, sym, ap, ◌∙◌, List, [], ◌∷◌, ◌++◌, map, All, Bool, true, false, ◌||◌, inl, inr,
  ◌&&◌, not, ok, ◌>>=◌, Result-cases, append_assoc, append-nil,
}
use open_relic.Prelude.Codes.{Text}
use open_relic.Prelude.Strings.{member}
use open_relic.PktLine.{pkt_line, flush_pkt, PktLineReader, new_reader, rest}
use open_relic.PktLine.Fill.{joined}
use open_relic.PktLine.RoundTrip.{Reads, write_section, read-write_section}
use open_relic.ReceivePack.{
  report_status_capability, report_status_v2_capability, side_band_64k_capability,
}
use open_relic.ReceivePack.Report.{
  ReceivePackReport, RefStatus, ref_lines, report_lines, ref_line, unpack_line, result_lines,
  receive_pack_result, payload,
}
use open_relic.ReceivePack.Report.Lines.{IsEncoder, IsLine, texts, texts-IsLine}

pub joined-append : (xs ys : List (List ℕ)) → joined (xs ++ ys) ≡ joined xs ++ joined ys
joined-append [] ys = refl
joined-append (x ∷ xs) ys =
    ap (λ t. x ++ t) (joined-append xs ys) ∙ sym (append_assoc x (joined xs) (joined ys))

pub not_refused : (a b : Bool) → (a || b) ≡ true → (not a && not b) ≡ false
not_refused true b h = refl
not_refused false true h = refl
not_refused false false h = cc

module _ (encode : Text → List ℕ) where
  -- Writing the payloads of some refs as a section, in terms of the lines of the report.
  ref_lines-section :
      (refs : List RefStatus)
      → write_section (map (payload encode) (map ref_line refs))
        ≡ (ref_lines encode refs >>= λ lines. ok (joined lines ++ flush_pkt))
  unfolding write_section ref_lines
  ref_lines-section [] = refl
  ref_lines-section (ref ∷ refs) = elim (Result-cases (pkt_line (payload encode (ref_line ref)))) [
    | inr (e, refused) ↦ rw refused refl
    | inl (line, framed) ↦ elim (Result-cases (ref_lines encode refs)) [
      | inr (e, refused) ↦ rw (framed, ref_lines-section refs, refused) refl
      | inl (lines, more) ↦
          rw (framed, ref_lines-section refs, more)
            (ap ok (sym (append_assoc line (joined lines) flush_pkt)))
    ]
  ]

  pub report_lines-section :
      (report : ReceivePackReport)
      → write_section (map (payload encode) (texts report))
        ≡ (report_lines encode report >>= λ lines. ok (joined lines))
  unfolding write_section report_lines texts
  report_lines-section report =
      elim (Result-cases (pkt_line (payload encode (unpack_line report)))) [
        | inr (e, refused) ↦ rw refused refl
        | inl (line, framed) ↦ elim (Result-cases (ref_lines encode report.refs)) [
          | inr (e, refused) ↦ rw (framed, ref_lines-section report.refs, refused) refl
          | inl (lines, more) ↦
              rw (framed, ref_lines-section report.refs, more)
                (ap (λ t. ok (line ++ t))
                  (sym (
                    joined-append lines (flush_pkt ∷ [])
                    ∙ ap (λ t. joined lines ++ t) (append-nil flush_pkt))))
        ]
      ]

  -- A client that asked for a report and for no side band is sent the section of these lines.
  plain_section :
      (report : ReceivePackReport) (capabilities : List Text)
      → (member report_status_capability capabilities
          || member report_status_v2_capability capabilities)
        ≡ true
      → member side_band_64k_capability capabilities ≡ false
      → receive_pack_result encode report capabilities
        ≡ write_section (map (payload encode) (texts report))
  unfolding receive_pack_result result_lines
  plain_section report capabilities asked plain =
      let a = member report_status_capability capabilities in
      let b = member report_status_v2_capability capabilities in
      rw (not_refused a b asked, plain) (sym (report_lines-section report))

-- What a client that asked for a report and for no side band reads, however the response is cut into
-- chunks: one line on the pack, one for each ref in the order of the refs, and a flush packet. Each
-- of them is a single line without any control character in it; so no name and no reason, whatever
-- the client chose them to be, makes a further line. This holds wherever the report can be sent.
pub receive_pack_result-Reads :
    (encode : Text → List ℕ) (report : ReceivePackReport) (capabilities : List Text)
    (wire more : List ℕ) (chunks : List (List ℕ))
    → IsEncoder encode
    → (member report_status_capability capabilities
        || member report_status_v2_capability capabilities)
      ≡ true
    → member side_band_64k_capability capabilities ≡ false
    → receive_pack_result encode report capabilities ≡ ok wire
    → joined chunks ≡ wire ++ more
    → (s : PktLineReader) × Reads (new_reader chunks) (map (payload encode) (texts report)) s
      × (joined (rest s).1 ≡ more)
      × All IsLine (map (payload encode) (texts report))
receive_pack_result-Reads encode report capabilities wire more chunks utf8 asked plain sent cut =
    let ps = map (payload encode) (texts report) in
    let wrote = sym (plain_section encode report capabilities asked plain) ∙ sent in
    let (s, reads, left) = read-write_section ps wire more chunks wrote cut in
    (s, reads, left, texts-IsLine encode utf8 report)
