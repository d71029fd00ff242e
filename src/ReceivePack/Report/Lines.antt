-- ===== src/ReceivePack/Report/Lines.antt =====
-- Each line of the report stays one line, whatever the texts in it are.
use open_relic.Prelude.{ℕ, ◌≤◌, ◌<◌, ◌≡◌, ◌≢◌, List, [], ◌∷◌, ◌++◌, map, All, All-append, arith}
use open_relic.Prelude.Codes.{Text, codes}
use open_relic.Prelude.Strings.{trim-All}
use open_relic.ReceivePack.Report.{
  ReceivePackReport, RefStatus, accepted, rejected, is_control, flattened, one_line, unpack_line,
  ref_line, payload,
}

-- No control character: neither below 0x20 nor DEL.
abbrev pub IsPrintable : ℕ → Type 0
IsPrintable c = (32 ≤ c) × (c ≢ 127)

-- What the program relies on TextEncoder for: UTF-8 writes a final ASCII character as itself, and
-- writes no control byte but for a control character.
pub record IsEncoder (encode : Text → List ℕ) : Type 0 where
  pub final_ascii :
      (text : Text) (c : ℕ) → c < 128 → encode (text ++ (c ∷ [])) ≡ encode text ++ (c ∷ [])
  pub printable : (text : Text) → All IsPrintable text → All IsPrintable (encode text)

-- A payload that is one line: its only control byte is the newline that ends it.
abbrev pub IsLine : List ℕ → Type 0
IsLine p = (body : List ℕ) × (p ≡ body ++ (10 ∷ [])) × All IsPrintable body

flattened-IsPrintable : (text : Text) → All IsPrintable (flattened text)
unfolding flattened is_control
flattened-IsPrintable [] = tt
flattened-IsPrintable (c ∷ text) = (ground arith, flattened-IsPrintable text)

pub one_line-IsPrintable : (text : Text) → All IsPrintable (one_line text)
unfolding one_line
one_line-IsPrintable text = trim-All IsPrintable (flattened text) (flattened-IsPrintable text)

unpack_line-IsPrintable : (report : ReceivePackReport) → All IsPrintable (unpack_line report)
unfolding unpack_line
unpack_line-IsPrintable report =
    All-append IsPrintable (codes "unpack ") (one_line report.unpack) (ground arith)
      (one_line-IsPrintable report.unpack)

ref_line-IsPrintable : (ref : RefStatus) → All IsPrintable (ref_line ref)
unfolding ref_line
ref_line-IsPrintable (accepted name) =
    All-append IsPrintable (codes "ok ") (one_line name) (ground arith) (one_line-IsPrintable name)
ref_line-IsPrintable (rejected name reason) =
    let tail =
      All-append IsPrintable (codes " ") (one_line reason) (ground arith)
        (one_line-IsPrintable reason) in
    let line =
      All-append IsPrintable (one_line name) (codes " " ++ one_line reason)
        (one_line-IsPrintable name) tail in
    All-append IsPrintable (codes "ng ") (one_line name ++ (codes " " ++ one_line reason))
      (ground arith) line

-- The lines of the report, in their order.
unfoldable pub texts : ReceivePackReport → List Text
texts report = unpack_line report ∷ map ref_line report.refs

module _ (encode : Text → List ℕ) (utf8 : IsEncoder encode) where
  pub payload-IsLine : (text : Text) → All IsPrintable text → IsLine (payload encode text)
  payload-IsLine text h =
      (encode text, utf8.final_ascii text 10 (omega arith), utf8.printable text h)

  refs-IsLine : (refs : List RefStatus) → All IsLine (map (payload encode) (map ref_line refs))
  refs-IsLine [] = tt
  refs-IsLine (ref ∷ refs) =
      (payload-IsLine (ref_line ref) (ref_line-IsPrintable ref), refs-IsLine refs)

  pub texts-IsLine : (report : ReceivePackReport) → All IsLine (map (payload encode) (texts report))
  unfolding texts
  texts-IsLine report = (
    payload-IsLine (unpack_line report) (unpack_line-IsPrintable report),
    refs-IsLine report.refs,
  )
