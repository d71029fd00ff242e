-- ===== src/Head/RoundTrip.antt =====
-- HEAD as it is written is read back.
use open_relic.Prelude.{
  ℕ, ◌<◌, ◌≡◌, refl, sym, ap, ◌∙◌, [], ◌∷◌, ◌++◌, all, length, arith, Bool, true, false, none, some,
  ◌==◌, append_assoc, length-append,
}
use open_relic.Prelude.Codes.{Text, codes, starts_with}
use open_relic.Prelude.Strings.{trim, trim_start, trim_end, is_space}
use open_relic.GitObject.{is_object_id, is_lower_hex}
use open_relic.Names.{validate_branch_name, is_branch_code}
use open_relic.Names.Refs.{taken_codes}
use open_relic.Head.{
  symbolic, detached, branch_ref, symbolic_head, detached_head, format_head, parse_line, parse_head,
  head_branch,
}

-- A text that ends in a character that is no space, followed by a newline.
trim_end-line :
    (a : Text) (c : ℕ) → is_space c ≡ false → trim_end (a ++ (c ∷ 10 ∷ [])) ≡ a ++ (c ∷ [])
unfolding trim_end
trim_end-line [] c h = rw h refl
trim_end-line (x ∷ a) c h =
    let some_left : (length (a ++ (c ∷ [])) == 0) ≡ false =
      ground (arith, length-append a (c ∷ [])) in
    rw (trim_end-line a c h, some_left) refl

module _ (p : ℕ → Bool) (solid : (c : ℕ) → p c ≡ true → is_space c ≡ false) where
  last_of :
      (x : ℕ) (text : Text)
      → all p (x ∷ text) ≡ true
      → (a : Text) × (c : ℕ) × (x ∷ text ≡ a ++ (c ∷ [])) × (is_space c ≡ false)
  last_of x [] h = ([], x, refl, solid x (ground (arith, h)))
  last_of x (y ∷ text) h =
      let (a, c, e, f) = last_of y text (ground (arith, h)) in (x ∷ a, c, ap (λ t. x ∷ t) e, f)

  -- Behind a prefix and in front of a newline, a text of such characters stays as it is.
  trim_end-solid :
      (prefix text : Text)
      → all p text ≡ true
      → 0 < length text
      → trim_end (prefix ++ (text ++ (10 ∷ []))) ≡ prefix ++ text
  trim_end-solid prefix [] h b = absurd (omega arith)
  trim_end-solid prefix (x ∷ text) h b =
      let (a, c, e, f) = last_of x text h in
      let shape : prefix ++ ((x ∷ text) ++ (10 ∷ [])) ≡ (prefix ++ a) ++ (c ∷ 10 ∷ []) =
        ap (λ t. prefix ++ (t ++ (10 ∷ []))) e
        ∙ ap (λ t. prefix ++ t) (append_assoc a (c ∷ []) (10 ∷ []))
        ∙ sym (append_assoc prefix a (c ∷ 10 ∷ [])) in
      ap trim_end shape
      ∙ trim_end-line (prefix ++ a) c f
      ∙ append_assoc prefix a (c ∷ [])
      ∙ ap (λ t. prefix ++ t) (sym e)

branch_solid : (c : ℕ) → is_branch_code c ≡ true → is_space c ≡ false
branch_solid c h = ground (arith, h)

hex_solid : (c : ℕ) → is_lower_hex c ≡ true → is_space c ≡ false
hex_solid c h = ground (arith, h)

parse_ref :
    (branch : Text)
    → parse_line (codes "ref: refs/heads/" ++ branch)
      ≡ some (symbolic (codes "refs/heads/" ++ branch))
unfolding parse_line trim_start
parse_ref branch =
    let some_ref : (length (codes "refs/heads/" ++ branch) == 0) ≡ false = ground arith in
    rw some_ref refl

-- A branch whose name is taken: HEAD names it, is read back from what is written, and answers it.
pub parse_head-symbolic_head :
    (branch : Text)
    → validate_branch_name branch ≡ none
    → (parse_head (format_head (symbolic_head branch)) ≡ some (symbolic_head branch))
      × (head_branch (symbolic_head branch) ≡ some branch)
unfolding parse_head format_head symbolic_head branch_ref head_branch trim trim_start
parse_head-symbolic_head branch h =
    let (alphabet, some_code) = taken_codes branch h in
    let trimmed =
      trim_end-solid is_branch_code branch_solid (codes "ref: refs/heads/") branch alphabet
        some_code in
    let named : (length branch == 0) ≡ false = ground (arith, some_code) in
    (ap parse_line trimmed ∙ parse_ref branch, rw named refl)

parse_id :
    (x : ℕ) (oid : Text)
    → is_lower_hex x ≡ true
    → is_object_id (x ∷ oid) ≡ true
    → parse_line (x ∷ oid) ≡ some (detached (x ∷ oid))
unfolding parse_line
parse_id x oid first h =
    let no_prefix : starts_with (x ∷ oid) (codes "ref:") ≡ false = ground (arith, first) in
    rw (no_prefix, h) refl

-- A detached HEAD is read back from what is written, where it holds an object id.
pub parse_head-detached_head :
    (oid : Text)
    → is_object_id oid ≡ true
    → parse_head (format_head (detached_head oid)) ≡ some (detached_head oid)
unfolding parse_head format_head trim trim_start
parse_head-detached_head [] h = cc
parse_head-detached_head (x ∷ oid) h =
    let digits : all is_lower_hex (x ∷ oid) ≡ true = ground (arith, h) in
    let first : is_lower_hex x ≡ true = ground (arith, digits) in
    let solid : is_space x ≡ false = hex_solid x first in
    let trimmed = trim_end-solid is_lower_hex hex_solid [] (x ∷ oid) digits (omega arith) in
    rw solid (ap parse_line trimmed ∙ parse_id x oid first h)
