-- ===== src/ReceivePack/Request/Parsing.antt =====
-- One line of a push's command list, in Git's format and as it is read.
use open_relic.Prelude.{
  ℕ, ◌<◌, ◌≡◌, ◌≢◌, refl, sym, ap, ◌∙◌, List, [], ◌∷◌, ◌++◌, All, All-append, all, any, length,
  drop, take-append, drop-append, drop-drop, arith, true, false, ◌==◌, none, some, ok,
}
use open_relic.Prelude.Codes.{Text, text_eq}
use open_relic.Prelude.Strings.{split, split-append}
use open_relic.GitObject.{is_object_id, is_lower_hex}
use open_relic.ReceivePack.{ReceivePackCommand}
use open_relic.ReceivePack.Request.{
  chomp, cut_at_nul, nonempty, match_command, is_line_terminator, parse_text, parse_parts,
}

pub record IsCommand (c : ReceivePackCommand) : Type 0 where
  pub old_id : is_object_id c.old_oid ≡ true
  pub new_id : is_object_id c.new_oid ≡ true
  pub some_name : 0 < length c.name
  pub one_line : any is_line_terminator c.name ≡ false
  pub no_nul : All (λ x. x ≢ 0) c.name

abbrev pub command_text : ReceivePackCommand → Text
command_text c = c.old_oid ++ (32 ∷ (c.new_oid ++ (32 ∷ c.name)))

module _ (old new name : Text) (e : length old ≡ 40) (f : length new ≡ 40) where
  behind_old : drop 41 (old ++ (32 ∷ (new ++ (32 ∷ name)))) ≡ new ++ (32 ∷ name)
  behind_old =
      sym (drop-drop 1 40 (old ++ (32 ∷ (new ++ (32 ∷ name)))))
      ∙ ap (drop 1) (drop-append old (32 ∷ (new ++ (32 ∷ name))) (sym e))

  behind_new : drop 81 (old ++ (32 ∷ (new ++ (32 ∷ name)))) ≡ 32 ∷ name
  behind_new =
      sym (drop-drop 40 41 (old ++ (32 ∷ (new ++ (32 ∷ name)))))
      ∙ ap (drop 40) behind_old
      ∙ drop-append new (32 ∷ name) (sym f)

  behind_both : drop 82 (old ++ (32 ∷ (new ++ (32 ∷ name)))) ≡ name
  behind_both = sym (drop-drop 1 81 (old ++ (32 ∷ (new ++ (32 ∷ name))))) ∙ ap (drop 1) behind_new

match_command-command_text :
    (c : ReceivePackCommand) → IsCommand c → match_command (command_text c) ≡ some c
unfolding match_command text_eq
match_command-command_text c h =
    let old_hex : all is_lower_hex c.old_oid ≡ true = ground (arith, h.old_id) in
    let new_hex : all is_lower_hex c.new_oid ≡ true = ground (arith, h.new_id) in
    let e : length c.old_oid ≡ 40 = ground (arith, h.old_id) in
    let f : length c.new_oid ≡ 40 = ground (arith, h.new_id) in
    let nonzero : (length c.name == 0) ≡ false = ground (arith, h.some_name) in
    let tail = 32 ∷ (c.new_oid ++ (32 ∷ c.name)) in
    rw
      (
        take-append c.old_oid tail {n = 40} (sym e),
        drop-append c.old_oid tail {n = 40} (sym e),
        behind_old c.old_oid c.new_oid c.name e f,
        behind_new c.old_oid c.new_oid c.name e f,
        behind_both c.old_oid c.new_oid c.name e f,
        take-append c.new_oid (32 ∷ c.name) {n = 40} (sym f),
        e,
        f,
        old_hex,
        new_hex,
        nonzero,
        h.one_line,
      )
      refl

chomp-append : (text : Text) → chomp (text ++ (10 ∷ [])) ≡ text
unfolding chomp
chomp-append [] = refl
chomp-append (c ∷ []) = refl
chomp-append (c ∷ d ∷ text) = ap (λ t. c ∷ t) (chomp-append (d ∷ text))

cut_at_nul-append : (a b : Text) → All (λ x. x ≢ 0) a → cut_at_nul (a ++ (0 ∷ b)) ≡ (a, some b)
unfolding cut_at_nul
cut_at_nul-append [] b h = refl
cut_at_nul-append (c ∷ a) b (h, hs) =
    let other : (c == 0) ≡ false = ground (arith, h) in rw (cut_at_nul-append a b hs, other) refl

cut_at_nul-none : (a : Text) → All (λ x. x ≢ 0) a → cut_at_nul a ≡ (a, none)
unfolding cut_at_nul
cut_at_nul-none [] h = refl
cut_at_nul-none (c ∷ a) (h, hs) =
    let other : (c == 0) ≡ false = ground (arith, h) in rw (cut_at_nul-none a hs, other) refl

-- A capability: some characters, none of them a space.
abbrev pub IsWord : Text → Type 0
IsWord word = (0 < length word) × All (λ x. x ≢ 32) word

abbrev pub spaced : List Text → Text
spaced [] = []
spaced (word ∷ []) = word
spaced (word ∷ next ∷ words) = word ++ (32 ∷ spaced (next ∷ words))

split-word : (word : Text) → All (λ x. x ≢ 32) word → split 32 word ≡ word ∷ []
unfolding split
split-word [] h = refl
split-word (c ∷ word) (h, hs) =
    let other : (c == 32) ≡ false = ground (arith, h) in rw (split-word word hs, other) refl

nonempty-word :
    (word : Text) (rest : List Text)
    → 0 < length word
    → nonempty (word ∷ rest) ≡ word ∷ nonempty rest
nonempty-word [] rest h = absurd (omega arith)
nonempty-word (c ∷ word) rest h = refl

words_read : (words : List Text) → All IsWord words → nonempty (split 32 (spaced words)) ≡ words
unfolding split
words_read [] h = refl
words_read (word ∷ []) ((h, k), hs) = rw (split-word word k) (nonempty-word word [] h)
words_read (word ∷ next ∷ words) ((h, k), hs) =
    rw (split-append 32 word (spaced (next ∷ words)), split-word word k)
      (nonempty-word word (split 32 (spaced (next ∷ words))) h
        ∙ ap (λ t. word ∷ t) (words_read (next ∷ words) hs))

hex_nonzero : (id : Text) → all is_lower_hex id ≡ true → All (λ (x : ℕ). x ≢ 0) id
hex_nonzero [] h = tt
hex_nonzero (c ∷ id) h = (ground (arith, h), hex_nonzero id (ground (arith, h)))

command_text-no_nul :
    (c : ReceivePackCommand) → IsCommand c → All (λ (x : ℕ). x ≢ 0) (command_text c)
command_text-no_nul c h =
    let old = hex_nonzero c.old_oid (ground (arith, h.old_id)) in
    let new = hex_nonzero c.new_oid (ground (arith, h.new_id)) in
    let space : 32 ≢ 0 = omega arith in
    All-append (λ x. x ≢ 0) c.old_oid (32 ∷ (c.new_oid ++ (32 ∷ c.name))) old
      (space, All-append (λ x. x ≢ 0) c.new_oid (32 ∷ c.name) new (space, h.no_nul))

-- The first line carries the capabilities, and the others do not.
abbrev pub first_line : ReceivePackCommand → List Text → Text
first_line c words = (command_text c ++ (0 ∷ spaced words)) ++ (10 ∷ [])

abbrev pub other_line : ReceivePackCommand → Text
other_line c = command_text c ++ (10 ∷ [])

pub parse_text-first_line :
    (c : ReceivePackCommand) (words negotiated : List Text)
    → IsCommand c
    → All IsWord words
    → parse_text (first_line c words) negotiated
      ≡ ok (record { command = c; capabilities = some words })
unfolding parse_text parse_parts
parse_text-first_line c words negotiated h k =
    ap (parse_parts negotiated) (
      ap cut_at_nul (chomp-append (command_text c ++ (0 ∷ spaced words)))
      ∙ cut_at_nul-append (command_text c) (spaced words) (command_text-no_nul c h))
    ∙ rw (parse_parts, match_command-command_text c h, words_read words k) refl

pub parse_text-other_line :
    (c : ReceivePackCommand) (negotiated : List Text)
    → IsCommand c
    → parse_text (other_line c) negotiated ≡ ok (record { command = c; capabilities = none })
unfolding parse_text parse_parts
parse_text-other_line c negotiated h =
    ap (parse_parts negotiated) (
      ap cut_at_nul (chomp-append (command_text c))
      ∙ cut_at_nul-none (command_text c) (command_text-no_nul c h))
    ∙ rw (parse_parts, match_command-command_text c h) refl
