-- ===== src/Head/Examples.antt =====
-- HEAD on a branch, and detached.
use open_relic.Prelude.{◌≡◌, refl, none, some, replicate}
use open_relic.Prelude.Codes.{Text, codes, text_eq}
use open_relic.Prelude.Strings.{ends_with, includes, split}
use open_relic.Names.{validate_branch_name, branch_alphabet, bad_component}
use open_relic.Head.{symbolic_head, detached_head, format_head, parse_head, head_branch}
use open_relic.Head.RoundTrip.{parse_head-symbolic_head, parse_head-detached_head}

main_taken : validate_branch_name (codes "main") ≡ none
unfolding validate_branch_name branch_alphabet bad_component ends_with includes split text_eq
main_taken = refl

parse_head-symbolic_head_example :
    (parse_head (format_head (symbolic_head (codes "main"))) ≡ some (symbolic_head (codes "main")))
    × (head_branch (symbolic_head (codes "main")) ≡ some (codes "main"))
parse_head-symbolic_head_example = parse_head-symbolic_head (codes "main") main_taken

abbrev some_id : Text
some_id = replicate 40 97

parse_head-detached_head_example :
    parse_head (format_head (detached_head some_id)) ≡ some (detached_head some_id)
parse_head-detached_head_example = parse_head-detached_head some_id refl
