-- ===== src/Names/Examples.antt =====
-- Runs of the validators.
use open_relic.Prelude.{◌≡◌, ◌<◌, ◌≤◌, refl, none, some, length}
use open_relic.Prelude.Codes.{Text, codes, text_eq}
use open_relic.Prelude.Strings.{ends_with, includes, split, member}
use open_relic.Names.{
  validate_branch_name, branch_alphabet, bad_component, branch_malformed, validate_namespace_slug,
  matches_name, ends_alnum, slug_reserved,
}
use open_relic.Names.Refs.{IsRefFormat, validate_branch_name-IsRefFormat}

release_runs : validate_branch_name (codes "refs/heads/release-1.0") ≡ none
unfolding validate_branch_name branch_alphabet bad_component ends_with includes split text_eq
release_runs = refl

lock_runs : validate_branch_name (codes "refs/a.lock/b") ≡ some branch_malformed
unfolding validate_branch_name branch_alphabet bad_component ends_with includes split text_eq
lock_runs = refl

reserved_runs : validate_namespace_slug (codes "well-known") ≡ some slug_reserved
unfolding validate_namespace_slug matches_name ends_alnum member text_eq
reserved_runs = refl

abbrev release : Text
release = codes "refs/heads/release-1.0"

validate_branch_name-IsRefFormat_example :
    (0 < length release) × (length release ≤ 255) × IsRefFormat release
validate_branch_name-IsRefFormat_example = validate_branch_name-IsRefFormat release release_runs
