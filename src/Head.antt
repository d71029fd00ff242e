-- ===== src/Head.antt =====
-- apps/api/src/head.ts: the literal bytes of HEAD.
mod Examples
pub mod RoundTrip
use open_relic.Prelude.{
  ℕ, List, [], ◌∷◌, ◌++◌, Bool, true, length, drop, ◌==◌, if◌then◌else◌, Option, none, some,
}
use open_relic.Prelude.Codes.{Text, codes, starts_with}
use open_relic.Prelude.Strings.{trim, trim_start}
use open_relic.GitObject.{is_object_id}

abbrev pub branch_ref_prefix : Text
branch_ref_prefix = codes "refs/heads/"

pub data Head : Type 0 where
  symbolic detached : Text → Head

unfoldable pub branch_ref : Text → Text
branch_ref branch = branch_ref_prefix ++ branch

unfoldable pub symbolic_head : Text → Head
symbolic_head branch = symbolic (branch_ref branch)

abbrev pub detached_head : Text → Head
detached_head oid = detached oid

unfoldable pub format_head : Head → Text
format_head (symbolic ref) = codes "ref: " ++ (ref ++ codes "\n")
format_head (detached oid) = oid ++ codes "\n"

-- `SYMBOLIC_PREFIX` is `ref:` and any run of the code units that `trim` takes off.
unfoldable pub parse_line : Text → Option Head
parse_line line =
    let ref = trim_start (drop 4 line) in
    if starts_with line (codes "ref:")
    then if length ref == 0 then none else some (symbolic ref)
    else if is_object_id line
    then some (detached line)
    else none

unfoldable pub parse_head : Text → Option Head
parse_head contents = parse_line (trim contents)

unfoldable pub head_branch : Head → Option Text
head_branch (detached oid) = none
head_branch (symbolic ref) =
    let branch = drop (length branch_ref_prefix) ref in
    if starts_with ref branch_ref_prefix
    then if length branch == 0 then none else some branch
    else none
