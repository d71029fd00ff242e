-- ===== src/ReceivePack/Screen.antt =====
-- apps/api/src/git/receive-pack.ts: what is decided on a push from its commands and the refs alone.
pub mod Safety
use open_relic.Prelude.{
  ℕ, List, [], ◌∷◌, Bool, true, false, ◌&&◌, if◌then◌else◌, Option, none, some,
}
use open_relic.Prelude.Codes.{Text, codes, text_eq, starts_with}
use open_relic.Prelude.Strings.{member}
use open_relic.Prelude.Maps.{Map, lookup}
use open_relic.Names.{validate_branch_name, BranchNameViolation}
use open_relic.ReceivePack.{ReceivePackCommand, is_create, is_delete}

-- The reasons of `REJECTIONS` that `screenCommands` gives.
pub data Rejection : Type 0 where
  funny_refname duplicate exists vanished stale : Rejection

abbrev pub no_violation : Option BranchNameViolation → Bool
no_violation none = true
no_violation (some violation) = false

unfoldable pub is_ref_name : Text → Bool
is_ref_name name = starts_with name (codes "refs/") && no_violation (validate_branch_name name)

-- The decision on a valid name that is new in the push, where `held` is the value of the ref.
unfoldable pub screen_held : ReceivePackCommand → Option Text → Option Rejection
screen_held command none =
    if is_delete command then some vanished else if is_create command then none else some vanished
screen_held command (some held) =
    let same : Option Rejection = if text_eq held command.old_oid then none else some stale in
    if is_delete command then same else if is_create command then some exists else same

-- The callback of `map`, with `seen`.
unfoldable pub screen_loop :
    List Text → List ReceivePackCommand → Map Text → List (Option Rejection)
screen_loop seen [] refs = []
screen_loop seen (command ∷ commands) refs =
    let skipped = screen_loop seen commands refs in
    let counted = screen_loop (command.name ∷ seen) commands refs in
    if is_ref_name command.name
    then if member command.name seen
      then some duplicate ∷ skipped
      else screen_held command (lookup command.name refs) ∷ counted
    else some funny_refname ∷ skipped

unfoldable pub screen_commands : List ReceivePackCommand → Map Text → List (Option Rejection)
screen_commands commands refs = screen_loop [] commands refs
