-- ===== src/Store.antt =====
-- apps/api/src/repository-store.ts: one repository, and what changes it.
pub mod Push
pub mod Closure
pub mod Invariant
pub mod Moves
pub mod Imports
pub mod Runs
pub mod Revisions
pub mod Objects
pub mod Unpacking
mod Examples
use open_relic.Prelude.{
  ℕ, ◌+◌, List, [], ◌∷◌, ◌++◌, Bool, false, length, ◌==◌, if◌then◌else◌, Option, none, some, not,
  ◌&&◌, ltb,
}
use open_relic.Prelude.Codes.{Text, starts_with, text_eq}
use open_relic.Prelude.Maps.{Map, lookup, insert, without}
use open_relic.Prelude.{drop}
use open_relic.Head.{Head, branch_ref_prefix, symbolic_head, format_head, parse_head, head_branch}
use open_relic.Connectivity.Walk.{ObjectSource}
use open_relic.ReceivePack.{ReceivePackCommand, is_delete}

-- The tables and the file that the operations read and write. `head` is the contents of HEAD, and
-- `created_at` the row of the repository's state, without which it is not initialized.
pub record Repository : Type 0 where
  pub refs : Map Text
  pub head : Option Text
  pub created_at : Option Text
  pub ref_version : ℕ
  pub shallow : List Text
  pub objects : ObjectSource

pub record RepositoryInit : Type 0 where
  pub default_branch : Text
  pub created_at : Text

pub record RepositorySnapshot : Type 0 where
  pub default_branch : Option Text
  pub created_at : Text

abbrev pub values : Map Text → List Text
values [] = []
values ((name, oid) ∷ refs) = oid ∷ values refs

-- `#head` and `#defaultBranch`.
unfoldable pub head_of : Repository → Option Head
head_of s = elim s.head [ none ↦ none | some contents ↦ parse_head contents ]

unfoldable pub default_branch : Repository → Option Text
default_branch s = elim (head_of s) [ none ↦ none | some head ↦ head_branch head ]

unfoldable pub snapshot : Repository → Option RepositorySnapshot
snapshot s = elim s.created_at [
  | none ↦ none
  | some created ↦ some (record { default_branch = default_branch s; created_at = created })
]

-- The state after `initialize`: a repository that is there keeps its HEAD.
unfoldable pub initialized : RepositoryInit → Repository → Repository
initialized init s = elim s.created_at [
  | some created ↦ s
  | none ↦ record s {
    created_at = some init.created_at;
    ref_version = 0;
    head = some (format_head (symbolic_head init.default_branch));
  }
]

unfoldable pub initialize : RepositoryInit → Repository → Repository × RepositorySnapshot
initialize init s =
    let t = initialized init s in
    elim (snapshot t) [
      | none ↦
          (t, record { default_branch = some init.default_branch; created_at = init.created_at })
      | some found ↦ (t, found)
    ]

-- The loop over the updates in the transaction of `#applyUpdates`.
unfoldable pub apply_commands : List ReceivePackCommand → Map Text → Map Text
apply_commands [] refs = refs
apply_commands (command ∷ commands) refs =
    let deleted = apply_commands commands (without command.name refs) in
    let moved = apply_commands commands (insert command.name command.new_oid refs) in
    if is_delete command then deleted else moved

-- The head that a push leaves: `put` where it is retargeted.
abbrev pub put_head : Option Text → Option Text → Option Text
put_head none head = head
put_head (some branch) head = some (format_head (symbolic_head branch))

unfoldable pub apply_updates : List ReceivePackCommand → Option Text → Repository → Repository
apply_updates updates retargeted_to s = record s {
  refs = apply_commands updates s.refs;
  head = put_head retargeted_to s.head;
  ref_version = s.ref_version + 1;
}

-- The names of the updates that are branches.
unfoldable pub branches : List ReceivePackCommand → List Text
branches [] = []
branches (update ∷ updates) =
    let rest = branches updates in
    if starts_with update.name branch_ref_prefix then update.name ∷ rest else rest

abbrev pub same_contents : Text → Option Text → Bool
same_contents contents none = false
same_contents contents (some held) = text_eq held contents

unfoldable pub retarget : Repository → List ReceivePackCommand → Option Text
retarget s updates =
    let answer : Option Text = elim (branches updates) [
      | [] ↦ none
      | only ∷ others ↦
          let branch = drop (length branch_ref_prefix) only in
          if not (length others == 0)
          then none
          else if same_contents (format_head (symbolic_head branch)) s.head
          then none
          else some branch
    ] in
    if ltb 0 (length s.refs) then none else answer
