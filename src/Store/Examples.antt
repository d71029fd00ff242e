-- ===== src/Store/Examples.antt =====
-- A repository with one branch, on a store of a commit and its tree.
use open_relic.Prelude.{
  ◌==◌, replicate, ℕ, List, [], ◌∷◌, ◌++◌, some, none, sym, Option, Bool-cases, if◌then◌else◌,
  arith, inl, inr,
}
use mathlib.Core.Path.{subst}
use open_relic.Prelude.Codes.{Text, codes, text_eq, text_eq_iff}
use open_relic.Connectivity.Walk.{ObjectSource}
use open_relic.Connectivity.Membership.{In, at_head}
use open_relic.Connectivity.Examples.{named, ascii, two}
use open_relic.ReceivePack.Request.{RequestError}
use open_relic.Store.{Repository, RepositoryInit, initialize}
use open_relic.Store.Push.{Unpacked, complete, receive_pack, read_request}
use open_relic.Store.Moves.{Outcome, receive_pack-Outcome, request_of}
use open_relic.GitObject.{ObjectType, commit, tag}
use open_relic.Pack.{PackErrorCode}
use open_relic.Pack.Unpack.{NativeInflation}
use open_relic.Store.Unpacking.{unpack_pack}
use open_relic.Store.Objects.{lasting}
use open_relic.Store.Revisions.{resolve_commit}
use open_relic.Store.Revisions.Peeling.{HasTags}
use open_relic.Store.Revisions.Naming.{Answers, resolve_commit-Answers}

abbrev kept_as_is : List (List ℕ) → ObjectSource → ObjectSource × Unpacked
kept_as_is pack objects = (objects, complete)

abbrev message : RequestError → Text
message e = codes "no"

abbrev main_name : Text
main_name = codes "refs/heads/main"

abbrev one_branch : Repository
one_branch = record {
  refs = (main_name, named 49) ∷ [];
  head = some (codes "ref: refs/heads/main");
  created_at = some (codes "today");
  ref_version = 1;
  shallow = [];
  objects = two;
}

-- A command that makes a second branch of the same commit, and a flush.
abbrev second_branch : List (List ℕ)
second_branch =
    (codes "0065" ++ (named 48 ++ (32 ∷ (named 49 ++ codes " refs/heads/two\n"))) ++ codes "0000")
    ∷ []

-- A digest that tells commits and blobs from all else, on a store whose queries go on answering the same.
abbrev by_letter : List ℕ → List ℕ
by_letter [] = []
by_letter (letter ∷ bytes) =
    if letter == 99
    then replicate 20 0x11
    else if letter == 98
    then replicate 20 0x33
    else replicate 20 0x22

abbrev no_native : List ℕ → ℕ → Option NativeInflation
no_native chunk size = none

abbrev no_detail : List (List ℕ) → ObjectSource → PackErrorCode → Text
no_detail pack objects code = codes "no"

-- The command and its flush, and a pack of one blob, whose trailer is the digest of all before it.
abbrev with_pack : List (List ℕ)
with_pack =
    second_branch
    ++ ((codes "PACK" ++ (0 ∷ 0 ∷ 0 ∷ 2 ∷ 0 ∷ 0 ∷ 0 ∷ 1 ∷ 0x31 ∷ 120 ∷ 1 ∷ 1 ∷ 1 ∷ 0 ∷ []))
        ∷ ((254 ∷ 255 ∷ 65 ∷ 0 ∷ 66 ∷ 0 ∷ 66 ∷ []) ++ replicate 20 0x22)
        ∷ [])

abbrev unpack_letters : List (List ℕ) → ObjectSource → ObjectSource × Unpacked
unpack_letters = unpack_pack no_native by_letter ascii lasting no_detail

abbrev pushed : Repository
pushed =
    (receive_pack ascii ascii (unpack_pack no_native by_letter ascii lasting no_detail) message 10
      with_pack one_branch).0

receive_pack-Outcome_example :
    let request = request_of (read_request ascii second_branch).1 in
    Outcome request.commands request.capabilities one_branch.refs
      (receive_pack ascii ascii kept_as_is message 10 second_branch one_branch).0.refs
receive_pack-Outcome_example =
    receive_pack-Outcome ascii ascii kept_as_is message 10 second_branch one_branch

abbrev today : RepositoryInit
today = record { default_branch = codes "main"; created_at = codes "today" }

abbrev then_pushed : Repository
then_pushed =
    (receive_pack ascii ascii unpack_letters message 10 with_pack (initialize today one_branch).0).0

-- A tag of the commit, in a store where nothing else is a tag.
abbrev tag_bytes : List ℕ
tag_bytes = codes "object " ++ (named 49 ++ codes "\ntype commit\n\nv1")

abbrev read_tagged : Text → Option (ObjectType × List ℕ)
read_tagged oid =
    if text_eq oid (named 51)
    then some (tag, tag_bytes)
    else if text_eq oid (named 49)
    then some (commit, [])
    else none

abbrev tagged : Repository
tagged = record one_branch { objects = record two { read = read_tagged } }

tagged-HasTags : HasTags ascii tagged.objects (named 51 ∷ [])
tagged-HasTags oid bytes e = elim (Bool-cases (text_eq oid (named 51))) [
  | inl same ↦
      subst (λ x. In x (named 51 ∷ [])) (sym ((text_eq_iff oid (named 51)).0 same))
        (at_head (named 51) [])
  | inr other ↦ elim (Bool-cases (text_eq oid (named 49))) [
    | inl one ↦ let bad = rw (other, one) at e in cc
    | inr neither ↦ let bad = rw (other, neither) at e in cc
  ]
]

resolve_commit-Answers_example :
    Answers ascii (some (named 51)) tagged (resolve_commit ascii 2 (some (named 51)) tagged)
resolve_commit-Answers_example =
    resolve_commit-Answers ascii (named 51 ∷ []) 2 (some (named 51)) tagged tagged-HasTags
      (omega arith)
