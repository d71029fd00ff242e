-- ===== src/Store/Runs.antt =====
-- The operations of a repository in any order: what every ref reaches over the links
-- to verify is stored.
use open_relic.Prelude.{ℕ, List}
use open_relic.Prelude.Codes.{Text}
use open_relic.Connectivity.Walk.{ObjectSource}
use open_relic.Connectivity.Membership.{In}
use open_relic.ReceivePack.Request.{RequestError}
use open_relic.Store.{Repository, RepositoryInit, values, initialize}
use open_relic.Store.Push.{Unpack, receive_pack}
use open_relic.Store.Closure.{IsComplete, IsSource}
use open_relic.Store.Imports.{FetchedBranch, import_branch, reset_import, ForkState, complete_fork}

module _ (decode : List ℕ → Text) where
  module _ (unpack : Unpack) (fuel : ℕ) where
    -- What is done with a repository, from its start on: it is initialized, it takes pushes, a branch is
    -- imported into it, an import starts over on a store with nothing but what can be told of it, and the
    -- refs of the repository that it is a fork of are added, once their objects were copied.
    pub data IsRun (encode : Text → List ℕ) (error_message : RequestError → Text)
        (from : Repository) : Repository → Type 0 where
      start : IsRun encode error_message from from
      initializes :
          (init : RepositoryInit) (s : Repository)
          → IsRun encode error_message from s
          → IsRun encode error_message from (initialize init s).0
      takes_push :
          (body : List (List ℕ)) (s : Repository)
          → IsRun encode error_message from s
          → IsRun encode error_message from
              (receive_pack decode encode unpack error_message fuel body s).0
      imports :
          (fetched : FetchedBranch) (s : Repository)
          → IsRun encode error_message from s
          → IsRun encode error_message from (import_branch decode unpack fuel fetched s).0
      starts_over :
          (reclaimed : ObjectSource) (init : RepositoryInit) (s : Repository)
          → ((shallow : List Text) → IsSource decode reclaimed shallow)
          → IsRun encode error_message from s
          → IsRun encode error_message from (reset_import reclaimed init s)
      completes_fork :
          (state : ForkState) (s : Repository)
          → ((oid : Text) → In oid (values state.refs) → IsComplete decode s.objects s.shallow oid)
          → IsRun encode error_message from s
          → IsRun encode error_message from (complete_fork state s)
