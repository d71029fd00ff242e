-- ===== src/Store/Imports.antt =====
-- apps/api/src/repository-store.ts: importing a branch, starting an import over, and the target of a fork.
use open_relic.Prelude.{
  ℕ, ◌+◌, List, [], ◌∷◌, ◌++◌, Option, none, some, Result, ok, err, Stop, thrown, out_of_fuel,
}
use open_relic.Prelude.Codes.{Text}
use open_relic.Prelude.Maps.{Map, lookup, insert}
use open_relic.GitObject.{ObjectType, commit, tree, blob, tag}
use open_relic.Head.{branch_ref_prefix, symbolic_head, format_head}
use open_relic.Connectivity.Walk.{ObjectSource, find_missing_object, distinct}
use open_relic.Store.{Repository, RepositoryInit}
use open_relic.Store.Push.{Unpack, Unpacked, complete, broken, refused}

-- What `fetchRemoteBranch` gives.
pub record FetchedBranch : Type 0 where
  pub branch : Text
  pub oid : Text
  pub pack : List (List ℕ)
  pub shallow : List Text

-- What `importBranch` returns, less the count of its objects.
pub record ImportedBranch : Type 0 where
  pub branch : Text
  pub oid : Text
  pub shallow : List Text

-- The `PackError` of a missing object, that of the pack, or any other throw of `readPack`.
pub data ImportError : Type 0 where
  misses pack_refused : Text → ImportError
  pack_broken : ImportError

abbrev pub is_commit : ObjectType → List Text → Text → List Text
is_commit commit rest oid = oid ∷ rest
is_commit tree rest oid = rest
is_commit blob rest oid = rest
is_commit tag rest oid = rest

-- The boundaries that arrived as commits.
unfoldable pub imported_shallow : ObjectSource → List Text → List Text
imported_shallow objects [] = []
imported_shallow objects (oid ∷ oids) = elim (objects.read oid) [
  | none ↦ imported_shallow objects oids
  | some found ↦ is_commit found.0 (imported_shallow objects oids) oid
]

-- The transaction of `importBranch`.
unfoldable pub replace_refs : FetchedBranch → List Text → Repository → Repository
replace_refs fetched shallow s = record s {
  refs = (branch_ref_prefix ++ fetched.branch, fetched.oid) ∷ [];
  shallow = shallow;
  head = some (format_head (symbolic_head fetched.branch));
  ref_version = s.ref_version + 1;
}

abbrev pub Answer : Type 0
Answer = Repository × Result (Stop ImportError) ImportedBranch

unfoldable pub import_walked :
    FetchedBranch → List Text → Repository → Result (Stop Text) (List Text) → Answer
import_walked fetched shallow s (ok visited) = (
  replace_refs fetched shallow s,
  ok (record { branch = fetched.branch; oid = fetched.oid; shallow = shallow }),
)
import_walked fetched shallow s (err (thrown oid)) = (s, err (thrown (misses oid)))
import_walked fetched shallow s (err out_of_fuel) = (s, err out_of_fuel)

module _ (decode : List ℕ → Text) (unpack : Unpack) (fuel : ℕ) where
  unfoldable pub import_unpacked : FetchedBranch → Repository → ObjectSource × Unpacked → Answer
  import_unpacked fetched s (objects, broken) =
      (record s { objects = objects }, err (thrown pack_broken))
  import_unpacked fetched s (objects, refused detail) =
      (record s { objects = objects }, err (thrown (pack_refused detail)))
  import_unpacked fetched s (objects, complete) =
      let shallow = imported_shallow objects (distinct [] fetched.shallow) in
      import_walked fetched shallow (record s { objects = objects })
        (find_missing_object decode objects shallow [] [] fuel fetched.oid)

  unfoldable pub import_branch : FetchedBranch → Repository → Answer
  import_branch fetched s = import_unpacked fetched s (unpack fetched.pack s.objects)

-- `resetImport`, where `reclaimed` is the store with every object reclaimed.
unfoldable pub reset_import : ObjectSource → RepositoryInit → Repository → Repository
reset_import reclaimed init s = record {
  refs = [];
  head = some (format_head (symbolic_head init.default_branch));
  created_at = some init.created_at;
  ref_version = 0;
  shallow = [];
  objects = reclaimed;
}

pub record ForkState : Type 0 where
  pub created_at : Text
  pub head : Text
  pub refs : Map Text

-- `onConflictDoNothing`.
abbrev pub or_first : Option Text → Text → Option Text
or_first none new = some new
or_first (some old) new = some old

unfoldable pub add_refs : Map Text → Map Text → Map Text
add_refs [] refs = refs
add_refs ((name, oid) ∷ more) refs = elim (lookup name refs) [
  | none ↦ add_refs more (insert name oid refs)
  | some held ↦ add_refs more refs
]

unfoldable pub complete_fork : ForkState → Repository → Repository
complete_fork state s = record s {
  created_at = or_first s.created_at state.created_at;
  refs = add_refs state.refs s.refs;
  head = some state.head;
}
