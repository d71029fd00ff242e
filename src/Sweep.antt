-- ===== src/Sweep.antt =====
-- apps/api/src/sweep.ts: the persisted mark and sweep over one repository, one bounded step at a time.
-- The tables that it reads and writes are the fields of `Repository`, as in db/repository-schema.ts.
mod Examples
pub mod Marking
pub mod Reach
pub mod Walking
pub mod Reclaiming
pub mod Safety
pub mod Runs
pub mod Completion
use open_relic.Prelude.{
  ℕ, ◌+◌, List, [], ◌∷◌, Bool, true, false, ◌&&◌, ◌||◌, length, take, ltb, ◌==◌, if◌then◌else◌,
  Option, none, some, Result, ok, err,
}
use open_relic.Prelude.Codes.{Text}
use open_relic.Prelude.Strings.{member}
use open_relic.Prelude.Maps.{Map, lookup, insert, without}
use open_relic.GitObject.{ObjectType, commit, tree, blob, tag}
use open_relic.Connectivity.{ObjectLink, Fault, links_to_reach}

pub data SweepPhase : Type 0 where
  mark_phase sweep_phase complete_phase : SweepPhase

pub record SweepState : Type 0 where
  pub phase : SweepPhase
  pub ref_version : ℕ
  pub started_at : Text
  pub completed_at : Option Text
  pub reachable_objects : ℕ
  pub reclaimed_objects : ℕ
  pub reclaimed_chunks : ℕ
  pub reclaimed_bytes : ℕ

-- A row of the mark set: no expected type for a root, and whether the links are still to be walked.
pub record Mark : Type 0 where
  pub expected : Option ObjectType
  pub pending : Bool

-- A row of `objects`: readers ignore it until it is complete, and `contents` is what its chunks give.
-- `chunks` and `size` are what reclaiming it gives back.
pub record StoredObject : Type 0 where
  pub type : ObjectType
  pub complete : Bool
  pub contents : Option (List ℕ)
  pub chunks : ℕ
  pub size : ℕ

pub record Repository : Type 0 where
  pub refs : List Text
  pub ref_version : ℕ
  pub shallow : List Text
  pub objects : Map StoredObject
  pub reachable : Map Mark
  pub sweep : Option SweepState

pub data SweepError : Type 0 where
  batch_size no_checkpoint : SweepError
  missing disappeared : Text → SweepError
  unreadable : Fault → SweepError

abbrev pub sweep_batch_size : ℕ
sweep_batch_size = 64

-- `ObjectStore.describe` and `ObjectStore.read`. An object with a chunk missing (`contents` is `none`) has
-- `read` throw an ObjectStoreError in the source; here it reads as no object, on which the sweep throws too,
-- as of one that has disappeared.
unfoldable pub describe : Text → Repository → Option StoredObject
describe oid s = elim (lookup oid s.objects) [
  | none ↦ none
  | some o ↦ if o.complete then some o else none
]

unfoldable pub read_object : Text → Repository → Option (ObjectType × List ℕ)
read_object oid s = elim (describe oid s) [
  | none ↦ none
  | some o ↦ elim o.contents [ none ↦ none | some bytes ↦ some (o.type, bytes) ]
]

-- `coalesce(a, b)`.
abbrev pub coalesce : Option ObjectType → Option ObjectType → Option ObjectType
coalesce none b = b
coalesce (some a) b = some a

-- The statements `markLink` and `markWalked`.
abbrev pub linked : ObjectType → Option Mark → Mark
linked type none = record { expected = some type; pending = true }
linked type (some m) = record { expected = coalesce m.expected (some type); pending = m.pending }

unfoldable pub mark_link : ObjectLink → Map Mark → Map Mark
mark_link link reachable = insert link.oid (linked link.type (lookup link.oid reachable)) reachable

unfoldable pub mark_links : List ObjectLink → Map Mark → Map Mark
mark_links [] reachable = reachable
mark_links (link ∷ links) reachable = mark_links links (mark_link link reachable)

unfoldable pub mark_walked : Text → Map Mark → Map Mark
mark_walked oid reachable = elim (lookup oid reachable) [
  | none ↦ reachable
  | some m ↦ insert oid (record { expected = m.expected; pending = false }) reachable
]

abbrev pub with_state : (SweepState → SweepState) → Option SweepState → Option SweepState
with_state f none = none
with_state f (some st) = some (f st)

-- `countReachable`.
unfoldable pub count_reachable : Option SweepState → Option SweepState
count_reachable = with_state (λ st. record st { reachable_objects = st.reachable_objects + 1 })

-- The transaction of `#finishMark`.
unfoldable pub finish_mark : Text → List ObjectLink → Repository → Repository
finish_mark oid links s = record s {
  reachable = mark_walked oid (mark_links links s.reachable);
  sweep = count_reachable s.sweep;
}

-- The roots of a new snapshot, as rows of the mark set.
unfoldable pub root_marks : List Text → Map Mark → Map Mark
root_marks [] m = m
root_marks (oid ∷ oids) m = elim (lookup oid m) [
  | none ↦ root_marks oids (insert oid (record { expected = none; pending = true }) m)
  | some old ↦ root_marks oids m
]

unfoldable pub fresh_state : Text → ℕ → Option SweepState → SweepState
fresh_state now version none = record {
  phase = mark_phase;
  ref_version = version;
  started_at = now;
  completed_at = none;
  reachable_objects = 0;
  reclaimed_objects = 0;
  reclaimed_chunks = 0;
  reclaimed_bytes = 0;
}
fresh_state now version (some old) = record {
  phase = mark_phase;
  ref_version = version;
  started_at = old.started_at;
  completed_at = none;
  reachable_objects = 0;
  reclaimed_objects = old.reclaimed_objects;
  reclaimed_chunks = old.reclaimed_chunks;
  reclaimed_bytes = old.reclaimed_bytes;
}

unfoldable pub reset : Text → Option SweepState → Repository → Repository
reset now previous s = record s {
  reachable = root_marks s.refs [];
  sweep = some (fresh_state now s.ref_version previous);
}

-- The order of the ids, by code unit.
unfoldable pub precedes : Text → Text → Bool
precedes [] t = true
precedes (a ∷ s) [] = false
precedes (a ∷ s) (b ∷ t) = ltb a b || (a == b && precedes s t)

unfoldable pub place {ℓ} : {V : Type ℓ} → Text → V → Map V → Map V
place k v [] = (k, v) ∷ []
place k v ((j, w) ∷ m) =
    let rest = place k v m in if precedes k j then (k, v) ∷ ((j, w) ∷ m) else (j, w) ∷ rest

-- `orderBy(asc(oid))`.
unfoldable pub ordered {ℓ} : {V : Type ℓ} → Map V → Map V
ordered [] = []
ordered ((k, v) ∷ m) = place k v (ordered m)

-- The rows whose links are still to be walked.
unfoldable pub pending_rows : Map Mark → Map Mark
pending_rows [] = []
pending_rows ((oid, m) ∷ rows) =
    let rest = pending_rows rows in if m.pending then (oid, m) ∷ rest else rest

-- The objects without a row in the mark set.
unfoldable pub unmarked : Map Mark → Map StoredObject → Map StoredObject
unmarked reachable [] = []
unmarked reachable ((oid, o) ∷ objects) = elim (lookup oid reachable) [
  | none ↦ (oid, o) ∷ unmarked reachable objects
  | some m ↦ unmarked reachable objects
]

abbrev pub Answer : Type 0
Answer = Repository × Result SweepError (Unit {0})

-- The row of an object goes, and the checkpoint counts what it gave back.
unfoldable pub reclaim : Text → Repository → Repository
reclaim oid s = elim (lookup oid s.objects) [
  | none ↦ s
  | some o ↦ record s {
    objects = without oid s.objects;
    sweep =
        with_state
          (λ st. record st {
            reclaimed_objects = st.reclaimed_objects + 1;
            reclaimed_chunks = st.reclaimed_chunks + o.chunks;
            reclaimed_bytes = st.reclaimed_bytes + o.size;
          })
          s.sweep;
  }
]

unfoldable pub reclaim_all : Map StoredObject → Repository → Repository
reclaim_all [] s = s
reclaim_all ((oid, o) ∷ rows) s = reclaim_all rows (reclaim oid s)

unfoldable pub set_phase : SweepPhase → Option Text → Repository → Repository
set_phase phase completed s = record s {
  sweep = with_state (λ st. record st { phase = phase; completed_at = completed }) s.sweep;
}

-- `#sweep`. The phase is left as it is while an object without a mark is left.
unfoldable pub sweep_batch : Text → ℕ → Repository → Repository
sweep_batch now size s =
    let t = reclaim_all (take size (ordered (unmarked s.reachable s.objects))) s in
    if length (unmarked t.reachable t.objects) == 0
    then set_phase complete_phase (some now) t
    else t

-- A checkpoint that is missing or complete starts over, and so does one for other refs, which keeps
-- what it has counted.
unfoldable pub start : Text → Option SweepState → Repository → Repository
start now none s = reset now none s
start now (some st) s =
    let over = reset now none s in
    let again = reset now (some st) s in
    elim st.phase [
      | complete_phase ↦ over
      | mark_phase ↦ if st.ref_version == s.ref_version then s else again
      | sweep_phase ↦ if st.ref_version == s.ref_version then s else again
    ]

unfoldable pub phase_of : Option SweepState → SweepPhase
phase_of none = mark_phase
phase_of (some st) = st.phase

-- The loop: a throw leaves the rows that are finished as they are.
unfoldable pub then_loop : (Repository → Answer) → Answer → Answer
then_loop more (s, ok u) = more s
then_loop more (s, err e) = (s, err e)

-- `set({ phase: "sweep" })` once nothing is pending.
unfoldable pub end_mark : Repository → Repository
end_mark s =
    let started : Repository = record s {
      sweep = with_state (λ st. record st { phase = sweep_phase }) s.sweep;
    } in
    if length (pending_rows s.reachable) == 0 then started else s

-- `decode` is the `decode` of a TextDecoder.
module _ (decode : List ℕ → Text) where
  -- What is done with the object's links once they are read.
  unfoldable pub finish_links : Text → Result Fault (List ObjectLink) → Repository → Answer
  finish_links oid (ok links) s = (finish_mark oid links s, ok tt)
  finish_links oid (err e) s = (s, err (unreadable e))

  unfoldable pub mark_read : Text → Option (ObjectType × List ℕ) → Repository → Answer
  mark_read oid none s = (s, err (disappeared oid))
  mark_read oid (some (type, bytes)) s =
      finish_links oid (links_to_reach decode type bytes (member oid s.shallow)) s

  -- A blob has no links, and is not read.
  unfoldable pub mark_typed : ObjectType → Text → Repository → Answer
  mark_typed blob oid s = (finish_mark oid [] s, ok tt)
  mark_typed commit oid s = mark_read oid (read_object oid s) s
  mark_typed tree oid s = mark_read oid (read_object oid s) s
  mark_typed tag oid s = mark_read oid (read_object oid s) s

  -- A round of the loop over the pending rows.
  unfoldable pub mark_described :
      Text → Option StoredObject → Option ObjectType → Repository → Answer
  mark_described oid none (some blob) s = (finish_mark oid [] s, ok tt)
  mark_described oid none expected s = (s, err (missing oid))
  mark_described oid (some o) expected s = mark_typed o.type oid s

  unfoldable pub mark_one : Text → Option ObjectType → Repository → Answer
  mark_one oid expected s = mark_described oid (describe oid s) expected s

  unfoldable pub mark_loop : Map Mark → Repository → Answer
  mark_loop [] s = (s, ok tt)
  mark_loop ((oid, m) ∷ rows) s = then_loop (mark_loop rows) (mark_one oid m.expected s)

  unfoldable pub mark_batch : ℕ → Repository → Answer
  mark_batch size s =
      then_loop (λ t. (end_mark t, ok tt))
        (mark_loop (take size (ordered (pending_rows s.reachable))) s)

  -- The phase of the checkpoint, once the step has one for the refs as they are.
  unfoldable pub run_phase : Text → ℕ → SweepPhase → Repository → Answer
  run_phase now size mark_phase s = mark_batch size s
  run_phase now size sweep_phase s = (sweep_batch now size s, ok tt)
  run_phase now size complete_phase s = (sweep_batch now size s, ok tt)

  unfoldable pub step_from : Text → ℕ → Repository → Answer
  step_from now size s = run_phase now size (phase_of s.sweep) s

  -- The result is the checkpoint, from which `#progress` takes what it answers.
  unfoldable pub step : Text → ℕ → Repository → Repository × Result SweepError SweepState
  step now size s =
      let (t, done) = step_from now size (start now s.sweep s) in
      if size == 0 then (s, err batch_size) else elim done [
        | err e ↦ (t, err e)
        | ok u ↦ elim t.sweep [ none ↦ (t, err no_checkpoint) | some st ↦ (t, ok st) ]
      ]
