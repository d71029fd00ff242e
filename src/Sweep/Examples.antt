-- ===== src/Sweep/Examples.antt =====
-- One repository, swept from its first step to the last.
use open_relic.Prelude.{ℕ, ◌+◌, refl, zero, suc, List, [], ◌∷◌, ◌++◌, true, none, some}
use open_relic.Prelude.Codes.{Text}
use open_relic.GitObject.{tree, blob}
use open_relic.Prelude.{◌≡◌, sym, ◌∙◌}
use open_relic.Prelude.Codes.{text_eq}
use open_relic.Prelude.Maps.{lookup, insert, without}
use open_relic.Sweep.Completion.{AllMarked, step-AllMarked}
use open_relic.Sweep.{
  Repository, StoredObject, sweep_batch_size, step, step_from, start, reset, run_phase, mark_batch,
  mark_loop, mark_one, mark_described, mark_typed, finish_mark, mark_links, mark_walked,
  count_reachable, root_marks, fresh_state, ordered, place, pending_rows, end_mark, then_loop,
  phase_of, describe, sweep_batch, reclaim_all, reclaim, unmarked, set_phase, sweep_phase,
  complete_phase,
}
use open_relic.Sweep.Walking.{IsSweep, Spares}
use open_relic.Sweep.Safety.{step-IsSweep}
use open_relic.Sweep.Runs.{IsRun, fresh, swept, pushed, run-Spares}

abbrev copies : ℕ → ℕ → List ℕ
copies zero x = []
copies (suc n) x = x ∷ copies n x

abbrev ascii : List ℕ → Text
ascii bytes = bytes

abbrev named : ℕ → Text
named digit = copies 40 digit

abbrev blob_row : StoredObject
blob_row = record {
  type = blob;
  complete = true;
  contents = some (104 ∷ 105 ∷ []);
  chunks = 1;
  size = 2;
}

-- A tree with one file, `a`, whose id is forty times the digit 1.
abbrev tree_row : StoredObject
tree_row = record {
  type = tree;
  complete = true;
  contents = some ((49 ∷ 48 ∷ 48 ∷ 54 ∷ 52 ∷ 52 ∷ 32 ∷ 97 ∷ 0 ∷ []) ++ copies 20 17);
  chunks = 1;
  size = 29;
}

-- The tree is a root, its file is stored, and so is a file that nothing names.
abbrev initial : Repository
initial = record {
  refs = named 50 ∷ [];
  ref_version = 3;
  shallow = [];
  objects = (named 50, tree_row) ∷ (named 49, blob_row) ∷ (named 51, blob_row) ∷ [];
  reachable = [];
  sweep = none;
}

abbrev after : ℕ → Repository
after zero = initial
after (suc n) = (step ascii [] sweep_batch_size (after n)).0

initial-IsSweep : IsSweep ascii initial
initial-IsSweep = record { resumed = λ st e v. let bad = e in cc }

stepped-IsSweep : (n : ℕ) → IsSweep ascii (after n)
stepped-IsSweep zero = initial-IsSweep
stepped-IsSweep (suc n) = (step-IsSweep ascii [] sweep_batch_size (after n) (stepped-IsSweep n)).0

step-IsSweep_example :
    IsSweep ascii (step ascii [] sweep_batch_size (after 2)).0
    × Spares ascii (after 2) (step ascii [] sweep_batch_size (after 2)).0
step-IsSweep_example = step-IsSweep ascii [] sweep_batch_size (after 2) (stepped-IsSweep 2)

-- The walk is over when a push takes the file for a root.
abbrev moved : Repository
moved = record (after 2) {
  refs = named 51 ∷ named 50 ∷ [];
  ref_version = (after 2).ref_version + 1;
}

moved-IsRun : IsRun ascii moved
moved-IsRun =
    pushed (after 2) moved
      (swept [] sweep_batch_size (after 1) (swept [] sweep_batch_size initial (fresh initial refl)))
      (record { version_up = refl; sweep_same = refl })

run-Spares_example : Spares ascii moved (step ascii [] sweep_batch_size moved).0
run-Spares_example = run-Spares ascii [] sweep_batch_size moved moved-IsRun

-- Two files, of which one is a root, and the state when the walk is over.
abbrev files : Repository
files = record initial {
  refs = (50 ∷ []) ∷ [];
  objects = ((50 ∷ []), blob_row) ∷ ((51 ∷ []), blob_row) ∷ [];
}

abbrev walked : Repository
walked = (step ascii [] sweep_batch_size files).0

walked-IsSweep : IsSweep ascii walked
walked-IsSweep =
    (step-IsSweep ascii [] sweep_batch_size files
      (record { resumed = λ st e v. let bad = e in cc })).0

walked_phase : phase_of walked.sweep ≡ sweep_phase
unfolding step step_from start reset run_phase mark_batch mark_loop mark_one mark_described
    mark_typed finish_mark mark_links mark_walked count_reachable root_marks fresh_state ordered
    place pending_rows end_mark then_loop phase_of describe text_eq lookup insert
walked_phase = refl

swept_phase : phase_of (step ascii [] sweep_batch_size walked).0.sweep ≡ complete_phase
unfolding step step_from start reset run_phase mark_batch mark_loop mark_one mark_described
    mark_typed finish_mark mark_links mark_walked count_reachable root_marks fresh_state ordered
    place pending_rows end_mark then_loop phase_of describe text_eq lookup insert sweep_batch
    reclaim_all reclaim unmarked set_phase without
swept_phase = refl

step-AllMarked_example : AllMarked (step ascii [] sweep_batch_size walked).0
step-AllMarked_example =
    step-AllMarked ascii [] sweep_batch_size walked walked-IsSweep
      (λ e. let bad = sym walked_phase ∙ e in cc) swept_phase
