-- ===== src/Sweep/Completion.antt =====
-- What a complete sweep has left.
use open_relic.Prelude.{
  suc, [], ◌∷◌, arith, ℕ, ◌≡◌, ◌≢◌, refl, sym, ap, ◌∙◌, List, Option, none, some, if◌then◌else◌,
  Bool-cases, Option-cases, inl, inr, ok, err, ◌==◌, ==_iff, take, length,
}
use mathlib.Core.Path.{subst}
use open_relic.Prelude.Codes.{Text, text_eq, text_eq_iff}
use open_relic.Prelude.Maps.{Map, lookup}
use open_relic.Sweep.{
  Mark, StoredObject, Repository, SweepState, SweepPhase, mark_phase, sweep_phase, complete_phase,
  run_phase, start, reset, phase_of, step_from, step, Answer, with_state, then_loop, end_mark,
  mark_batch, mark_loop, sweep_batch, set_phase, reclaim_all, unmarked, ordered, pending_rows,
  fresh_state,
}
use open_relic.Sweep.Reach.{Keeps}
use open_relic.Sweep.Walking.{Ready, IsSweep, mark_loop-Keeps}
use open_relic.Sweep.Reclaiming.{batch-Shrinks}
use open_relic.Sweep.Safety.{start-Begins, step_state}

-- Every object that the repository holds, a complete one or not, has a row in the mark set.
pub data IsMarked (s : Repository) (oid : Text) : Type 0 where
  marked : (m : Mark) → lookup oid s.reachable ≡ some m → IsMarked s oid

abbrev pub AllMarked : Repository → Type 0
AllMarked s = (oid : Text) (o : StoredObject) → lookup oid s.objects ≡ some o → IsMarked s oid

none_unmarked :
    (reachable : Map Mark) (objects : Map StoredObject)
    → length (unmarked reachable objects) ≡ 0
    → (oid : Text) (o : StoredObject) → lookup oid objects ≡ some o
    → (m : Mark) × (lookup oid reachable ≡ some m)
unfolding unmarked lookup
none_unmarked reachable [] e oid o found = let bad = found in cc
none_unmarked reachable ((k, v) ∷ objects) e oid o found =
    elim (Option-cases (lookup k reachable)) [
      | inl gone ↦
          let bad : suc (length (unmarked reachable objects)) ≡ 0 = rw (unmarked, gone) at e in
          absurd (omega arith)
      | inr (m, there) ↦
          let rest = rw (unmarked, there) at e in
          elim (Bool-cases (text_eq k oid)) [
            | inl same ↦ (
              m,
              subst (λ (x : Text). lookup x reachable ≡ some m) ((text_eq_iff k oid).0 same) there,
            )
            | inr other ↦ none_unmarked reachable objects rest oid o (rw (lookup, other) at found)
          ]
    ]

reset_phase :
    (now : Text) (previous : Option SweepState) (s : Repository)
    → phase_of (reset now previous s).sweep ≢ complete_phase
unfolding reset phase_of fresh_state
reset_phase now none s e = cc
reset_phase now (some st) s e = cc

started_phase :
    (now : Text) (s : Repository) (o : Option SweepState)
    → s.sweep ≡ o
    → phase_of (start now o s).sweep ≢ complete_phase
unfolding start phase_of
started_phase now s none e = reset_phase now none s
started_phase now s (some st) e = chosen st.phase refl
  where
    going :
        st.phase ≢ complete_phase
        → phase_of (if st.ref_version == s.ref_version then s else reset now (some st) s).sweep
          ≢ complete_phase
    going n = elim (Bool-cases (st.ref_version == s.ref_version)) [
      | inl same ↦ rw same (λ c. n (sym (ap phase_of e) ∙ c))
      | inr other ↦ rw other (reset_phase now (some st) s)
    ]

    chosen :
        (phase : SweepPhase)
        → st.phase ≡ phase
        → phase_of
            (elim phase as (λ _. Repository) [
              | complete_phase ↦ reset now none s
              | mark_phase ↦ if st.ref_version == s.ref_version then s else reset now (some st) s
              | sweep_phase ↦ if st.ref_version == s.ref_version then s else reset now (some st) s
            ]).sweep
          ≢ complete_phase
    chosen complete_phase q = reset_phase now none s
    chosen mark_phase q = going (λ c. let bad = sym q ∙ c in cc)
    chosen sweep_phase q = going (λ c. let bad = sym q ∙ c in cc)

end_mark_phase :
    (s : Repository)
    → phase_of s.sweep ≢ complete_phase
    → phase_of (end_mark s).sweep ≢ complete_phase
unfolding end_mark phase_of
end_mark_phase s n = elim (Bool-cases (length (pending_rows s.reachable) == 0)) [
  | inl over ↦ rw (end_mark, over) (begun s.sweep)
  | inr more ↦ rw (end_mark, more) n
]
  where
    begun :
        (o : Option SweepState)
        → phase_of (with_state (λ st. record st { phase = sweep_phase }) o) ≢ complete_phase
    begun none e = cc
    begun (some st) e = cc

module _ (decode : List ℕ → Text) where
  sweep_batch-AllMarked :
      (now : Text) (size : ℕ) (s : Repository)
      → phase_of s.sweep ≢ complete_phase
      → phase_of (sweep_batch now size s).sweep ≡ complete_phase
      → AllMarked (sweep_batch now size s)
  unfolding sweep_batch set_phase
  sweep_batch-AllMarked now size s n e =
      let t = reclaim_all (take size (ordered (unmarked s.reachable s.objects))) s in
      elim (Bool-cases (length (unmarked t.reachable t.objects) == 0)) [
        | inl over ↦
            let none_left = (==_iff (length (unmarked t.reachable t.objects)) 0).0 over in
            rw (sweep_batch, over)
              (λ oid o there.
                let (m, row) = none_unmarked t.reachable t.objects none_left oid o there in
                marked m row)
        | inr more ↦
            absurd
              (n (sym (batch-Shrinks decode size s).phase_same ∙ (rw (sweep_batch, more) at e)))
      ]

  after_loop_phase :
      (s : Repository) (a : Answer)
      → phase_of s.sweep ≡ mark_phase
      → Keeps decode s a.0
      → phase_of (then_loop (λ t. (end_mark t, ok tt)) a).0.sweep ≢ complete_phase
  unfolding then_loop
  after_loop_phase s (t, ok u) p k e =
      end_mark_phase t (λ c. let bad = sym p ∙ sym k.phase_same ∙ c in cc) e
  after_loop_phase s (t, err x) p k e = let bad = sym p ∙ sym k.phase_same ∙ e in cc

  run_phase-AllMarked :
      (now : Text) (size : ℕ) (phase : SweepPhase) (s : Repository)
      → Ready decode s
      → phase_of s.sweep ≡ phase
      → phase ≢ complete_phase
      → phase_of (run_phase decode now size phase s).0.sweep ≡ complete_phase
      → AllMarked (run_phase decode now size phase s).0
  unfolding run_phase mark_batch
  run_phase-AllMarked now size mark_phase s h p n e =
      let rows = take size (ordered (pending_rows s.reachable)) in
      absurd (
        after_loop_phase s (mark_loop decode rows s) p
          (mark_loop-Keeps decode rows s h.rooted h.closed) e)
  run_phase-AllMarked now size sweep_phase s h p n e =
      sweep_batch-AllMarked now size s (λ c. n (sym p ∙ c)) e
  run_phase-AllMarked now size complete_phase s h p n e = absurd (n refl)

  -- From a repository with the invariant whose checkpoint is not complete, a step that makes it complete
  -- leaves no object that it holds, complete or not, without a row in the mark set, whatever the size of its
  -- batch.
  pub step-AllMarked :
      (now : Text) (size : ℕ) (s : Repository)
      → IsSweep decode s
      → phase_of s.sweep ≢ complete_phase
      → phase_of (step decode now size s).0.sweep ≡ complete_phase
      → AllMarked (step decode now size s).0
  unfolding step_from
  step-AllMarked now size s h n e = elim (step_state decode now size s) [
    | inl same ↦ absurd (n (ap (λ (t : Repository). phase_of t.sweep) (sym same) ∙ e))
    | inr same ↦
        let t = start now s.sweep s in
        let b = start-Begins decode now s h in
        subst AllMarked (sym same) (
          run_phase-AllMarked now size (phase_of t.sweep) t b.ready refl
            (started_phase now s s.sweep refl)
            (ap (λ (u : Repository). phase_of u.sweep) (sym same) ∙ e))
  ]
