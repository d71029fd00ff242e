-- ===== src/Sweep/Safety.antt =====
-- No step reclaims an object that can be reached from the refs.
use open_relic.Prelude.{
  ℕ, ◌≡◌, ◌≢◌, refl, sym, ap, ◌∙◌, List, [], false, Option, none, some, if◌then◌else◌, Bool-cases,
  inl, inr, ◌⊎◌, ok, err, Result, ◌==◌, ==_iff,
}
use mathlib.Core.Path.{subst}
use open_relic.Prelude.Codes.{Text}
use open_relic.Prelude.Maps.{lookup}
use open_relic.Sweep.{
  Repository, Mark, SweepState, SweepPhase, mark_phase, sweep_phase, complete_phase, SweepError,
  no_checkpoint, describe, read_object, run_phase, start, reset, phase_of, step_from, step, Answer,
  root_marks, fresh_state,
}
use open_relic.Sweep.Marking.{root_marks-roots, root_marks-AllPending}
use open_relic.Sweep.Reclaiming.{sweep_batch-Ready}
use open_relic.Sweep.Reach.{IsReachable, root, link}
use open_relic.Sweep.Walking.{Ready, IsSweep, Spares, mark_batch-Ready}

module _ (decode : List ℕ → Text) where
  reset-Ready :
      (now : Text) (previous : Option SweepState) (s : Repository)
      → Ready decode (reset now previous s)
  unfolding reset phase_of fresh_state lookup
  reset-Ready now previous s = record {
    rooted = λ oid m. root_marks-roots s.refs oid [] m;
    closed = λ oid m links e w l target g. absurd (still_pending oid m e w);
    walked = λ n. absurd (n (fresh_phase previous));
  }
    where
      still_pending :
          (oid : Text) (m : Mark) → lookup oid (root_marks s.refs []) ≡ some m → m.pending ≢ false
      still_pending oid m e w =
          let p = root_marks-AllPending s.refs [] (λ at x h. let bad = h in cc) oid m e in cc

      fresh_phase :
          (old : Option SweepState) → (fresh_state now s.ref_version old).phase ≡ mark_phase
      fresh_phase none = refl
      fresh_phase (some x) = refl

  -- What a step begins with: the same objects, and all that could be reached still can.
  pub record Begins (s t : Repository) : Type 0 where
    pub ready : Ready decode t
    pub objects_same : t.objects ≡ s.objects
    still : (oid : Text) → IsReachable decode s oid → IsReachable decode t oid

  reset-IsReachable :
      (now : Text) (previous : Option SweepState) (s : Repository) (oid : Text)
      → IsReachable decode s oid
      → IsReachable decode (reset now previous s) oid
  unfolding reset read_object describe
  reset-IsReachable now previous s oid (root _ h) = root oid h
  reset-IsReachable now previous s oid (link from _ links way l h) =
      link from oid links (reset-IsReachable now previous s from way) l h

  reset-Begins :
      (now : Text) (previous : Option SweepState) (s : Repository) → Begins s (reset now previous s)
  unfolding reset
  reset-Begins now previous s = record {
    ready = reset-Ready now previous s;
    objects_same = refl;
    still = reset-IsReachable now previous s;
  }

  pub start-Begins :
      (now : Text) (s : Repository) → IsSweep decode s → Begins s (start now s.sweep s)
  unfolding start
  start-Begins now s h = begun s.sweep refl
    where
      resumed :
          (st : SweepState)
          → s.sweep ≡ some st
          → Begins s (if st.ref_version == s.ref_version then s else reset now (some st) s)
      resumed st e = elim (Bool-cases (st.ref_version == s.ref_version)) [
        | inl same ↦ rw same (record {
          ready = h.resumed st e ((==_iff st.ref_version s.ref_version).0 same);
          objects_same = refl;
          still = λ oid way. way;
        })
        | inr other ↦ rw other (reset-Begins now (some st) s)
      ]

      begun : (o : Option SweepState) → s.sweep ≡ o → Begins s (start now o s)
      begun none e = reset-Begins now none s
      begun (some st) e =
          elim st.phase
            as (λ p. Begins s (elim p [
              | complete_phase ↦ reset now none s
              | mark_phase ↦ if st.ref_version == s.ref_version then s else reset now (some st) s
              | sweep_phase ↦ if st.ref_version == s.ref_version then s else reset now (some st) s
            ])) [
              | complete_phase ↦ reset-Begins now none s
              | mark_phase ↦ resumed st e
              | sweep_phase ↦ resumed st e
            ]

  run_phase-Ready :
      (now : Text) (size : ℕ) (phase : SweepPhase) (s : Repository)
      → Ready decode s
      → phase_of s.sweep ≡ phase
      → Ready decode (run_phase decode now size phase s).0
        × Spares decode s (run_phase decode now size phase s).0
  unfolding run_phase
  run_phase-Ready now size mark_phase s h p =
      let (r, same) = mark_batch-Ready decode size s h p in (r, λ oid way. ap (lookup oid) same)
  run_phase-Ready now size sweep_phase s h p =
      sweep_batch-Ready decode now size s h (λ q. let bad = sym p ∙ q in cc)
  run_phase-Ready now size complete_phase s h p =
      sweep_batch-Ready decode now size s h (λ q. let bad = sym p ∙ q in cc)

  pub step_state :
      (now : Text) (size : ℕ) (s : Repository)
      → ((step decode now size s).0 ≡ s)
        ⊎ ((step decode now size s).0 ≡ (step_from decode now size (start now s.sweep s)).0)
  unfolding step
  step_state now size s = elim (Bool-cases (size == 0)) [
    | inl nothing ↦ inl (rw (step, nothing) refl)
    | inr some_rows ↦
        inr (rw (step, some_rows) (answered (step_from decode now size (start now s.sweep s))))
  ]
    where
      answered :
          (a : Answer)
          → (elim a.1 as (λ _. Repository × Result SweepError SweepState) [
            | err e ↦ (a.0, err e)
            | ok u ↦ elim a.0.sweep [ none ↦ (a.0, err no_checkpoint) | some st ↦ (a.0, ok st) ]
          ]).0
            ≡ a.0
      answered (t, err e) = refl
      answered (t, ok u) =
          elim t.sweep
            as (λ o.
              (elim o as (λ _. Repository × Result SweepError SweepState) [
                | none ↦ (t, err no_checkpoint)
                | some st ↦ (t, ok st)
              ]).0
              ≡ t) [ none ↦ refl | some st ↦ refl ]

  -- From a repository with the invariant that a checkpoint for the refs as they are has the roots and
  -- all links of its walked rows marked, with nothing pending once its marking is over, a step of any
  -- size keeps the invariant, whichever way it ends, and what the repository holds under the id of an
  -- object that can be reached from the refs is as it was.
  pub step-IsSweep :
      (now : Text) (size : ℕ) (s : Repository)
      → IsSweep decode s
      → IsSweep decode (step decode now size s).0 × Spares decode s (step decode now size s).0
  unfolding step_from
  step-IsSweep now size s h = elim (step_state now size s) [
    | inl same ↦ subst (λ t. IsSweep decode t × Spares decode s t) (sym same) (h, λ oid way. refl)
    | inr same ↦
        let t = start now s.sweep s in
        let b = start-Begins now s h in
        let (r, kept) = run_phase-Ready now size (phase_of t.sweep) t b.ready refl in
        subst (λ u. IsSweep decode u × Spares decode s u) (sym same)
          (
            record { resumed = λ st e v. r },
            λ oid way. kept oid (b.still oid way) ∙ ap (lookup oid) b.objects_same,
          )
  ]
