-- ===== src/Sweep/Runs.antt =====
-- Sweeps among pushes: whatever happens between two steps, no step reclaims what can be reached.
use open_relic.Prelude.{
  ℕ, ◌+◌, ◌≤◌, ◌≡◌, refl, sym, ap, ◌∙◌, List, [], ◌∷◌, true, false, Option, none, some,
  if◌then◌else◌, Bool-cases, Option-cases, ◌⊎◌, inl, inr, ok, err, ◌==◌, take, length, arith,
}
use mathlib.Core.Path.{subst}
use open_relic.Prelude.Codes.{Text}
use open_relic.Prelude.Maps.{Map, lookup}
use open_relic.Sweep.{
  Repository, Mark, SweepState, SweepPhase, StoredObject, mark_phase, sweep_phase, complete_phase,
  describe, read_object, run_phase, start, reset, phase_of, step_from, step, Answer, with_state,
  then_loop, end_mark, mark_batch, mark_loop, sweep_batch, set_phase, reclaim, reclaim_all,
  unmarked, ordered, pending_rows, fresh_state,
}
use open_relic.Prelude.Strings.{member}
use open_relic.GitObject.{ObjectType, blob}
use open_relic.Connectivity.{links_to_reach}
use open_relic.Connectivity.Membership.{none_in}
use open_relic.Sweep.Marking.{Marked, targets}
use open_relic.Sweep.Reach.{Keeps, began}
use open_relic.Sweep.Walking.{Ready, IsSweep, Spares, no_links, mark_loop-Keeps}
use open_relic.Sweep.Safety.{start-Begins, step_state, step-IsSweep}

-- The versions of the refs and of the checkpoint stay as they are.
record Timed (s t : Repository) : Type 0 where
  version_same : t.ref_version ≡ s.ref_version
  began_same : began t.sweep ≡ began s.sweep

Timed-refl : (s : Repository) → Timed s s
Timed-refl s = record { version_same = refl; began_same = refl }

Timed-trans : {s t u : Repository} → Timed s t → Timed t u → Timed s u
Timed-trans k l = record {
  version_same = l.version_same ∙ k.version_same;
  began_same = l.began_same ∙ k.began_same;
}

began-with_state :
    (f : SweepState → SweepState) (st : Option SweepState)
    → ((x : SweepState) → (f x).ref_version ≡ x.ref_version)
    → began (with_state f st) ≡ began st
began-with_state f none h = refl
began-with_state f (some x) h = ap some (h x)

end_mark-Timed : (s : Repository) → Timed s (end_mark s)
unfolding end_mark
end_mark-Timed s = elim (Bool-cases (length (pending_rows s.reachable) == 0)) [
  | inl over ↦
      rw (end_mark, over)
        (record { version_same = refl; began_same = began-with_state _ s.sweep (λ x. refl) })
  | inr more ↦ rw (end_mark, more) (Timed-refl s)
]

set_phase-Timed :
    (phase : SweepPhase) (completed : Option Text) (s : Repository)
    → Timed s (set_phase phase completed s)
unfolding set_phase
set_phase-Timed phase completed s = record {
  version_same = refl;
  began_same = began-with_state _ s.sweep (λ x. refl);
}

reclaim-Timed : (oid : Text) (s : Repository) → Timed s (reclaim oid s)
unfolding reclaim
reclaim-Timed oid s = elim (Option-cases (lookup oid s.objects)) [
  | inl nothing ↦ rw (reclaim, nothing) (Timed-refl s)
  | inr (o, there) ↦
      rw (reclaim, there)
        (record { version_same = refl; began_same = began-with_state _ s.sweep (λ x. refl) })
]

reclaim_all-Timed : (rows : Map StoredObject) (s : Repository) → Timed s (reclaim_all rows s)
unfolding reclaim_all
reclaim_all-Timed [] s = Timed-refl s
reclaim_all-Timed ((oid, o) ∷ rows) s =
    Timed-trans (reclaim-Timed oid s) (reclaim_all-Timed rows (reclaim oid s))

sweep_batch-Timed : (now : Text) (size : ℕ) (s : Repository) → Timed s (sweep_batch now size s)
unfolding sweep_batch
sweep_batch-Timed now size s =
    let t = reclaim_all (take size (ordered (unmarked s.reachable s.objects))) s in
    let k = reclaim_all-Timed (take size (ordered (unmarked s.reachable s.objects))) s in
    elim (Bool-cases (length (unmarked t.reachable t.objects) == 0)) [
      | inl over ↦
          rw (sweep_batch, over) (Timed-trans k (set_phase-Timed complete_phase (some now) t))
      | inr more ↦ rw (sweep_batch, more) k
    ]

-- A checkpoint is for the refs as they are, or as they were.
abbrev IsDated : Repository → Type 0
IsDated s = (n : ℕ) → began s.sweep ≡ some n → n ≤ s.ref_version

Timed-IsDated : (s t : Repository) → Timed s t → IsDated s → IsDated t
Timed-IsDated s t k h n e =
    let d = h n (sym k.began_same ∙ e) in let v = k.version_same in omega arith

reset-IsDated :
    (now : Text) (previous : Option SweepState) (s : Repository) → IsDated (reset now previous s)
unfolding reset fresh_state
reset-IsDated now none s n e = let same : s.ref_version ≡ n = cc in omega arith
reset-IsDated now (some st) s n e = let same : s.ref_version ≡ n = cc in omega arith

start-IsDated :
    (now : Text) (s : Repository) (o : Option SweepState)
    → s.sweep ≡ o
    → IsDated s
    → IsDated (start now o s)
unfolding start
start-IsDated now s none e h = reset-IsDated now none s
start-IsDated now s (some st) e h = resumed st.phase
  where
    chosen : IsDated (if st.ref_version == s.ref_version then s else reset now (some st) s)
    chosen = elim (Bool-cases (st.ref_version == s.ref_version)) [
      | inl same ↦ rw same h
      | inr other ↦ rw other (reset-IsDated now (some st) s)
    ]

    resumed :
        (phase : SweepPhase)
        → IsDated (elim phase as (λ _. Repository) [
          | complete_phase ↦ reset now none s
          | mark_phase ↦ if st.ref_version == s.ref_version then s else reset now (some st) s
          | sweep_phase ↦ if st.ref_version == s.ref_version then s else reset now (some st) s
        ])
    resumed complete_phase = reset-IsDated now none s
    resumed mark_phase = chosen
    resumed sweep_phase = chosen

module _ (decode : List ℕ → Text) where
  after_loop-Timed :
      (s : Repository) (a : Answer)
      → Keeps decode s a.0
      → Timed s (then_loop (λ t. (end_mark t, ok tt)) a).0
  unfolding then_loop
  after_loop-Timed s (t, ok u) k =
      Timed-trans (record { version_same = k.version_same; began_same = k.began_same })
        (end_mark-Timed t)
  after_loop-Timed s (t, err e) k = record {
    version_same = k.version_same;
    began_same = k.began_same;
  }

  run_phase-Timed :
      (now : Text) (size : ℕ) (phase : SweepPhase) (s : Repository)
      → Ready decode s
      → Timed s (run_phase decode now size phase s).0
  unfolding run_phase mark_batch
  run_phase-Timed now size mark_phase s h =
      let rows = take size (ordered (pending_rows s.reachable)) in
      after_loop-Timed s (mark_loop decode rows s) (mark_loop-Keeps decode rows s h.rooted h.closed)
  run_phase-Timed now size sweep_phase s h = sweep_batch-Timed now size s
  run_phase-Timed now size complete_phase s h = sweep_batch-Timed now size s

  step-IsDated :
      (now : Text) (size : ℕ) (s : Repository)
      → IsSweep decode s
      → IsDated s
      → IsDated (step decode now size s).0
  unfolding step_from
  step-IsDated now size s h d = elim (step_state decode now size s) [
    | inl same ↦ subst IsDated (sym same) d
    | inr same ↦
        let t = start now s.sweep s in
        let b = start-Begins decode now s h in
        subst IsDated (sym same) (
          Timed-IsDated t (run_phase decode now size (phase_of t.sweep) t).0
            (run_phase-Timed now size (phase_of t.sweep) t b.ready)
            (start-IsDated now s s.sweep refl d))
  ]

  -- A push that moves refs: the version goes up, and what the sweep keeps stays as it is.
  pub record Pushes (s t : Repository) : Type 0 where
    pub version_up : t.ref_version ≡ s.ref_version + 1
    pub sweep_same : t.sweep ≡ s.sweep

  -- A push that stores objects and moves no ref, for one that fails behind its pack. A walked row may be of
  -- an object that was missing, where the walk took it for a blob: what is stored under its id is a blob.
  -- It is no blob only where the walk took a missing subtree for one, whose mode is written `040000`; a push
  -- that then stores the subtree and moves no ref is not among these.
  pub record Stores (s t : Repository) : Type 0 where
    pub refs_same : t.refs ≡ s.refs
    pub version_same : t.ref_version ≡ s.ref_version
    pub shallow_same : t.shallow ≡ s.shallow
    pub reachable_same : t.reachable ≡ s.reachable
    pub sweep_same : t.sweep ≡ s.sweep
    pub walked_same :
        (oid : Text) (m : Mark)
        → lookup oid s.reachable ≡ some m
        → m.pending ≡ false
        → (lookup oid t.objects ≡ lookup oid s.objects)
          ⊎ ((o : StoredObject) × (lookup oid t.objects ≡ some o) × (o.type ≡ blob))

  -- What can happen to a repository that starts with no checkpoint.
  pub data IsRun : Repository → Type 0 where
    fresh : (s : Repository) → s.sweep ≡ none → IsRun s
    swept : (now : Text) (size : ℕ) (s : Repository) → IsRun s → IsRun (step decode now size s).0
    pushed : (s t : Repository) → IsRun s → Pushes s t → IsRun t
    stored : (s t : Repository) → IsRun s → Stores s t → IsRun t

  read_same :
      (oid : Text) (s t : Repository)
      → lookup oid t.objects ≡ lookup oid s.objects
      → read_object oid t ≡ read_object oid s
  unfolding read_object describe
  read_same oid s t e = elim (Option-cases (lookup oid s.objects)) [
    | inl gone ↦ rw (read_object, e, gone) refl
    | inr (o, there) ↦ rw (read_object, e, there) refl
  ]

  type_of_row :
      (oid : Text) (t : Repository) (o : StoredObject) (type : ObjectType) (bytes : List ℕ)
      → lookup oid t.objects ≡ some o
      → read_object oid t ≡ some (type, bytes)
      → type ≡ o.type
  unfolding read_object describe
  type_of_row oid t o type bytes there read = elim (Bool-cases o.complete) [
    | inr partial ↦ let bad = rw (read_object, there, partial) at read in cc
    | inl whole ↦ held o.contents (rw (read_object, there, whole) at read)
  ]
    where
      held :
          (contents : Option (List ℕ))
          → (elim contents as (λ _. Option (ObjectType × List ℕ)) [
            | none ↦ none
            | some b ↦ some (o.type, b)
          ])
            ≡ some (type, bytes)
          → type ≡ o.type
      held none e = let bad = e in cc
      held (some b) e =
          let value : ◌≡◌ {A = ObjectType × List ℕ} (o.type, b) (type, bytes) = cc in
          ap (λ (x : ObjectType × List ℕ). x.0) (sym value)

  Stores-Ready : (s t : Repository) → Stores s t → Ready decode s → Ready decode t
  Stores-Ready s t k h = record {
    rooted = λ oid m.
        subst (Marked oid) (sym k.reachable_same)
          (h.rooted oid (subst (λ x. member oid x ≡ true) k.refs_same m));
    closed = λ oid m links e w (type, bytes, read, l) target g.
        let was = sym (ap (lookup oid) k.reachable_same) ∙ e in
        elim (k.walked_same oid m was w) [
          | inl same ↦ subst (Marked target) (sym k.reachable_same) (
              h.closed oid m links was w
                (
                  type,
                  bytes,
                  sym (read_same oid s t same) ∙ read,
                  subst (λ x. links_to_reach decode type bytes (member oid x) ≡ ok links)
                      k.shallow_same l,
                )
                target g)
          | inr (o, there, is_blob) ↦
              let no_more =
                no_links decode oid t (λ ty b f. type_of_row oid t o ty b there f ∙ is_blob) links
                  (type, bytes, read, l) in
              let bad = subst (λ ls. member target (targets ls) ≡ true) no_more g in
              absurd (none_in target bad)
        ];
    walked = λ n.
        ap (λ x. length (pending_rows x)) k.reachable_same
        ∙ h.walked (λ p. n (ap phase_of k.sweep_same ∙ p));
  }

  run-IsSweep : (s : Repository) → IsRun s → IsSweep decode s × IsDated s
  run-IsSweep s (fresh _ e) = (
    record { resumed = λ st f v. let bad = sym e ∙ f in cc },
    λ n f. let bad = sym (ap began e) ∙ f in cc,
  )
  run-IsSweep _ (swept now size s r) =
      let (h, d) = run-IsSweep s r in
      ((step-IsSweep decode now size s h).0, step-IsDated now size s h d)
  run-IsSweep t (pushed s _ r p) =
      let (h, d) = run-IsSweep s r in
      let up = p.version_up in
      (
        record {
          resumed = λ st f v.
              let older = d st.ref_version (ap began (sym p.sweep_same ∙ f)) in
              absurd (omega arith);
        },
        λ n f. let older = d n (ap began (sym p.sweep_same) ∙ f) in omega arith,
      )
  run-IsSweep t (stored s _ r p) =
      let (h, d) = run-IsSweep s r in
      let same = p.version_same in
      (
        record {
          resumed = λ st f v.
              Stores-Ready s t p (h.resumed st (sym p.sweep_same ∙ f) (v ∙ p.version_same));
        },
        λ n f. let older = d n (ap began (sym p.sweep_same) ∙ f) in omega arith,
      )

  -- In a repository that started with no checkpoint, whatever steps of the sweep and pushes came since, in
  -- any order, the next step leaves every object that can be reached from the refs. A push moves refs and
  -- raises their version, or it moves none and stores any objects, except that under an id which the
  -- sweep has walked already as a missing blob it stores nothing but a blob.
  pub run-Spares :
      (now : Text) (size : ℕ) (s : Repository)
      → IsRun s
      → Spares decode s (step decode now size s).0
  run-Spares now size s r = (step-IsSweep decode now size s (run-IsSweep s r).0).1
