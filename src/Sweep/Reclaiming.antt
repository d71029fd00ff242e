-- ===== src/Sweep/Reclaiming.antt =====
-- The sweeping phase: only objects without a mark are reclaimed.
use open_relic.Prelude.{
  ℕ, zero, suc, ◌≡◌, ◌≢◌, refl, sym, ap, ◌∙◌, List, [], ◌∷◌, All, true, length, take, Option, none,
  some, Bool-cases, Option-cases, inl, inr, ok, ◌==◌,
}
use mathlib.Core.Path.{subst}
use open_relic.Prelude.Codes.{Text, text_eq, text_eq_iff}
use open_relic.Prelude.Strings.{member}
use open_relic.Prelude.Maps.{Map, lookup, without, lookup-without}
use open_relic.GitObject.{ObjectType}
use open_relic.Connectivity.{links_to_reach}
use open_relic.Sweep.{
  Repository, Mark, StoredObject, SweepState, mark_phase, complete_phase, describe, read_object,
  pending_rows, reclaim, reclaim_all, unmarked, ordered, place, precedes, sweep_batch, set_phase,
  with_state, phase_of,
}
use open_relic.Sweep.Marking.{Marked}
use open_relic.Sweep.Reach.{reachable-Marked}
use open_relic.Sweep.Walking.{Ready, Spares}

module _ (decode : List ℕ → Text) where
  -- Reclaiming objects without a mark.
  pub record Shrinks (s t : Repository) : Type 0 where
    pub refs_same : t.refs ≡ s.refs
    pub shallow_same : t.shallow ≡ s.shallow
    pub reachable_same : t.reachable ≡ s.reachable
    pub phase_same : phase_of t.sweep ≡ phase_of s.sweep
    pub fewer :
        (oid : Text) (o : StoredObject)
        → lookup oid t.objects ≡ some o
        → lookup oid s.objects ≡ some o
    pub spared : (oid : Text) → Marked oid s.reachable → lookup oid t.objects ≡ lookup oid s.objects

  Shrinks-refl : (s : Repository) → Shrinks s s
  Shrinks-refl s = record {
    refs_same = refl;
    shallow_same = refl;
    reachable_same = refl;
    phase_same = refl;
    fewer = λ oid o e. e;
    spared = λ oid m. refl;
  }

  Shrinks-trans : {s t u : Repository} → Shrinks s t → Shrinks t u → Shrinks s u
  Shrinks-trans k l = record {
    refs_same = l.refs_same ∙ k.refs_same;
    shallow_same = l.shallow_same ∙ k.shallow_same;
    reachable_same = l.reachable_same ∙ k.reachable_same;
    phase_same = l.phase_same ∙ k.phase_same;
    fewer = λ oid o e. k.fewer oid o (l.fewer oid o e);
    spared =
        λ oid m. l.spared oid (subst (λ x. Marked oid x) (sym k.reachable_same) m) ∙ k.spared oid m;
  }

  phase_of-with_state :
      (f : SweepState → SweepState) (st : Option SweepState)
      → ((x : SweepState) → (f x).phase ≡ x.phase)
      → phase_of (with_state f st) ≡ phase_of st
  unfolding phase_of
  phase_of-with_state f none h = refl
  phase_of-with_state f (some x) h = h x

  removed :
      (oid : Text) (o : StoredObject) (s : Repository)
      → lookup oid s.reachable ≡ none
      → (at : Text)
      → ((x : StoredObject)
          → lookup at (without oid s.objects) ≡ some x
          → lookup at s.objects ≡ some x)
        × (Marked at s.reachable → lookup at (without oid s.objects) ≡ lookup at s.objects)
  removed oid o s gone at =
      let e = lookup-without oid at s.objects in
      elim (Bool-cases (text_eq oid at)) [
        | inl same ↦
            let k = (text_eq_iff oid at).0 same in
            let nothing = rw same at e in
            (λ x h. cc, λ (m, h). let bad = sym gone ∙ ap (λ y. lookup y s.reachable) k ∙ h in cc)
        | inr other ↦ let still = rw other at e in (λ x h. sym still ∙ h, λ m. still)
      ]

  reclaim-Shrinks :
      (oid : Text) (s : Repository) → lookup oid s.reachable ≡ none → Shrinks s (reclaim oid s)
  unfolding reclaim
  reclaim-Shrinks oid s gone = elim (Option-cases (lookup oid s.objects)) [
    | inl nothing ↦ rw (reclaim, nothing) (Shrinks-refl s)
    | inr (o, there) ↦
        rw (reclaim, there)
          (record {
            refs_same = refl;
            shallow_same = refl;
            reachable_same = refl;
            phase_same = phase_of-with_state _ s.sweep (λ x. refl);
            fewer = λ at x h. (removed oid o s gone at).0 x h;
            spared = λ at m. (removed oid o s gone at).1 m;
          })
  ]

  -- Rows of objects without a mark.
  abbrev pub Unmarked : Map Mark → Map StoredObject → Type 0
  Unmarked reachable = All (λ (row : Text × StoredObject). lookup row.0 reachable ≡ none)

  unmarked-Unmarked :
      (reachable : Map Mark) (objects : Map StoredObject)
      → Unmarked reachable (unmarked reachable objects)
  unfolding unmarked
  unmarked-Unmarked reachable [] = tt
  unmarked-Unmarked reachable ((oid, o) ∷ objects) = elim (Option-cases (lookup oid reachable)) [
    | inl gone ↦ rw (unmarked, gone) (gone, unmarked-Unmarked reachable objects)
    | inr (m, there) ↦ rw (unmarked, there) (unmarked-Unmarked reachable objects)
  ]

  place-All :
      (P : Text × StoredObject → Type 0) (k : Text) (v : StoredObject) (m : Map StoredObject)
      → P (k, v)
      → All P m
      → All P (place k v m)
  unfolding place
  place-All P k v [] p h = (p, tt)
  place-All P k v ((j, w) ∷ m) p (q, h) = elim (Bool-cases (precedes k j)) [
    | inl before ↦ rw (place, before) (p, (q, h))
    | inr behind ↦ rw (place, behind) (q, place-All P k v m p h)
  ]

  ordered-All :
      (P : Text × StoredObject → Type 0) (m : Map StoredObject) → All P m → All P (ordered m)
  unfolding ordered
  ordered-All P [] h = tt
  ordered-All P ((k, v) ∷ m) (p, h) = place-All P k v (ordered m) p (ordered-All P m h)

  take-All :
      (P : Text × StoredObject → Type 0) (n : ℕ) (m : Map StoredObject) → All P m → All P (take n m)
  take-All P zero m h = tt
  take-All P (suc n) [] h = tt
  take-All P (suc n) (x ∷ m) (p, h) = (p, take-All P n m h)

  reclaim_all-Shrinks :
      (rows : Map StoredObject) (s : Repository)
      → Unmarked s.reachable rows
      → Shrinks s (reclaim_all rows s)
  unfolding reclaim_all
  reclaim_all-Shrinks [] s h = Shrinks-refl s
  reclaim_all-Shrinks ((oid, o) ∷ rows) s (gone, h) =
      let k = reclaim-Shrinks oid s gone in
      Shrinks-trans k (
        reclaim_all-Shrinks rows (reclaim oid s)
          (subst (λ x. Unmarked x rows) (sym k.reachable_same) h))

  -- The batch that a step takes.
  pub batch-Shrinks :
      (size : ℕ) (s : Repository)
      → Shrinks s (reclaim_all (take size (ordered (unmarked s.reachable s.objects))) s)
  batch-Shrinks size s =
      reclaim_all-Shrinks (take size (ordered (unmarked s.reachable s.objects))) s
        (take-All _ size _ (ordered-All _ _ (unmarked-Unmarked s.reachable s.objects)))

  read_fewer :
      (s t : Repository) (oid : Text) (found : ObjectType × List ℕ)
      → ((o : StoredObject) → lookup oid t.objects ≡ some o → lookup oid s.objects ≡ some o)
      → read_object oid t ≡ some found
      → read_object oid s ≡ some found
  unfolding read_object describe
  read_fewer s t oid found h e = elim (Option-cases (lookup oid t.objects)) [
    | inl gone ↦ let nothing = rw (read_object, gone) at e in cc
    | inr (o, there) ↦ rw (read_object, h o there) (rw (read_object, there) at e)
  ]

  Shrinks-Ready : (s t : Repository) → Shrinks s t → Ready decode s → Ready decode t
  Shrinks-Ready s t k h = record {
    rooted = λ oid m.
        subst (λ x. Marked oid x) (sym k.reachable_same)
          (h.rooted oid (subst (λ x. member oid x ≡ true) k.refs_same m));
    closed = λ oid m links e w (type, bytes, read, l) target g.
        subst (λ x. Marked target x) (sym k.reachable_same)
          (h.closed oid m links (ap (lookup oid) (sym k.reachable_same) ∙ e) w
            (
              type,
              bytes,
              read_fewer s t oid (type, bytes) (k.fewer oid) read,
              subst (λ x. links_to_reach decode type bytes (member oid x) ≡ ok links) k.shallow_same
                  l,
            )
            target g);
    walked = λ n.
        ap (λ x. length (pending_rows x)) k.reachable_same ∙ h.walked (λ p. n (k.phase_same ∙ p));
  }

  set_complete-Ready :
      (now : Text) (s : Repository)
      → Ready decode s
      → phase_of s.sweep ≢ mark_phase
      → Ready decode (set_phase complete_phase (some now) s)
  unfolding set_phase read_object describe
  set_complete-Ready now s h p = record {
    rooted = h.rooted;
    closed = h.closed;
    walked = λ _. h.walked p;
  }

  pub sweep_batch-Ready :
      (now : Text) (size : ℕ) (s : Repository)
      → Ready decode s
      → phase_of s.sweep ≢ mark_phase
      → Ready decode (sweep_batch now size s) × Spares decode s (sweep_batch now size s)
  unfolding sweep_batch set_phase reclaim_all
  sweep_batch-Ready now size s h p =
      let rows = take size (ordered (unmarked s.reachable s.objects)) in
      let k = batch-Shrinks size s in
      let t = reclaim_all rows s in
      let ready = Shrinks-Ready s t k h in
      let spared : Spares decode s t = λ oid way.
        k.spared oid (reachable-Marked decode s h.rooted h.closed (h.walked p) oid way) in
      elim (Bool-cases (length (unmarked t.reachable t.objects) == 0)) [
        | inl over ↦
            rw (sweep_batch, over)
              (set_complete-Ready now t ready (λ q. p (sym k.phase_same ∙ q)), spared)
        | inr more ↦ rw (sweep_batch, more) (ready, spared)
      ]
