-- ===== src/Sweep/Reach.antt =====
-- What can be reached from the refs, and what the walk of one object keeps of the mark set.
use open_relic.Prelude.{
  ℕ, ◌≡◌, refl, ◌∙◌, List, true, false, length, Option, none, some, inl, inr, ok,
}
use mathlib.Core.Path.{subst}
use open_relic.Prelude.Codes.{Text}
use open_relic.Prelude.Strings.{member}
use open_relic.Prelude.Maps.{lookup}
use open_relic.GitObject.{ObjectType}
use open_relic.Connectivity.{ObjectLink, links_to_reach}
use open_relic.Sweep.{
  Repository, Mark, SweepState, describe, read_object, mark_links, finish_mark, pending_rows,
  phase_of, count_reachable,
}
use open_relic.Sweep.Marking.{
  Marked, targets, mark_links-Marked, mark_links-targets, mark_links-Unwalked, mark_walked-Marked,
  mark_walked-cases, none_pending,
}

-- The version of the refs that the checkpoint is for.
abbrev pub began : Option SweepState → Option ℕ
began none = none
began (some st) = some st.ref_version

module _ (decode : List ℕ → Text) where
  -- The links of a stored object, where it can be read and parsed.
  abbrev pub LinksOf : Text → Repository → List ObjectLink → Type 0
  LinksOf oid s links =
      (type : ObjectType) × (bytes : List ℕ) × (read_object oid s ≡ some (type, bytes))
      × (links_to_reach decode type bytes (member oid s.shallow) ≡ ok links)

  -- What can be reached from the refs over the links of stored objects.
  pub data IsReachable (s : Repository) : Text → Type 0 where
    root : (oid : Text) → member oid s.refs ≡ true → IsReachable s oid
    link :
        (oid target : Text) (links : List ObjectLink)
        → IsReachable s oid
        → LinksOf oid s links
        → member target (targets links) ≡ true
        → IsReachable s target

  -- The links of every row that is walked are marked.
  abbrev pub Closed : Repository → Type 0
  Closed s =
      (oid : Text) (m : Mark) (links : List ObjectLink)
      → lookup oid s.reachable ≡ some m
      → m.pending ≡ false
      → LinksOf oid s links
      → (target : Text) → member target (targets links) ≡ true
      → Marked target s.reachable

  abbrev pub Rooted : Repository → Type 0
  Rooted s = (oid : Text) → member oid s.refs ≡ true → Marked oid s.reachable

  -- With nothing pending, the mark set is all that can be reached.
  pub reachable-Marked :
      (s : Repository)
      → Rooted s
      → Closed s
      → length (pending_rows s.reachable) ≡ 0
      → (oid : Text) → IsReachable s oid
      → Marked oid s.reachable
  reachable-Marked s r c none_left oid (root _ h) = r oid h
  reachable-Marked s r c none_left oid (link from _ links way l h) =
      let (m, e) = reachable-Marked s r c none_left from way in
      c from m links e (none_pending s.reachable from m none_left e) l oid h

  finish_mark-Closed :
      (oid : Text) (links : List ObjectLink) (s : Repository)
      → Closed s
      → ((ls : List ObjectLink) → LinksOf oid s ls → ls ≡ links)
      → Closed (finish_mark oid links s)
  unfolding finish_mark read_object describe
  finish_mark-Closed oid links s c known at m ls e w l target h =
      elim (mark_walked-cases oid at (mark_links links s.reachable) m e) [
        | inl same ↦
            let l' = subst (λ x. LinksOf x s ls) same l in
            let h' = subst (λ x. member target (targets x) ≡ true) (known ls l') h in
            mark_walked-Marked oid target (mark_links links s.reachable)
              (mark_links-targets links target s.reachable h')
        | inr row ↦
            let (x, f, v) = mark_links-Unwalked links s.reachable at m row w in
            mark_walked-Marked oid target (mark_links links s.reachable)
              (mark_links-Marked links target s.reachable (c at x ls f v l target h))
      ]

  finish_mark-Rooted :
      (oid : Text) (links : List ObjectLink) (s : Repository)
      → Rooted s
      → Rooted (finish_mark oid links s)
  unfolding finish_mark
  finish_mark-Rooted oid links s r at h =
      mark_walked-Marked oid at (mark_links links s.reachable)
        (mark_links-Marked links at s.reachable (r at h))

  -- What a part of a step leaves as it is, and what it keeps.
  pub record Keeps (s t : Repository) : Type 0 where
    pub refs_same : t.refs ≡ s.refs
    pub version_same : t.ref_version ≡ s.ref_version
    pub objects_same : t.objects ≡ s.objects
    pub phase_same : phase_of t.sweep ≡ phase_of s.sweep
    pub began_same : began t.sweep ≡ began s.sweep
    pub rooted : Rooted t
    pub closed : Closed t

  pub Keeps-refl : (s : Repository) → Rooted s → Closed s → Keeps s s
  Keeps-refl s r c = record {
    refs_same = refl;
    version_same = refl;
    objects_same = refl;
    phase_same = refl;
    began_same = refl;
    rooted = r;
    closed = c;
  }

  pub Keeps-trans : {s t u : Repository} → Keeps s t → Keeps t u → Keeps s u
  Keeps-trans k l = record {
    refs_same = l.refs_same ∙ k.refs_same;
    version_same = l.version_same ∙ k.version_same;
    objects_same = l.objects_same ∙ k.objects_same;
    phase_same = l.phase_same ∙ k.phase_same;
    began_same = l.began_same ∙ k.began_same;
    rooted = l.rooted;
    closed = l.closed;
  }

  phase_of-count : (st : Option SweepState) → phase_of (count_reachable st) ≡ phase_of st
  unfolding phase_of count_reachable
  phase_of-count none = refl
  phase_of-count (some st) = refl

  began-count : (st : Option SweepState) → began (count_reachable st) ≡ began st
  unfolding count_reachable
  began-count none = refl
  began-count (some st) = refl

  pub finish_mark-Keeps :
      (oid : Text) (links : List ObjectLink) (s : Repository)
      → Rooted s
      → Closed s
      → ((ls : List ObjectLink) → LinksOf oid s ls → ls ≡ links)
      → Keeps s (finish_mark oid links s)
  unfolding finish_mark
  finish_mark-Keeps oid links s r c known = record {
    refs_same = refl;
    version_same = refl;
    objects_same = refl;
    phase_same = phase_of-count s.sweep;
    began_same = began-count s.sweep;
    rooted = finish_mark-Rooted oid links s r;
    closed = finish_mark-Closed oid links s c known;
  }
