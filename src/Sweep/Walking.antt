-- ===== src/Sweep/Walking.antt =====
-- The marking phase: a mark set that covers what has been walked still does.
use open_relic.Prelude.{
  ℕ, ◌≡◌, ◌≢◌, refl, sym, ap, ◌∙◌, List, [], ◌∷◌, length, take, Option, none, some, Bool-cases,
  Option-cases, inl, inr, ok, err, Result, ok-injective, ◌==◌, ==_iff,
}
use mathlib.Core.Path.{subst}
use open_relic.Prelude.Codes.{Text}
use open_relic.Prelude.Strings.{member}
use open_relic.Prelude.Maps.{Map, lookup}
use open_relic.GitObject.{ObjectType, commit, tree, blob, tag}
use open_relic.Connectivity.{ObjectLink, Fault, links_to_reach}
use open_relic.Sweep.{
  Repository, Mark, StoredObject, SweepState, mark_phase, describe, read_object, pending_rows,
  ordered, mark_one, mark_typed, mark_described, mark_read, finish_links, mark_loop, then_loop,
  mark_batch, end_mark, phase_of, Answer,
}
use open_relic.Sweep.Reach.{
  LinksOf, IsReachable, Closed, Rooted, Keeps, Keeps-refl, Keeps-trans, finish_mark-Keeps,
}

module _ (decode : List ℕ → Text) where
  finish_links-Keeps :
      (oid : Text) (s : Repository) (type : ObjectType) (bytes : List ℕ)
      (r : Result Fault (List ObjectLink))
      → Rooted decode s
      → Closed decode s
      → read_object oid s ≡ some (type, bytes)
      → links_to_reach decode type bytes (member oid s.shallow) ≡ r
      → Keeps decode s (finish_links decode oid r s).0
  unfolding finish_links
  finish_links-Keeps oid s type bytes (err e) r c read l = Keeps-refl decode s r c
  finish_links-Keeps oid s type bytes (ok links) r c read l =
      finish_mark-Keeps decode oid links s r c (λ ls (t, b, read', l'). same_links ls t b read' l')
    where
      same_links :
          (ls : List ObjectLink) (t : ObjectType) (b : List ℕ)
          → read_object oid s ≡ some (t, b)
          → links_to_reach decode t b (member oid s.shallow) ≡ ok ls
          → ls ≡ links
      same_links ls t b read' l' =
          let followed = λ (x : Option (ObjectType × List ℕ)).
            elim x as (λ _. Result Fault (List ObjectLink)) [
              | none ↦ ok []
              | some y ↦ links_to_reach decode y.0 y.1 (member oid s.shallow)
            ] in
          let same : ok ls ≡ ok links = sym l' ∙ ap followed (sym read' ∙ read) ∙ l in
          ok-injective (ok links) (sym same) refl

  mark_read-Keeps :
      (oid : Text) (s : Repository) (found : Option (ObjectType × List ℕ))
      → Rooted decode s
      → Closed decode s
      → read_object oid s ≡ found
      → Keeps decode s (mark_read decode oid found s).0
  unfolding mark_read
  mark_read-Keeps oid s none r c read = Keeps-refl decode s r c
  mark_read-Keeps oid s (some (type, bytes)) r c read =
      finish_links-Keeps oid s type bytes (links_to_reach decode type bytes (member oid s.shallow))
        r c read refl

  -- An object that is not there, or is a blob, has no links.
  pub no_links :
      (oid : Text) (s : Repository)
      → ((type : ObjectType) (bytes : List ℕ)
          → read_object oid s ≡ some (type, bytes)
          → type ≡ blob)
      → (ls : List ObjectLink) → LinksOf decode oid s ls
      → ls ≡ []
  unfolding links_to_reach
  no_links oid s h ls (type, bytes, read, l) =
      let none_there =
        subst (λ t. links_to_reach decode t bytes (member oid s.shallow) ≡ ok ls)
          (h type bytes read) l in
      cc

  -- What is read has the type of its row.
  read_type :
      (oid : Text) (s : Repository) (o : StoredObject) (type : ObjectType) (bytes : List ℕ)
      → describe oid s ≡ some o
      → read_object oid s ≡ some (type, bytes)
      → type ≡ o.type
  unfolding read_object
  read_type oid s o type bytes e read = elim (Option-cases o.contents) [
    | inl gone ↦ let nothing = rw (read_object, e, gone) at read in cc
    | inr (b, there) ↦ let same = rw (read_object, e, there) at read in cc
  ]

  read_nothing :
      (oid : Text) (s : Repository) (type : ObjectType) (bytes : List ℕ)
      → describe oid s ≡ none
      → read_object oid s ≢ some (type, bytes)
  unfolding read_object
  read_nothing oid s type bytes e read = let nothing = rw (read_object, e) at read in cc

  typed-Keeps :
      (type : ObjectType) (oid : Text) (s : Repository) (o : StoredObject)
      → Rooted decode s
      → Closed decode s
      → describe oid s ≡ some o
      → o.type ≡ type
      → Keeps decode s (mark_typed decode type oid s).0
  unfolding mark_typed
  typed-Keeps blob oid s o r c e k =
      finish_mark-Keeps decode oid [] s r c
        (no_links oid s (λ type bytes read. read_type oid s o type bytes e read ∙ k))
  typed-Keeps commit oid s o r c e k = mark_read-Keeps oid s (read_object oid s) r c refl
  typed-Keeps tree oid s o r c e k = mark_read-Keeps oid s (read_object oid s) r c refl
  typed-Keeps tag oid s o r c e k = mark_read-Keeps oid s (read_object oid s) r c refl

  described-Keeps :
      (oid : Text) (expected : Option ObjectType) (s : Repository) (found : Option StoredObject)
      → Rooted decode s
      → Closed decode s
      → describe oid s ≡ found
      → Keeps decode s (mark_described decode oid found expected s).0
  unfolding mark_described read_object
  described-Keeps oid none s none r c e = Keeps-refl decode s r c
  described-Keeps oid (some commit) s none r c e = Keeps-refl decode s r c
  described-Keeps oid (some tree) s none r c e = Keeps-refl decode s r c
  described-Keeps oid (some tag) s none r c e = Keeps-refl decode s r c
  described-Keeps oid (some blob) s none r c e =
      finish_mark-Keeps decode oid [] s r c
        (no_links oid s (λ type bytes read. absurd (read_nothing oid s type bytes e read)))
  described-Keeps oid expected s (some o) r c e = typed-Keeps o.type oid s o r c e refl

  mark_one-Keeps :
      (oid : Text) (expected : Option ObjectType) (s : Repository)
      → Rooted decode s
      → Closed decode s
      → Keeps decode s (mark_one decode oid expected s).0
  unfolding mark_one
  mark_one-Keeps oid expected s r c = described-Keeps oid expected s (describe oid s) r c refl

  then_loop-Keeps :
      (more : Repository → Answer) (s : Repository) (a : Answer)
      → ((t : Repository) → Rooted decode t → Closed decode t → Keeps decode t (more t).0)
      → Keeps decode s a.0
      → Keeps decode s (then_loop more a).0
  unfolding then_loop
  then_loop-Keeps more s (t, ok u) h k = Keeps-trans decode k (h t k.rooted k.closed)
  then_loop-Keeps more s (t, err e) h k = k

  pub mark_loop-Keeps :
      (rows : Map Mark) (s : Repository)
      → Rooted decode s
      → Closed decode s
      → Keeps decode s (mark_loop decode rows s).0
  unfolding mark_loop
  mark_loop-Keeps [] s r c = Keeps-refl decode s r c
  mark_loop-Keeps ((oid, m) ∷ rows) s r c =
      then_loop-Keeps (mark_loop decode rows) s (mark_one decode oid m.expected s)
        (mark_loop-Keeps rows) (mark_one-Keeps oid m.expected s r c)

  -- Ready for the phase that the checkpoint names: nothing is pending once the marking is over.
  pub record Ready (s : Repository) : Type 0 where
    pub rooted : Rooted decode s
    pub closed : Closed decode s
    pub walked : phase_of s.sweep ≢ mark_phase → length (pending_rows s.reachable) ≡ 0

  -- The invariant between steps: a checkpoint for the refs as they are can be gone on with. One for
  -- other refs is thrown away by the next step.
  pub record IsSweep (s : Repository) : Type 0 where
    pub resumed : (st : SweepState) → s.sweep ≡ some st → st.ref_version ≡ s.ref_version → Ready s

  -- The objects that can be reached are as they were.
  abbrev pub Spares : Repository → Repository → Type 0
  Spares s t = (oid : Text) → IsReachable decode s oid → lookup oid t.objects ≡ lookup oid s.objects

  end_mark-Ready :
      (s : Repository)
      → Rooted decode s
      → Closed decode s
      → phase_of s.sweep ≡ mark_phase
      → Ready (end_mark s)
  unfolding end_mark read_object describe
  end_mark-Ready s r c p = elim (Bool-cases (length (pending_rows s.reachable) == 0)) [
    | inl over ↦
        rw (end_mark, over)
          (record {
            rooted = r;
            closed = c;
            walked = λ _. (==_iff (length (pending_rows s.reachable)) 0).0 over;
          })
    | inr more ↦ rw (end_mark, more) (record { rooted = r; closed = c; walked = λ n. absurd (n p) })
  ]

  end_mark-objects : (s : Repository) → (end_mark s).objects ≡ s.objects
  unfolding end_mark
  end_mark-objects s = elim (Bool-cases (length (pending_rows s.reachable) == 0)) [
    | inl over ↦ rw (end_mark, over) refl
    | inr more ↦ rw (end_mark, more) refl
  ]

  after_loop :
      (s : Repository) (a : Answer)
      → phase_of s.sweep ≡ mark_phase
      → Keeps decode s a.0
      → Ready (then_loop (λ t. (end_mark t, ok tt)) a).0
        × ((then_loop (λ t. (end_mark t, ok tt)) a).0.objects ≡ s.objects)
  unfolding then_loop
  after_loop s (t, ok u) p k =
      (end_mark-Ready t k.rooted k.closed (k.phase_same ∙ p), end_mark-objects t ∙ k.objects_same)
  after_loop s (t, err e) p k = (
    record { rooted = k.rooted; closed = k.closed; walked = λ n. absurd (n (k.phase_same ∙ p)) },
    k.objects_same,
  )

  pub mark_batch-Ready :
      (size : ℕ) (s : Repository)
      → Ready s
      → phase_of s.sweep ≡ mark_phase
      → Ready (mark_batch decode size s).0 × ((mark_batch decode size s).0.objects ≡ s.objects)
  unfolding mark_batch
  mark_batch-Ready size s h p =
      let rows = take size (ordered (pending_rows s.reachable)) in
      after_loop s (mark_loop decode rows s) p (mark_loop-Keeps rows s h.rooted h.closed)
