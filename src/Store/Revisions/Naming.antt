-- ===== src/Store/Revisions/Naming.antt =====
-- What a revision names, and how `#resolveCommit` answers to it.
use open_relic.Prelude.{
  All, Option-cases, all, ◌++◌, sym, ◌∙◌, ℕ, ◌≤◌, ◌<◌, ◌≡◌, refl, List, [], ◌∷◌, length, true,
  false, Option, none, some, ok, err, thrown, out_of_fuel, Bool-cases, ◌⊎◌, inl, inr, arith,
}
use open_relic.Prelude.Codes.{Text, codes}
use open_relic.Prelude.Maps.{lookup}
use open_relic.GitObject.{is_object_id, is_lower_hex}
use open_relic.Head.{Head, symbolic, detached}
use open_relic.Connectivity.Membership.{none_in}
use open_relic.Store.{Repository, head_of}
use open_relic.Store.Revisions.{
  Start, head_start, unborn, unknown, at_object, start_of, Resolution, resolve_loop, resolve_start,
  resolve_commit, corrupt, file_not_found, revision_not_found, wrong_object_type,
}
use open_relic.Store.Revisions.Peeling.{HasTags, Fails, Resolves, resolve_loop-Resolves, weigh_most}

-- Forty lower-case hexadecimal digits.
abbrev pub IsFullId : Text → Type 0
IsFullId revision =
    (length revision ≡ 40)
    × All (λ (c : ℕ). ((48 ≤ c) × (c ≤ 57)) ⊎ ((97 ≤ c) × (c ≤ 102))) revision

-- The object that a revision names: HEAD's where there is none, else the one with this id, that of the
-- branch of this name, or that of the tag where there is no such branch.
pub data NamesObject (s : Repository) : Option Text → Text → Type 0 where
  head_object : (oid : Text) → head_of s ≡ some (detached oid) → NamesObject s none oid
  head_branch :
      (name oid : Text)
      → head_of s ≡ some (symbolic name)
      → lookup name s.refs ≡ some oid
      → NamesObject s none oid
  full_id : (revision : Text) → IsFullId revision → NamesObject s (some revision) revision
  branch_name :
      (revision oid : Text)
      → ¬ IsFullId revision
      → lookup (codes "refs/heads/" ++ revision) s.refs ≡ some oid
      → NamesObject s (some revision) oid
  tag_name :
      (revision oid : Text)
      → ¬ IsFullId revision
      → lookup (codes "refs/heads/" ++ revision) s.refs ≡ none
      → lookup (codes "refs/tags/" ++ revision) s.refs ≡ some oid
      → NamesObject s (some revision) oid

-- HEAD is on a branch that is not there yet.
pub data IsUnborn (s : Repository) : Option Text → Type 0 where
  no_branch :
      (name : Text) → head_of s ≡ some (symbolic name) → lookup name s.refs ≡ none → IsUnborn s none

abbrev pub IsUnknown : Repository → Option Text → Type 0
IsUnknown s revision = ((oid : Text) → ¬ NamesObject s revision oid) × ¬ IsUnborn s revision

abbrev pub Named : (List ℕ → Text) → Option Text → Repository → Resolution → Type 0
Named decode revision s r =
    (oid : Text) × NamesObject s revision oid × Resolves decode s.objects oid r

-- How `#resolveCommit` ends.
unfoldable pub Answers : (List ℕ → Text) → Option Text → Repository → Resolution → Type 0
Answers decode revision s (ok none) = IsUnborn s revision
Answers decode revision s (ok (some oid)) = Named decode revision s (ok (some oid))
Answers decode revision s (err out_of_fuel) = true ≡ false
Answers decode revision s (err (thrown file_not_found)) = true ≡ false
Answers decode revision s (err (thrown corrupt)) = Named decode revision s (err (thrown corrupt))
Answers decode revision s (err (thrown wrong_object_type)) =
    Named decode revision s (err (thrown wrong_object_type))
Answers decode revision s (err (thrown revision_not_found)) =
    IsUnknown s revision ⊎ Named decode revision s (err (thrown revision_not_found))

named-Answers :
    (decode : List ℕ → Text) (revision : Option Text) (s : Repository) (oid : Text) (r : Resolution)
    → NamesObject s revision oid
    → Resolves decode s.objects oid r
    → Answers decode revision s r
unfolding Answers Resolves Fails
named-Answers decode revision s oid (ok none) n h = let bad = h in cc
named-Answers decode revision s oid (ok (some x)) n h = (oid, n, h)
named-Answers decode revision s oid (err out_of_fuel) n h = h
named-Answers decode revision s oid (err (thrown file_not_found)) n h = h
named-Answers decode revision s oid (err (thrown corrupt)) n h = (oid, n, h)
named-Answers decode revision s oid (err (thrown wrong_object_type)) n h = (oid, n, h)
named-Answers decode revision s oid (err (thrown revision_not_found)) n h = inr (oid, n, h)

-- What `start_of` finds is what the revision names.
Starts : Option Text → Repository → Start → Type 0
Starts revision s unborn = IsUnborn s revision
Starts revision s unknown = IsUnknown s revision
Starts revision s (at_object oid) = NamesObject s revision oid

all_hex :
    (text : Text)
    → all is_lower_hex text ≡ true
    → All (λ (c : ℕ). ((48 ≤ c) × (c ≤ 57)) ⊎ ((97 ≤ c) × (c ≤ 102))) text
all_hex [] h = tt
all_hex (c ∷ text) h = (ground (arith, h), all_hex text (ground (arith, h)))

hex_all :
    (text : Text)
    → All (λ (c : ℕ). ((48 ≤ c) × (c ≤ 57)) ⊎ ((97 ≤ c) × (c ≤ 102))) text
    → all is_lower_hex text ≡ true
hex_all [] h = refl
hex_all (c ∷ text) (inl d, h) = let k = hex_all text h in ground arith
hex_all (c ∷ text) (inr d, h) = let k = hex_all text h in ground arith

full_of : (revision : Text) → is_object_id revision ≡ true → IsFullId revision
full_of revision h = (ground (arith, h), all_hex revision (ground (arith, h)))

not_full : (revision : Text) → is_object_id revision ≡ false → ¬ IsFullId revision
not_full revision h (long, digits) = let k = hex_all revision digits in ground (arith, h, k)

head-Starts :
    (s : Repository) (head : Option Head)
    → head_of s ≡ head
    → Starts none s (head_start s.refs head)
unfolding Starts
head-Starts s none e = (unnamed, unheaded)
  where
    unnamed : (oid : Text) → ¬ NamesObject s none oid
    unnamed oid (head_object _ f) = let bad = sym e ∙ f in cc
    unnamed oid (head_branch name _ f g) = let bad = sym e ∙ f in cc

    unheaded : ¬ IsUnborn s none
    unheaded (no_branch name f g) = let bad = sym e ∙ f in cc
head-Starts s (some (detached oid)) e = head_object oid e
head-Starts s (some (symbolic name)) e = elim (Option-cases (lookup name s.refs)) [
  | inl gone ↦ rw gone (no_branch name e gone)
  | inr (oid, there) ↦ rw there (head_branch name oid e there)
]

name-Starts :
    (revision : Text) (s : Repository) → Starts (some revision) s (start_of (some revision) s)
unfolding start_of Starts
name-Starts revision s = elim (Bool-cases (is_object_id revision)) [
  | inl id ↦ rw (start_of, id) (full_id revision (full_of revision id))
  | inr name ↦
      let other = not_full revision name in
      elim (Option-cases (lookup (codes "refs/heads/" ++ revision) s.refs)) [
        | inr (oid, there) ↦ rw (start_of, name, there) (branch_name revision oid other there)
        | inl gone ↦ elim (Option-cases (lookup (codes "refs/tags/" ++ revision) s.refs)) [
          | inr (oid, there) ↦
              rw (start_of, name, gone, there) (tag_name revision oid other gone there)
          | inl neither ↦
              rw (start_of, name, gone, neither)
                (λ oid n. unnamed other gone neither oid n, unheaded)
        ]
      ]
]
  where
    unnamed :
        ¬ IsFullId revision
        → lookup (codes "refs/heads/" ++ revision) s.refs ≡ none
        → lookup (codes "refs/tags/" ++ revision) s.refs ≡ none
        → (oid : Text) → ¬ NamesObject s (some revision) oid
    unnamed other gone neither oid (full_id _ f) = other f
    unnamed other gone neither oid (branch_name _ _ f there) = let bad = sym gone ∙ there in cc
    unnamed other gone neither oid (tag_name _ _ f g there) = let bad = sym neither ∙ there in cc

    unheaded : ¬ IsUnborn s (some revision)
    unheaded u = elim u [ ]

start_of-Starts :
    (revision : Option Text) (s : Repository) → Starts revision s (start_of revision s)
unfolding start_of
start_of-Starts none s = head-Starts s (head_of s) refl
start_of-Starts (some revision) s = name-Starts revision s

-- Where the fuel is more than the number of stored tags, `#resolveCommit` ends, even where tags lead in a
-- circle. It answers with no commit only where no revision is given and HEAD is on a branch that is not
-- there yet, and a commit that it answers with is stored as one and is what the named object leads to over
-- the first targets of its tags: HEAD's object, the object with the revision as its id, that of the branch
-- of this name, or that of the tag where there is no such branch. Where it says that the revision is not
-- found, nothing is named by it, and HEAD is on no missing branch, or an object that the tags lead to is not
-- stored; where the type is wrong, the tags lead to a stored tree or blob; and where it says that the
-- repository is corrupt, they lead to a tag that can not be parsed, has no target, or leads back to itself.
pub resolve_commit-Answers :
    (decode : List ℕ → Text) (universe : List Text) (fuel : ℕ) (revision : Option Text)
    (s : Repository)
    → HasTags decode s.objects universe
    → length universe < fuel
    → Answers decode revision s (resolve_commit decode fuel revision s)
unfolding resolve_commit resolve_start Answers Starts
resolve_commit-Answers decode universe fuel revision s tags enough =
    by (start_of revision s) (start_of-Starts revision s)
  where
    by :
        (start : Start)
        → Starts revision s start
        → Answers decode revision s (resolve_start decode s.objects fuel start)
    by unborn h = h
    by unknown h = inl h
    by (at_object oid) h =
        named-Answers decode revision s oid (resolve_loop decode s.objects fuel [] oid) h (
          resolve_loop-Resolves decode s.objects universe fuel [] oid tags
            (λ x m. absurd (none_in x m)) (omega (arith, weigh_most universe [], enough)))
