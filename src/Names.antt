-- ===== src/Names.antt =====
-- apps/api/src/contracts.ts: which namespace slugs, repository names and branch names are taken.
mod Examples
pub mod Refs
use open_relic.Prelude.{
  ℕ, List, [], ◌∷◌, Bool, true, false, ◌&&◌, ◌||◌, not, all, any, length, ltb, leb, ◌==◌,
  if◌then◌else◌, Option, none, some,
}
use open_relic.Prelude.Codes.{Text, codes, starts_with}
use open_relic.Prelude.Strings.{ends_with, includes, split, member}

abbrev pub is_digit : ℕ → Bool
is_digit c = leb 48 c && leb c 57

abbrev pub is_lower : ℕ → Bool
is_lower c = leb 97 c && leb c 122

abbrev pub is_upper : ℕ → Bool
is_upper c = leb 65 c && leb c 90

-- `[a-z0-9]`.
abbrev pub is_lower_alnum : ℕ → Bool
is_lower_alnum c = is_lower c || is_digit c

-- What follows the first character in `^[a-z0-9](?:[...]*[a-z0-9])?$`: nothing, or any characters of
-- the class `inside` and then one of `[a-z0-9]`.
unfoldable pub ends_alnum : (ℕ → Bool) → Text → Bool
ends_alnum inside [] = true
ends_alnum inside (c ∷ []) = is_lower_alnum c
ends_alnum inside (c ∷ d ∷ text) = inside c && ends_alnum inside (d ∷ text)

unfoldable pub matches_name : (ℕ → Bool) → Text → Bool
matches_name inside [] = false
matches_name inside (c ∷ text) = is_lower_alnum c && ends_alnum inside text

abbrev pub namespace_slug_max_length : ℕ
namespace_slug_max_length = 39

-- `NAMESPACE_SLUG_PATTERN`.
abbrev pub namespace_slug_pattern : Text → Bool
namespace_slug_pattern = matches_name (λ c. is_lower_alnum c || c == 45)

abbrev pub reserved_namespace_slugs : List Text
reserved_namespace_slugs =
    codes "api" ∷ codes "git" ∷ codes "healthz" ∷ codes "static" ∷ codes "well-known" ∷ []

pub data NamespaceSlugViolation : Type 0 where
  slug_empty slug_malformed slug_reserved slug_too_long : NamespaceSlugViolation

unfoldable pub validate_namespace_slug : Text → Option NamespaceSlugViolation
validate_namespace_slug slug =
    if length slug == 0
    then some slug_empty
    else if ltb namespace_slug_max_length (length slug)
    then some slug_too_long
    else if not (namespace_slug_pattern slug)
    then some slug_malformed
    else if member slug reserved_namespace_slugs
    then some slug_reserved
    else none

abbrev pub repository_name_max_length : ℕ
repository_name_max_length = 100

-- `REPOSITORY_NAME_PATTERN`.
abbrev pub repository_name_pattern : Text → Bool
repository_name_pattern = matches_name (λ c. is_lower_alnum c || c == 46 || c == 95 || c == 45)

pub data RepositoryNameViolation : Type 0 where
  repository_empty git_suffix repository_malformed repository_too_long : RepositoryNameViolation

unfoldable pub validate_repository_name : Text → Option RepositoryNameViolation
validate_repository_name name =
    if length name == 0
    then some repository_empty
    else if ltb repository_name_max_length (length name)
    then some repository_too_long
    else if not (repository_name_pattern name)
    then some repository_malformed
    else if ends_with name (codes ".git")
    then some git_suffix
    else none

abbrev pub branch_name_max_length : ℕ
branch_name_max_length = 255

pub data BranchNameViolation : Type 0 where
  branch_empty branch_malformed branch_too_long : BranchNameViolation

-- `[A-Za-z0-9]`.
abbrev pub is_alnum : ℕ → Bool
is_alnum c = is_upper c || is_lower_alnum c

-- `[A-Za-z0-9._/-]`.
abbrev pub is_branch_code : ℕ → Bool
is_branch_code c = is_alnum c || c == 46 || c == 95 || c == 47 || c == 45

-- `/^[A-Za-z0-9][A-Za-z0-9._/-]*$/`.
unfoldable pub branch_alphabet : Text → Bool
branch_alphabet [] = false
branch_alphabet (c ∷ text) = is_alnum c && all is_branch_code text

-- The test that a component between slashes fails.
unfoldable pub bad_component : Text → Bool
bad_component component =
    length component == 0
    || starts_with component (codes ".")
    || ends_with component (codes ".lock")

unfoldable pub validate_branch_name : Text → Option BranchNameViolation
validate_branch_name name =
    if length name == 0
    then some branch_empty
    else if ltb branch_name_max_length (length name)
    then some branch_too_long
    else if not (branch_alphabet name)
    then some branch_malformed
    else if includes name (codes "..") || ends_with name (codes ".")
    then some branch_malformed
    else if any bad_component (split 47 name)
    then some branch_malformed
    else none
