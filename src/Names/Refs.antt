-- ===== src/Names/Refs.antt =====
-- The branch names that are taken keep to the rules of `git check-ref-format`.
use open_relic.Prelude.{
  ℕ, ◌+◌, ◌-◌, ◌≤◌, ◌<◌, ◌≡◌, ◌≢◌, refl, sym, ap, ◌∙◌, List, [], ◌∷◌, ◌++◌, Bool, true, false, not,
  all, any, ◌||◌, length, drop-append, leb, ◌==◌, none, arith, append_assoc, length-append,
  Bool-cases, inl, inr,
}
use open_relic.Prelude.Codes.{Text, codes, starts_with, text_eq_iff}
use open_relic.Prelude.Strings.{ends_with, includes, split, in_front, split-cons, split-append}
use open_relic.Names.{validate_branch_name, branch_alphabet, bad_component, is_branch_code}

-- The characters that Git refuses: below the space, the space, DEL, and `~ ^ : ? * [` with the backslash.
pub data IsForbidden : ℕ → Type 0 where
  control : (c : ℕ) → c < 32 → IsForbidden c
  space : IsForbidden 32
  delete : IsForbidden 127
  tilde : IsForbidden 126
  caret : IsForbidden 94
  colon : IsForbidden 58
  question : IsForbidden 63
  star : IsForbidden 42
  bracket : IsForbidden 91
  backslash : IsForbidden 92

-- Git's rules, by what no taken name is put together from.
pub record IsRefFormat (name : Text) : Type 0 where
  pub no_range : (a b : Text) → name ≢ a ++ (codes ".." ++ b)
  pub no_brace : (a b : Text) → name ≢ a ++ (codes "@{" ++ b)
  pub no_last_dot : (a : Text) → name ≢ a ++ codes "."
  pub no_first_dot : (b : Text) → name ≢ codes "." ++ b
  pub no_hidden_part : (a b : Text) → name ≢ a ++ (codes "/." ++ b)
  pub no_lock : (a : Text) → name ≢ a ++ codes ".lock"
  pub no_lock_part : (a b : Text) → name ≢ a ++ (codes ".lock/" ++ b)
  pub no_first_slash : (b : Text) → name ≢ codes "/" ++ b
  pub no_last_slash : (a : Text) → name ≢ a ++ codes "/"
  pub no_double_slash : (a b : Text) → name ≢ a ++ (codes "//" ++ b)
  pub no_forbidden : (a b : Text) (c : ℕ) → IsForbidden c → name ≢ a ++ (c ∷ b)

starts_with-append : (part b : Text) → starts_with (part ++ b) part ≡ true
starts_with-append [] b = refl
starts_with-append (c ∷ part) b = ground (arith, starts_with-append part b)

includes-append : (a part b : Text) → includes (a ++ (part ++ b)) part ≡ true
unfolding includes
includes-append [] [] [] = refl
includes-append [] [] (c ∷ b) = refl
includes-append [] (c ∷ part) b = ground (arith, starts_with-append (c ∷ part) b)
includes-append (c ∷ a) part b = ground (arith, includes-append a part b)

ends_with-append : (a suffix : Text) → ends_with (a ++ suffix) suffix ≡ true
unfolding ends_with
ends_with-append a suffix =
    let total = length-append a suffix in
    let start : length a + length suffix - length suffix ≡ length a = omega arith in
    let enough : leb (length suffix) (length a + length suffix) ≡ true = ground arith in
    rw (total, enough, start, drop-append a suffix) ((text_eq_iff suffix suffix).1 refl)

any-append :
    {A : Type 0} (p : A → Bool) (xs ys : List A) → any p (xs ++ ys) ≡ (any p xs || any p ys)
any-append p [] ys = refl
any-append p (x ∷ xs) ys = ground (arith, any-append p xs ys)

forbidden_code : (c : ℕ) → IsForbidden c → is_branch_code c ≡ false
forbidden_code c (control _ low) = ground arith
forbidden_code _ space = refl
forbidden_code _ delete = refl
forbidden_code _ tilde = refl
forbidden_code _ caret = refl
forbidden_code _ colon = refl
forbidden_code _ question = refl
forbidden_code _ star = refl
forbidden_code _ bracket = refl
forbidden_code _ backslash = refl

all-forbidden :
    (p : ℕ → Bool) (a : Text) (c : ℕ) (b : Text) → p c ≡ false → all p (a ++ (c ∷ b)) ≡ false
all-forbidden p [] c b h = rw h refl
all-forbidden p (x ∷ a) c b h = ground (arith, all-forbidden p a c b h)

-- A text has a bad component when one of its parts does.
has_bad : Text → Bool
has_bad text = any bad_component (split 47 text)

has_bad-append : (a b : Text) → has_bad (a ++ (47 ∷ b)) ≡ (has_bad a || has_bad b)
unfolding has_bad
has_bad-append a b = rw (split-append 47 a b) (any-append bad_component (split 47 a) (split 47 b))

has_bad_nil : has_bad [] ≡ true
unfolding has_bad split bad_component
has_bad_nil = refl

has_bad_slash : (b : Text) → has_bad (47 ∷ b) ≡ true
unfolding has_bad split bad_component
has_bad_slash b = refl

has_bad_dot : (b : Text) → has_bad (46 ∷ b) ≡ true
unfolding has_bad split bad_component
has_bad_dot b = let (h, t, e) = split-cons 47 b in rw e (ground arith)

last_locked :
    (a : Text)
    → (xs : List Text) × (l : Text) × (split 47 (a ++ codes ".lock")
        ≡ xs ++ ((l ++ codes ".lock") ∷ []))
unfolding split
last_locked [] = ([], [], refl)
last_locked (c ∷ a) =
    let (xs, l, e) = last_locked a in
    elim (Bool-cases (c == 47)) [
      | inl slash ↦ rw (slash, e) ([] ∷ xs, l, refl)
      | inr other ↦ rw (other, e) (prepended c xs l)
    ]
  where
    prepended :
        (c : ℕ) (xs : List Text) (l : Text)
        → (ys : List Text) × (m : Text) × (in_front c (xs ++ ((l ++ codes ".lock") ∷ []))
            ≡ ys ++ ((m ++ codes ".lock") ∷ []))
    prepended c [] l = ([], c ∷ l, refl)
    prepended c (x ∷ xs) l = ((c ∷ x) ∷ xs, l, refl)

has_bad_lock : (a : Text) → has_bad (a ++ codes ".lock") ≡ true
unfolding has_bad bad_component
has_bad_lock a =
    let (xs, l, e) = last_locked a in
    rw (e, any-append bad_component xs ((l ++ codes ".lock") ∷ []))
      (ground (arith, ends_with-append l (codes ".lock")))

alphabet_codes : (name : Text) → branch_alphabet name ≡ true → all is_branch_code name ≡ true
unfolding branch_alphabet
alphabet_codes [] h = refl
alphabet_codes (c ∷ name) h = ground (arith, h)

-- What the guards let through.
accepted :
    (name : Text)
    → validate_branch_name name ≡ none
    → (all is_branch_code name ≡ true)
      × (includes name (codes "..") ≡ false)
      × (ends_with name (codes ".") ≡ false)
      × (has_bad name ≡ false)
      × (0 < length name)
      × (length name ≤ 255)
unfolding validate_branch_name has_bad
accepted name h = ground (arith, alphabet_codes name)

pub taken_codes :
    (name : Text)
    → validate_branch_name name ≡ none
    → (all is_branch_code name ≡ true) × (0 < length name)
taken_codes name h =
    let (alphabet, _, _, _, some_code, _) = accepted name h in (alphabet, some_code)

middle_bad : (a b : Text) → has_bad b ≡ true → has_bad (a ++ (47 ∷ b)) ≡ true
middle_bad a b h = rw (has_bad-append a b, h) (ground arith)

lock_part_bad : (a b : Text) → has_bad (a ++ (codes ".lock/" ++ b)) ≡ true
lock_part_bad a b =
    let e = append_assoc a (codes ".lock") (47 ∷ b) in
    sym (ap has_bad e) ∙ rw (has_bad-append (a ++ codes ".lock") b, has_bad_lock a) refl

-- A branch name that is taken has at least one character and at most 255, and keeps to every rule
-- that `git check-ref-format` has for a name: the ranges, braces, dots, `.lock` endings, slashes and
-- characters that Git refuses (a control character, a space, DEL, `~ ^ : ? * [` or a backslash) do not
-- occur in it.
pub validate_branch_name-IsRefFormat :
    (name : Text)
    → validate_branch_name name ≡ none
    → (0 < length name) × (length name ≤ 255) × IsRefFormat name
validate_branch_name-IsRefFormat name h =
    let (alphabet, range, dot, parts, some_code, short) = accepted name h in
    (
      some_code,
      short,
      record {
        no_range = λ a b e.
            contradiction (λ x. includes x (codes "..")) e range (includes-append a (codes "..") b);
        no_brace = λ a b e.
            contradiction (λ x. not (all is_branch_code x)) e (ap not alphabet)
              (ap not (all-forbidden is_branch_code a 64 (123 ∷ b) refl));
        no_last_dot = λ a e.
            contradiction (λ x. ends_with x (codes ".")) e dot (ends_with-append a (codes "."));
        no_first_dot = λ b e. contradiction has_bad e parts (has_bad_dot b);
        no_hidden_part =
            λ a b e. contradiction has_bad e parts (middle_bad a (46 ∷ b) (has_bad_dot b));
        no_lock = λ a e. contradiction has_bad e parts (has_bad_lock a);
        no_lock_part = λ a b e. contradiction has_bad e parts (lock_part_bad a b);
        no_first_slash = λ b e. contradiction has_bad e parts (has_bad_slash b);
        no_last_slash = λ a e. contradiction has_bad e parts (middle_bad a [] has_bad_nil);
        no_double_slash =
            λ a b e. contradiction has_bad e parts (middle_bad a (47 ∷ b) (has_bad_slash b));
        no_forbidden = λ a b c bad e.
            contradiction (λ x. not (all is_branch_code x)) e (ap not alphabet)
              (ap not (all-forbidden is_branch_code a c b (forbidden_code c bad)));
      },
    )
  where
    contradiction :
        {name other : Text} (test : Text → Bool)
        → name ≡ other
        → test name ≡ false
        → test other ≢ true
    contradiction test e fails holds = ground (arith, ap test e)
