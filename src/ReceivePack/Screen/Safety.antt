-- ===== src/ReceivePack/Screen/Safety.antt =====
-- Which commands of a push pass the screening.
use open_relic.Prelude.{
  ◌≡◌, ◌≢◌, ◌↔◌, refl, ap, List, [], ◌∷◌, ◌++◌, true, false, length, get_elem?, All, Option, none,
  some, arith, Bool-cases, inl, inr,
}
use open_relic.Prelude.Codes.{Text, text_eq_iff}
use open_relic.Prelude.Strings.{member}
use open_relic.Prelude.Maps.{Map, lookup}
use open_relic.GitObject.{zero_oid}
use open_relic.ReceivePack.{ReceivePackCommand, is_create, is_delete}
use open_relic.ReceivePack.Screen.{
  Rejection, is_ref_name, screen_held, screen_loop, screen_commands,
}

-- The ref is as the client believes: a create finds no ref, and any other command finds its old
-- value. A command whose two values are both the zero id deletes.
pub record Expects (command : ReceivePackCommand) (held : Option Text) : Type 0 where
  pub created : command.new_oid ≢ zero_oid → command.old_oid ≡ zero_oid → held ≡ none
  pub changed : command.old_oid ≢ zero_oid → held ≡ some command.old_oid
  pub deleted : command.new_oid ≡ zero_oid → held ≡ some command.old_oid

pub screen_held_iff :
    (c : ReceivePackCommand) (held : Option Text) → (screen_held c held ≡ none) ↔ Expects c held
unfolding screen_held is_create is_delete
screen_held_iff c none =
    ground (arith, text_eq_iff c.new_oid zero_oid, text_eq_iff c.old_oid zero_oid)
screen_held_iff c (some held) = ground (
  arith,
  text_eq_iff c.new_oid zero_oid,
  text_eq_iff c.old_oid zero_oid,
  text_eq_iff held c.old_oid,
)

-- What a command in the midst of the loop passes by; `seen` are the names up to some place before it.
record Passes (seen : List Text) (before : List ReceivePackCommand) (c : ReceivePackCommand)
    (refs : Map Text) : Type 0 where
  pub named : is_ref_name c.name ≡ true
  pub unseen : member c.name seen ≡ false
  pub first : All (λ (d : ReceivePackCommand). d.name ≢ c.name) before
  pub current : Expects c (lookup c.name refs)

slot :
    List Text
    → List ReceivePackCommand
    → ReceivePackCommand
    → List ReceivePackCommand
    → Map Text
    → Option (Option Rejection)
slot seen before c after refs =
    get_elem? (screen_loop seen (before ++ (c ∷ after)) refs) (length before)

grown_iff :
    (name other : Text) (seen : List Text)
    → (member name (other ∷ seen) ≡ false) ↔ ((other ≢ name) × (member name seen ≡ false))
unfolding member
grown_iff name other seen = ground (arith, text_eq_iff other name)

grown_by :
    {X : Type 0} (seen grown : List Text) (d : ReceivePackCommand)
    (before : List ReceivePackCommand) (c : ReceivePackCommand) (refs : Map Text)
    → X ↔ Passes grown before c refs
    → (is_ref_name c.name ≡ true
        → member c.name grown ≡ false
        → (d.name ≢ c.name) × (member c.name seen ≡ false))
    → (d.name ≢ c.name → member c.name seen ≡ false → member c.name grown ≡ false)
    → X ↔ Passes seen (d ∷ before) c refs
grown_by seen grown d before c refs e back forth = (
  λ x.
      let p = e.0 x in
      record {
        named = p.named;
        unseen = (back p.named p.unseen).1;
        first = ((back p.named p.unseen).0, p.first);
        current = p.current;
      },
  λ p. e.1 (record {
    named = p.named;
    unseen = forth p.first.0 p.unseen;
    first = p.first.1;
    current = p.current;
  }),
)

slot_iff :
    (seen : List Text) (before : List ReceivePackCommand) (c : ReceivePackCommand)
    (after : List ReceivePackCommand) (refs : Map Text)
    → (slot seen before c after refs ≡ some none) ↔ Passes seen before c refs
unfolding slot screen_loop
slot_iff seen [] c after refs = elim (Bool-cases (is_ref_name c.name)) [
  | inl named ↦ elim (Bool-cases (member c.name seen)) [
    | inl dup ↦ rw (named, dup) (ground arith)
    | inr fresh ↦ rw (named, fresh) (ground (arith, screen_held_iff c (lookup c.name refs)))
  ]
  | inr bad ↦ rw bad (ground arith)
]
slot_iff seen (d ∷ before) c after refs = elim (Bool-cases (is_ref_name d.name)) [
  | inl named ↦ elim (Bool-cases (member d.name seen)) [
    | inl dup ↦
        rw (named, dup)
          (grown_by seen seen d before c refs (slot_iff seen before c after refs)
            (λ _ p. (λ e. ground (arith, ap (λ n. member n seen) e), p)) (λ _ p. p))
    | inr fresh ↦
        rw (named, fresh)
          (grown_by seen (d.name ∷ seen) d before c refs
            (slot_iff (d.name ∷ seen) before c after refs)
            (λ _ p. (grown_iff c.name d.name seen).0 p)
            (λ n p. (grown_iff c.name d.name seen).1 (n, p)))
  ]
  | inr bad ↦ rw bad (
      grown_by seen seen d before c refs (slot_iff seen before c after refs)
        (λ n p. (λ e. ground (arith, ap is_ref_name e), p)) (λ _ p. p))
]

-- A command of a push passes the screening exactly when its name is a valid ref name, no earlier
-- command of the push has that name, and the ref is as the command expects: it is missing for a
-- create, and holds the old value for an update and for a delete.
pub screen_commands-Passes_iff :
    (before : List ReceivePackCommand) (c : ReceivePackCommand) (after : List ReceivePackCommand)
    (refs : Map Text)
    → (get_elem? (screen_commands (before ++ (c ∷ after)) refs) (length before) ≡ some none) ↔ (
        (is_ref_name c.name ≡ true)
        × All (λ (d : ReceivePackCommand). d.name ≢ c.name) before
        × Expects c (lookup c.name refs))
unfolding screen_commands slot member
screen_commands-Passes_iff before c after refs =
    let (there, back) = slot_iff [] before c after refs in
    (
      λ e. let p = there e in (p.named, p.first, p.current),
      λ (named, first, current).
          back (record { named = named; unseen = refl; first = first; current = current }),
    )
