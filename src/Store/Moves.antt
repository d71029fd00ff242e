-- ===== src/Store/Moves.antt =====
-- How a push moves refs: each as one of its commands says, from the value that the command expects.
use open_relic.Prelude.{
  ℕ, ◌≡◌, refl, sym, ap, ◌∙◌, List, [], ◌∷◌, true, false, ◌&&◌, not, any, Option, none, some,
  Result, ok, err, Stop, thrown, out_of_fuel, if◌then◌else◌, Bool-cases, Result-cases, ◌⊎◌, inl,
  inr, All,
}
use mathlib.Core.Path.{subst}
use mathlib.Core.List.{Memᴰ}
use open_relic.Prelude.Codes.{Text, text_eq, text_eq_iff}
use open_relic.Prelude.Strings.{member}
use open_relic.Prelude.Maps.{Map, lookup, insert, without, lookup-insert, lookup-without}
use open_relic.Connectivity.Walk.{ObjectSource, find_missing_object}
use open_relic.PktLine.{PktLineReader, rest}
use open_relic.ReceivePack.{ReceivePackCommand, ReceivePackRequest, is_delete}
use open_relic.ReceivePack.Request.{RequestError}
use open_relic.ReceivePack.Screen.{
  Rejection, funny_refname, duplicate, screen_commands, screen_loop, screen_held, is_ref_name,
}
use open_relic.ReceivePack.Screen.Safety.{Expects, screen_held_iff}
use open_relic.Store.{Repository, values, apply_commands, apply_updates}
use open_relic.Store.Push.{
  Unpack, Unpacked, complete, broken, refused, PushError, Verdicts, add_verdict, updates_of,
  has_rejection, read_request, refuse, verify_all, conclude, unpacked, receive_request, received,
  receive_pack, atomic_capability, missing_objects, missing_message, reason_of, error_capabilities,
}
use open_relic.Store.Invariant.{added, answer_state, conclude_state}

-- The value that a command leaves.
abbrev pub target : ReceivePackCommand → Option Text
target c = if is_delete c then none else some c.new_oid

-- A ref between two states: as it was, or moved as one of the commands says, which expected its value.
abbrev pub IsMove : List ReceivePackCommand → Text → Option Text → Option Text → Type 0
IsMove commands name old new =
    (new ≡ old)
    ⊎ ((c : ReceivePackCommand) × Memᴰ c commands
        × (c.name ≡ name)
        × Expects c old
        × (new ≡ target c))

Expected : Map Text → List ReceivePackCommand → Type 0
Expected refs = All (λ (c : ReceivePackCommand). Expects c (lookup c.name refs))

apply_one : ReceivePackCommand → Map Text → Map Text
apply_one c refs = if is_delete c then without c.name refs else insert c.name c.new_oid refs

lookup-apply_one :
    (c : ReceivePackCommand) (refs : Map Text) (name : Text)
    → lookup name (apply_one c refs) ≡ (if text_eq c.name name then target c else lookup name refs)
unfolding apply_one
lookup-apply_one c refs name = elim (Bool-cases (is_delete c)) [
  | inl deleted ↦ rw (deleted) (lookup-without c.name name refs)
  | inr moved ↦ rw (moved) (lookup-insert c.name name c.new_oid refs)
]

apply_commands-cons :
    (c : ReceivePackCommand) (updates : List ReceivePackCommand) (refs : Map Text)
    → apply_commands (c ∷ updates) refs ≡ apply_commands updates (apply_one c refs)
unfolding apply_commands apply_one
apply_commands-cons c updates refs = elim (Bool-cases (is_delete c)) [
  | inl deleted ↦ rw (apply_commands, deleted) refl
  | inr moved ↦ rw (apply_commands, moved) refl
]

apply_commands-IsMove :
    (updates : List ReceivePackCommand) (held refs : Map Text) (name : Text)
    → Expected held updates
    → IsMove updates name (lookup name held) (lookup name (apply_commands updates refs))
      ⊎ (lookup name (apply_commands updates refs) ≡ lookup name refs)
unfolding apply_commands Expected
apply_commands-IsMove [] held refs name h = inr refl
apply_commands-IsMove (c ∷ updates) held refs name (x, h) =
    let step = apply_commands-cons c updates refs in
    elim (apply_commands-IsMove updates held (apply_one c refs) name h) [
      | inl m ↦ inl (
          subst (λ r. IsMove (c ∷ updates) name (lookup name held) (lookup name r)) (sym step)
            (later m))
      | inr same ↦
          let e = ap (lookup name) step ∙ same ∙ lookup-apply_one c refs name in
          elim (Bool-cases (text_eq c.name name)) [
            | inl own ↦
                let k = (text_eq_iff c.name name).0 own in
                inl (
                  inr
                    (c, Memᴰ.head refl, k, subst (λ n. Expects c (lookup n held)) k x, rw own at e))
            | inr other ↦ inr (rw other at e)
          ]
    ]
  where
    later :
        IsMove updates name
          (lookup name held)
          (lookup name (apply_commands updates (apply_one c refs)))
        → IsMove
            (c ∷ updates)
            name
            (lookup name held)
            (lookup name (apply_commands updates (apply_one c refs)))
    later (inl e) = inl e
    later (inr (d, m, n, x, e)) = inr (d, Memᴰ.tail m, n, x, e)

-- What a push does to the refs: every ref stays or is moved by a command, and all of them at once
-- where the push is atomic.
abbrev pub Outcome : List ReceivePackCommand → List Text → Map Text → Map Text → Type 0
Outcome commands capabilities old new =
    ((name : Text) → IsMove commands name (lookup name old) (lookup name new))
    × (member atomic_capability capabilities ≡ true
        → (new ≡ old) ⊎ (new ≡ apply_commands commands old))

-- The request that was read, or an empty one where the reading failed.
abbrev pub request_of : Result (Stop RequestError) ReceivePackRequest → ReceivePackRequest
request_of (ok request) = request
request_of (err e) = record { commands = []; capabilities = [] }

module _ (decode : List ℕ → Text) (encode : Text → List ℕ) (unpack : Unpack)
    (error_message : RequestError → Text) (fuel : ℕ) where
  abbrev verify :
      ObjectSource
      → List Text
      → List Text
      → List ReceivePackCommand
      → List (Option Rejection)
      → List Text
      → Result (Stop PushError) Verdicts
  verify = verify_all decode encode unpack error_message fuel

  -- A command's part of the verdicts: its reason, and those of the commands behind it.
  verify_cons :
      (source : ObjectSource) (shallow verified : List Text) (c : ReceivePackCommand)
      (commands : List ReceivePackCommand) (slot : Option Rejection)
      (screened : List (Option Rejection)) (visited : List Text) (v : Verdicts)
      → verify source shallow verified (c ∷ commands) (slot ∷ screened) visited ≡ ok v
      → (visited' : List Text) × (w : Verdicts) × (reason : Option Text) × (verify source shallow
            verified commands screened visited'
          ≡ ok w)
        × (v.reasons ≡ reason ∷ w.reasons)
        × (reason ≡ none → slot ≡ none)
  unfolding verify_all
  verify_cons source shallow verified c commands (some rejection) screened visited v e =
      let (w, f, same) =
        added (some (reason_of rejection)) []
          (verify source shallow verified commands screened visited) v e in
      (visited, w, some (reason_of rejection), f, same, λ bad. cc)
  verify_cons source shallow verified c commands none screened visited v e =
      elim (Bool-cases (is_delete c)) [
        | inl deleted ↦
            let (w, f, same) =
              added none [] (verify source shallow verified commands screened visited) v
                (rw (verify_all, deleted) at e) in
            (visited, w, none, f, same, λ k. refl)
        | inr moved ↦
            elim (Result-cases
              (find_missing_object decode source shallow verified visited fuel c.new_oid)) [
                | inl (visited', found) ↦
                    let (w, f, same) =
                      added none [] (verify source shallow verified commands screened visited') v
                        (rw (verify_all, moved, found) at e) in
                    (visited', w, none, f, same, λ k. refl)
                | inr (stop, found) ↦ stopped stop (rw (verify_all, moved, found) at e)
              ]
      ]
    where
      stopped :
          (stop : Stop Text)
          → (elim stop as (λ _. Result (Stop PushError) Verdicts) [
            | out_of_fuel ↦ err out_of_fuel
            | thrown oid ↦
                add_verdict
                  (some missing_objects)
                  (missing_message c.name oid ∷ [])
                  (verify source shallow verified commands screened visited)
          ])
            ≡ ok v
          → (visited' : List Text) × (w : Verdicts) × (reason : Option Text) × (verify source
                shallow verified commands screened visited'
              ≡ ok w)
            × (v.reasons ≡ reason ∷ w.reasons)
            × (reason ≡ none → ◌≡◌ {A = Option Rejection} none none)
      stopped out_of_fuel f = let bad = f in cc
      stopped (thrown oid) f =
          let (w, g, same) =
            added (some missing_objects) (missing_message c.name oid ∷ [])
              (verify source shallow verified commands screened visited) v f in
          (visited, w, some missing_objects, g, same, λ k. refl)

  -- The updates of the verdicts behind the screening are commands, and the refs are as they expect.
  abbrev Screened : Map Text → List ReceivePackCommand → List (Option Text) → Type 0
  Screened refs commands reasons =
      Expected refs (updates_of commands reasons)
      × All (λ (c : ReceivePackCommand). Memᴰ c commands) (updates_of commands reasons)
      × (has_rejection reasons ≡ false → updates_of commands reasons ≡ commands)

  All-tail :
      (c : ReceivePackCommand) (commands updates : List ReceivePackCommand)
      → All (λ (d : ReceivePackCommand). Memᴰ d commands) updates
      → All (λ (d : ReceivePackCommand). Memᴰ d (c ∷ commands)) updates
  All-tail c commands [] h = tt
  All-tail c commands (u ∷ updates) (m, h) = (Memᴰ.tail m, All-tail c commands updates h)

  reason-Screened :
      (refs : Map Text) (c : ReceivePackCommand) (commands : List ReceivePackCommand)
      (reason : Option Text) (reasons : List (Option Text))
      → (reason ≡ none → Expects c (lookup c.name refs))
      → Screened refs commands reasons
      → Screened refs (c ∷ commands) (reason ∷ reasons)
  unfolding updates_of has_rejection Expected
  reason-Screened refs c commands none reasons x (h, m, all) = (
    (x refl, h),
    (Memᴰ.head refl, All-tail c commands (updates_of commands reasons) m),
    λ k. ap (λ us. c ∷ us) (all k),
  )
  reason-Screened refs c commands (some reason) reasons x (h, m, all) =
      (h, All-tail c commands (updates_of commands reasons) m, λ k. let bad = k in cc)

  nil-Screened : (refs : Map Text) (reasons : List (Option Text)) → Screened refs [] reasons
  unfolding updates_of Expected
  nil-Screened refs reasons = (tt, tt, λ k. refl)

  verify_all-Screened :
      (source : ObjectSource) (shallow verified : List Text) (seen : List Text)
      (commands : List ReceivePackCommand) (refs : Map Text) (visited : List Text) (v : Verdicts)
      → verify source shallow verified commands (screen_loop seen commands refs) visited ≡ ok v
      → Screened refs commands v.reasons
  unfolding screen_loop
  verify_all-Screened source shallow verified seen [] refs visited v e = nil-Screened refs v.reasons
  verify_all-Screened source shallow verified seen (c ∷ commands) refs visited v e =
      let recur = λ (seen' : List Text) (visited' : List Text) (w : Verdicts).
        verify_all-Screened source shallow verified seen' commands refs visited' w in
      elim (Bool-cases (is_ref_name c.name)) [
        | inr bad ↦ slot_at recur seen (some funny_refname) (λ k. cc) (rw (screen_loop, bad) at e)
        | inl named ↦ elim (Bool-cases (member c.name seen)) [
          | inl dup ↦
              slot_at recur seen (some duplicate) (λ k. cc) (rw (screen_loop, named, dup) at e)
          | inr new ↦
              slot_at recur (c.name ∷ seen) (screen_held c (lookup c.name refs))
                (λ k. (screen_held_iff c (lookup c.name refs)).0 k)
                (rw (screen_loop, named, new) at e)
        ]
      ]
    where
      slot_at :
          ((seen' visited' : List Text) (w : Verdicts)
            → verify source shallow verified commands (screen_loop seen' commands refs) visited'
              ≡ ok w
            → Screened refs commands w.reasons)
          → (seen' : List Text) (slot : Option Rejection)
          → (slot ≡ none → Expects c (lookup c.name refs))
          → verify source shallow verified
              (c ∷ commands)
              (slot ∷ screen_loop seen' commands refs)
              visited
            ≡ ok v
          → Screened refs (c ∷ commands) v.reasons
      slot_at recur seen' slot x f =
          let (visited', w, reason, g, same, back) =
            verify_cons source shallow verified c commands slot (screen_loop seen' commands refs)
              visited v f in
          subst (Screened refs (c ∷ commands)) (sym same) (
            reason-Screened refs c commands reason w.reasons (λ k. x (back k))
              (recur seen' visited' w g))

  among :
      (c : ReceivePackCommand) (commands updates : List ReceivePackCommand)
      → All (λ (d : ReceivePackCommand). Memᴰ d commands) updates
      → Memᴰ c updates
      → Memᴰ c commands
  among c commands [] h k = elim k [ ]
  among c commands (u ∷ updates) (m, h) (Memᴰ.head e) = subst (λ d. Memᴰ d commands) (sym e) m
  among c commands (u ∷ updates) (m, h) (Memᴰ.tail k) = among c commands updates h k

  unmoved :
      (commands : List ReceivePackCommand) (capabilities : List Text) (refs : Map Text)
      → Outcome commands capabilities refs refs
  unmoved commands capabilities refs = (λ name. inl refl, λ k. inl refl)

  conclude-Outcome :
      (commands : List ReceivePackCommand) (capabilities : List Text) (s : Repository)
      (r : Result (Stop PushError) Verdicts)
      → ((v : Verdicts) → r ≡ ok v → Screened s.refs commands v.reasons)
      → Outcome commands capabilities s.refs
          (conclude decode encode unpack error_message fuel commands capabilities s r).0.refs
  unfolding conclude apply_updates
  conclude-Outcome commands capabilities s (err e) k = unmoved commands capabilities s.refs
  conclude-Outcome commands capabilities s (ok v) k =
      let (expected, members, all) = k v refl in
      let updates = updates_of commands v.reasons in
      let held = has_rejection v.reasons in
      let same_state = λ (t : Repository) (e : t ≡ s).
        subst (λ (u : Repository). Outcome commands capabilities s.refs u.refs) (sym e)
          (unmoved commands capabilities s.refs) in
      elim (Bool-cases (member atomic_capability capabilities && held)) [
        | inl nothing ↦
            rw (conclude, nothing)
              (same_state _
                (answer_state decode encode unpack error_message fuel _ capabilities false none s))
        | inr going ↦
            elim (conclude_state decode encode unpack error_message fuel commands capabilities s
              v) [
                | inl same ↦ same_state _ same
                | inr same ↦
                    subst (λ (u : Repository). Outcome commands capabilities s.refs u.refs)
                      (sym same)
                      (
                        λ name. elim (apply_commands-IsMove updates s.refs s.refs name expected) [
                          | inr e ↦ inl e
                          | inl m ↦ elim m [
                            | inl e ↦ inl e
                            | inr (c, mem, n, x, e) ↦
                                inr (c, among c commands updates members mem, n, x, e)
                          ]
                        ],
                        λ atomic.
                            inr (ap (λ us. apply_commands us s.refs) (all (rw atomic at going))),
                      )
              ]
      ]

  unpacked-Outcome :
      (request : ReceivePackRequest) (s : Repository) (p : ObjectSource × Unpacked)
      → Outcome request.commands request.capabilities s.refs
          (unpacked decode encode unpack error_message fuel request
            (screen_commands request.commands s.refs)
            s
            p).0.refs
  unfolding unpacked refuse screen_commands
  unpacked-Outcome request s (objects, broken) =
      unmoved request.commands request.capabilities s.refs
  unpacked-Outcome request s (objects, refused detail) =
      subst (λ (u : Repository). Outcome request.commands request.capabilities s.refs u.refs)
        (sym (
          answer_state decode encode unpack error_message fuel _ request.capabilities false none
            (record s { objects = objects })))
        (unmoved request.commands request.capabilities s.refs)
  unpacked-Outcome request s (objects, complete) =
      conclude-Outcome request.commands request.capabilities (record s { objects = objects })
        (verify objects s.shallow (values s.refs) request.commands
          (screen_loop [] request.commands s.refs) [])
        (λ v e.
          verify_all-Screened objects s.shallow (values s.refs) [] request.commands s.refs [] v e)

  -- Whatever a client sends and whatever its pack holds: after a push each ref is as it was, or one of
  -- the commands names it, expected the value that it had, and gave it the value that it has now. Where
  -- the push is atomic, either all of its commands were applied, in their order, or no ref has moved.
  pub receive_pack-Outcome :
      (body : List (List ℕ)) (s : Repository)
      → let request = request_of (read_request decode body).1 in
        Outcome request.commands request.capabilities s.refs
          (receive_pack decode encode unpack error_message fuel body s).0.refs
  unfolding receive_pack receive_request received refuse
  receive_pack-Outcome body s = arrived (read_request decode body)
    where
      asked :
          (lines : PktLineReader) (request : ReceivePackRequest)
          → Outcome request.commands request.capabilities s.refs
              (receive_request decode encode unpack error_message fuel lines request s).0.refs
      asked lines request =
          elim (Bool-cases (any (λ (c : ReceivePackCommand). not (is_delete c)) request.commands)) [
            | inl some_pack ↦
                rw (receive_request, some_pack)
                  (unpacked-Outcome request s (unpack (rest lines).1 s.objects))
            | inr no_pack ↦
                rw (receive_request, no_pack) (unpacked-Outcome request s (s.objects, complete))
          ]

      arrived :
          (r : PktLineReader × Result (Stop RequestError) ReceivePackRequest)
          → Outcome
              (request_of r.1).commands
              (request_of r.1).capabilities
              s.refs
              (received decode encode unpack error_message fuel r s).0.refs
      arrived (lines, ok request) = asked lines request
      arrived (lines, err out_of_fuel) = unmoved [] [] s.refs
      arrived (lines, err (thrown e)) =
          subst (λ (u : Repository). Outcome [] [] s.refs u.refs)
            (sym (
              answer_state decode encode unpack error_message fuel _ (error_capabilities e) false
                none s))
            (unmoved [] [] s.refs)
