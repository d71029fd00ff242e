-- ===== src/Store/Invariant.antt =====
-- What every ref reaches over the links to verify is stored, before and after a push.
use open_relic.Prelude.{
  ℕ, ◌≡◌, refl, sym, ap, ◌∙◌, List, [], ◌∷◌, ◌++◌, Bool, true, false, ◌&&◌, not, any, length, ltb,
  Option, none, some, Result, ok, err, Stop, thrown, out_of_fuel, Bool-cases, Option-cases,
  Result-cases, ◌⊎◌, inl, inr, All, ok-injective,
}
use mathlib.Core.Path.{subst}
use open_relic.Prelude.Codes.{Text, text_eq}
use open_relic.Prelude.Strings.{member}
use open_relic.Prelude.Maps.{Map, insert, without}
use open_relic.GitObject.{ObjectType}
use open_relic.PktLine.{PktLineReader, rest}
use open_relic.Connectivity.Walk.{ObjectSource, parsed_links, find_missing_object}
use open_relic.Connectivity.Membership.{
  none_in, In, at_head, left_part, which_part, here_or, further,
}
use open_relic.ReceivePack.{ReceivePackCommand, ReceivePackRequest, is_delete}
use open_relic.ReceivePack.Request.{RequestError}
use open_relic.ReceivePack.Screen.{Rejection, screen_commands}
use open_relic.ReceivePack.Report.{ReceivePackReport, receive_pack_result}
use open_relic.Store.{Repository, values, apply_commands, apply_updates, retarget}
use open_relic.Store.Push.{
  Unpack, Unpacked, complete, broken, refused, PushError, Verdicts, add_verdict, updates_of,
  has_rejection, read_request, answer, refuse, verify_all, conclude, unpacked, receive_request,
  received, receive_pack, atomic_capability, missing_objects, missing_message, reason_of,
}
use open_relic.Store.Closure.{
  Reaches, here, onward, IsComplete, IsSource, find_missing_object-IsComplete,
}

pub values-insert :
    (x name oid : Text) (refs : Map Text)
    → In x (values (insert name oid refs))
    → (x ≡ oid) ⊎ In x (values refs)
unfolding insert
values-insert x name oid [] h = elim (here_or x oid [] h) [ inl e ↦ inl (sym e) | inr g ↦ inr g ]
values-insert x name oid ((n, o) ∷ refs) h = elim (Bool-cases (text_eq n name)) [
  | inl same ↦ elim (here_or x oid (values refs) (rw (insert, same) at h)) [
    | inl e ↦ inl (sym e)
    | inr g ↦ inr (further x o (values refs) g)
  ]
  | inr other ↦ elim (here_or x o (values (insert name oid refs)) (rw (insert, other) at h)) [
    | inl e ↦ inr (subst (λ z. In x (z ∷ values refs)) (sym e) (at_head x (values refs)))
    | inr g ↦ elim (values-insert x name oid refs g) [
      | inl e ↦ inl e
      | inr k ↦ inr (further x o (values refs) k)
    ]
  ]
]

values-without :
    (x name : Text) (refs : Map Text) → In x (values (without name refs)) → In x (values refs)
unfolding without
values-without x name [] h = h
values-without x name ((n, o) ∷ refs) h = elim (Bool-cases (text_eq n name)) [
  | inl same ↦ further x o (values refs) (values-without x name refs (rw (without, same) at h))
  | inr other ↦ elim (here_or x o (values (without name refs)) (rw (without, other) at h)) [
    | inl e ↦ subst (λ z. In x (z ∷ values refs)) (sym e) (at_head x (values refs))
    | inr g ↦ further x o (values refs) (values-without x name refs g)
  ]
]

-- The values that updates leave are old ones, or those of the updates.
values-apply_commands :
    (P : Text → Type 0) (updates : List ReceivePackCommand) (refs : Map Text)
    → All (λ (c : ReceivePackCommand). (is_delete c ≡ false) → P c.new_oid) updates
    → ((oid : Text) → In oid (values refs) → P oid)
    → (oid : Text) → In oid (values (apply_commands updates refs))
    → P oid
unfolding apply_commands
values-apply_commands P [] refs h old oid m = old oid m
values-apply_commands P (c ∷ updates) refs (first, h) old oid m = elim (Bool-cases (is_delete c)) [
  | inl deleted ↦
      values-apply_commands P updates (without c.name refs) h
        (λ x k. old x (values-without x c.name refs k)) oid (rw (apply_commands, deleted) at m)
  | inr moved ↦
      values-apply_commands P updates (insert c.name c.new_oid refs) h
        (λ x k. elim (values-insert x c.name c.new_oid refs k) [
          | inl e ↦ subst P (sym e) (first moved)
          | inr g ↦ old x g
        ])
        oid (rw (apply_commands, moved) at m)
]

pub added :
    (reason : Option Text) (own : List Text) (r : Result (Stop PushError) Verdicts) (v : Verdicts)
    → add_verdict reason own r ≡ ok v
    → (w : Verdicts) × (r ≡ ok w) × (v.reasons ≡ reason ∷ w.reasons)
unfolding add_verdict
added reason own (err e) v h = let bad = h in cc
added reason own (ok w) v h =
    let same = ok-injective (ok v) refl (sym h) in (w, refl, ap (λ (x : Verdicts). x.reasons) same)

module _ (decode : List ℕ → Text) where
  -- The objects that a push unpacks come to what is there: nothing that is stored changes.
  pub record Grows (s t : ObjectSource) : Type 0 where
    pub kept :
        (oid : Text) (found : ObjectType × List ℕ)
        → s.read oid ≡ some found
        → t.read oid ≡ some found
    pub lawful : (shallow : List Text) → IsSource decode s shallow → IsSource decode t shallow

  pub record IsRepository (s : Repository) : Type 0 where
    pub source : (shallow : List Text) → IsSource decode s.objects shallow
    pub all_complete :
        (oid : Text) → In oid (values s.refs) → IsComplete decode s.objects s.shallow oid

  kept_links :
      (s t : ObjectSource) (shallow : List Text) (oid : Text) (links : List Text)
      → Grows s t
      → parsed_links decode s shallow oid (s.read oid) ≡ some links
      → parsed_links decode t shallow oid (t.read oid) ≡ some links
  unfolding parsed_links
  kept_links s t shallow oid links g e = elim (Option-cases (s.read oid)) [
    | inl gone ↦ let bad = rw gone at e in cc
    | inr (found, there) ↦ rw (g.kept oid found there) (rw there at e)
  ]

  Grows-IsComplete :
      (s t : ObjectSource) (shallow : List Text) (oid : Text)
      → Grows s t
      → IsComplete decode s shallow oid
      → IsComplete decode t shallow oid
  Grows-IsComplete s t shallow oid g c target way =
      let (links, e) = c target (earlier target way) in
      (links, kept_links s t shallow target links g e)
    where
      earlier : (x : Text) → Reaches decode t shallow oid x → Reaches decode s shallow oid x
      earlier x here = here
      earlier x (onward y _ links way' e h) =
          let was = earlier y way' in
          let (ls, f) = c y was in
          let same : some ls ≡ some links = sym (kept_links s t shallow y ls g f) ∙ e in
          let listed =
            λ (o : Option (List Text)). elim o as (λ _. List Text) [ none ↦ [] | some z ↦ z ] in
          onward y x ls was f (subst (λ (o : Option (List Text)). In x (listed o)) (sym same) h)

  -- Each update is a delete, or of a tip that is complete.
  abbrev AllComplete : ObjectSource → List Text → List ReceivePackCommand → Type 0
  AllComplete source shallow = All (λ (c : ReceivePackCommand).
      (is_delete c ≡ false) → IsComplete decode source shallow c.new_oid)

  pub grown-IsRepository :
      (s : Repository) (objects : ObjectSource)
      → Grows s.objects objects
      → IsRepository s
      → IsRepository (record s { objects = objects })
  grown-IsRepository s objects g h = record {
    source = λ shallow. g.lawful shallow (h.source shallow);
    all_complete =
        λ oid m. Grows-IsComplete s.objects objects s.shallow oid g (h.all_complete oid m);
  }

  Grows-refl : (s : ObjectSource) → Grows s s
  Grows-refl s = record { kept = λ oid found e. e; lawful = λ shallow l. l }

  module _ (encode : Text → List ℕ) (unpack : Unpack) (error_message : RequestError → Text)
      (fuel : ℕ) where
    abbrev verify :
        ObjectSource
        → List Text
        → List Text
        → List ReceivePackCommand
        → List (Option Rejection)
        → List Text
        → Result (Stop PushError) Verdicts
    verify = verify_all decode encode unpack error_message fuel

    verify_all-AllComplete :
        (source : ObjectSource) (shallow verified : List Text) (commands : List ReceivePackCommand)
        (screened : List (Option Rejection)) (visited : List Text) (v : Verdicts)
        → IsSource decode source shallow
        → ((oid : Text) → In oid (verified ++ visited) → IsComplete decode source shallow oid)
        → verify source shallow verified commands screened visited ≡ ok v
        → AllComplete source shallow (updates_of commands v.reasons)
    unfolding verify_all updates_of
    verify_all-AllComplete source shallow verified [] screened visited v l c e = tt
    verify_all-AllComplete source shallow verified (x ∷ commands) [] visited v l c e =
        let same = ok-injective (ok v) refl (sym e) in
        subst (λ (w : Verdicts). AllComplete source shallow (updates_of (x ∷ commands) w.reasons))
          (sym same) tt
    verify_all-AllComplete source shallow verified (x ∷ commands) (some rejection ∷ screened)
          visited v l c e =
        let (w, f, same) =
          added (some (reason_of rejection)) []
            (verify source shallow verified commands screened visited) v e in
        subst (λ reasons. AllComplete source shallow (updates_of (x ∷ commands) reasons)) (sym same)
          (verify_all-AllComplete source shallow verified commands screened visited w l c f)
    verify_all-AllComplete source shallow verified (x ∷ commands) (none ∷ screened) visited v l c
          e =
        elim (Bool-cases (is_delete x)) [
          | inl deleted ↦
              let (w, f, same) =
                added none [] (verify source shallow verified commands screened visited) v
                  (rw (verify_all, deleted) at e) in
              let rest =
                verify_all-AllComplete source shallow verified commands screened visited w l c f in
              subst (λ reasons. AllComplete source shallow (updates_of (x ∷ commands) reasons))
                (sym same) (λ m. let bad = sym m ∙ deleted in cc, rest)
          | inr moved ↦
              elim (Result-cases
                (find_missing_object decode source shallow verified visited fuel x.new_oid)) [
                  | inl (visited', found) ↦
                      let (tip, all) =
                        find_missing_object-IsComplete decode source shallow verified visited fuel
                          x.new_oid visited' l c found in
                      let (w, f, same) =
                        added none [] (verify source shallow verified commands screened visited') v
                          (rw (verify_all, moved, found) at e) in
                      let rest =
                        verify_all-AllComplete source shallow verified commands screened visited' w
                          l (extended visited' all) f in
                      subst
                        (λ reasons. AllComplete source shallow (updates_of (x ∷ commands) reasons))
                        (sym same) (λ m. tip, rest)
                  | inr (stop, found) ↦
                      stopped
                        (verify_all-AllComplete source shallow verified commands screened visited)
                        stop (rw (verify_all, moved, found) at e)
                ]
        ]
      where
        extended :
            (visited' : List Text)
            → ((oid : Text) → In oid visited' → IsComplete decode source shallow oid)
            → (oid : Text) → In oid (verified ++ visited')
            → IsComplete decode source shallow oid
        extended visited' all oid m = elim (which_part oid verified visited' m) [
          | inl h ↦ c oid (left_part oid verified visited h)
          | inr h ↦ all oid h
        ]

        stopped :
            ((w : Verdicts)
              → IsSource decode source shallow
              → ((oid : Text) → In oid (verified ++ visited) → IsComplete decode source shallow oid)
              → verify source shallow verified commands screened visited ≡ ok w
              → AllComplete source shallow (updates_of commands w.reasons))
            → (stop : Stop Text)
            → (elim stop as (λ _. Result (Stop PushError) Verdicts) [
              | out_of_fuel ↦ err out_of_fuel
              | thrown oid ↦
                  add_verdict
                    (some missing_objects)
                    (missing_message x.name oid ∷ [])
                    (verify source shallow verified commands screened visited)
            ])
              ≡ ok v
            → AllComplete source shallow (updates_of (x ∷ commands) v.reasons)
        stopped more out_of_fuel f = let bad = f in cc
        stopped more (thrown oid) f =
            let (w, g, same) =
              added (some missing_objects) (missing_message x.name oid ∷ [])
                (verify source shallow verified commands screened visited) v f in
            subst (λ reasons. AllComplete source shallow (updates_of (x ∷ commands) reasons))
              (sym same) (more w l c g)

    pub answer_state :
        (report : ReceivePackReport) (capabilities : List Text) (moved : Bool) (to : Option Text)
        (s : Repository)
        → (answer decode encode unpack error_message fuel report capabilities moved to s).0 ≡ s
    unfolding answer
    answer_state report capabilities moved to s =
        elim (Result-cases (receive_pack_result encode report capabilities)) [
          | inl (bytes, e) ↦ rw (answer, e) refl
          | inr (error, e) ↦ rw (answer, e) refl
        ]

    -- The state that a push leaves, once its verdicts are in.
    pub conclude_state :
        (commands : List ReceivePackCommand) (capabilities : List Text) (s : Repository)
        (v : Verdicts)
        → let t =
            (conclude decode encode unpack error_message fuel commands capabilities s (ok v)).0 in
          let updates = updates_of commands v.reasons in
          (t ≡ s) ⊎ (t ≡ apply_updates updates (retarget s updates) s)
    unfolding conclude
    conclude_state commands capabilities s v =
        let updates = updates_of commands v.reasons in
        elim (Bool-cases (member atomic_capability capabilities && has_rejection v.reasons)) [
          | inl nothing ↦ inl (rw (conclude, nothing) (answer_state _ capabilities false none s))
          | inr going ↦ elim (Bool-cases (ltb 0 (length updates))) [
            | inl moved ↦ inr (
                rw (conclude, going, moved)
                  (answer_state _ capabilities true (retarget s updates)
                    (apply_updates updates (retarget s updates) s)))
            | inr unmoved ↦ inl (
                rw (conclude, going, unmoved)
                  (answer_state _ capabilities false (retarget s updates) s))
          ]
        ]

    conclude-IsRepository :
        (commands : List ReceivePackCommand) (capabilities : List Text) (s : Repository)
        (r : Result (Stop PushError) Verdicts)
        → IsRepository s
        → ((v : Verdicts)
            → r ≡ ok v
            → AllComplete s.objects s.shallow (updates_of commands v.reasons))
        → IsRepository
            (conclude decode encode unpack error_message fuel commands capabilities s r).0
    unfolding apply_updates conclude
    conclude-IsRepository commands capabilities s (err e) h k = h
    conclude-IsRepository commands capabilities s (ok v) h k =
        elim (conclude_state commands capabilities s v) [
          | inl same ↦ subst IsRepository (sym same) h
          | inr same ↦ subst IsRepository (sym same) (record {
            source = h.source;
            all_complete =
                values-apply_commands (IsComplete decode s.objects s.shallow)
                  (updates_of commands v.reasons) s.refs (k v refl) h.all_complete;
          })
        ]

    unpacked-IsRepository :
        (request : ReceivePackRequest) (screened : List (Option Rejection)) (s : Repository)
        (objects : ObjectSource) (u : Unpacked)
        → Grows s.objects objects
        → IsRepository s
        → IsRepository
            (unpacked decode encode unpack error_message fuel request screened s (objects, u)).0
    unfolding unpacked refuse
    unpacked-IsRepository request screened s objects broken g h = grown-IsRepository s objects g h
    unpacked-IsRepository request screened s objects (refused detail) g h =
        subst IsRepository
          (sym (answer_state _ request.capabilities false none (record s { objects = objects })))
          (grown-IsRepository s objects g h)
    unpacked-IsRepository request screened s objects complete g h =
        let t : Repository = record s { objects = objects } in
        let k = grown-IsRepository s objects g h in
        conclude-IsRepository request.commands request.capabilities t
          (verify objects s.shallow (values s.refs) request.commands screened []) k
          (λ v e.
            verify_all-AllComplete objects s.shallow (values s.refs) request.commands screened [] v
              (k.source s.shallow)
              (λ oid m. elim (which_part oid (values s.refs) [] m) [
                | inl old ↦ k.all_complete oid old
                | inr nothing ↦ absurd (none_in oid nothing)
              ])
              e)

    -- Whatever a client sends, and however the push ends: where all that the refs reach over the links to
    -- verify is stored, it is so after it. The objects that a pack brings only come to what is
    -- stored, and the index and the closures that the store answers with are true of its objects.
    pub receive_pack-IsRepository :
        (body : List (List ℕ)) (s : Repository)
        → ((pack : List (List ℕ)) → Grows s.objects (unpack pack s.objects).0)
        → IsRepository s
        → IsRepository (receive_pack decode encode unpack error_message fuel body s).0
    unfolding receive_pack receive_request received refuse
    receive_pack-IsRepository body s g h = arrived (read_request decode body)
      where
        requested :
            (lines : PktLineReader) (request : ReceivePackRequest)
            → IsRepository
                (receive_request decode encode unpack error_message fuel lines request s).0
        requested lines request =
            let screened = screen_commands request.commands s.refs in
            let pack = unpack (rest lines).1 s.objects in
            elim (Bool-cases
              (any (λ (c : ReceivePackCommand). not (is_delete c)) request.commands)) [
                | inl some_pack ↦
                    rw (receive_request, some_pack)
                      (unpacked-IsRepository request screened s pack.0 pack.1 (g (rest lines).1) h)
                | inr no_pack ↦
                    rw (receive_request, no_pack)
                      (unpacked-IsRepository request screened s s.objects complete
                        (Grows-refl s.objects) h)
              ]

        arrived :
            (r : PktLineReader × Result (Stop RequestError) ReceivePackRequest)
            → IsRepository (received decode encode unpack error_message fuel r s).0
        arrived (lines, ok request) = requested lines request
        arrived (lines, err out_of_fuel) = h
        arrived (lines, err (thrown e)) = subst IsRepository (sym (answer_state _ _ false none s)) h
