-- ===== src/Store/Push.antt =====
-- apps/api/src/repository-store.ts: a push, from its commands to the report. Unpacking a pack into the
-- object store is an interface, and so are the messages of errors.
use open_relic.Prelude.{
  ℕ, List, [], ◌∷◌, ◌++◌, Bool, true, false, ◌&&◌, not, any, length, ltb, if◌then◌else◌, Option,
  none, some, Result, ok, err, Stop, thrown, out_of_fuel,
}
use open_relic.Prelude.Codes.{Text, codes}
use open_relic.Prelude.Strings.{member}
use open_relic.PktLine.{PktLineReader, new_reader, rest}
use open_relic.Connectivity.Walk.{ObjectSource, find_missing_object}
use open_relic.ReceivePack.{
  ReceivePackCommand, ReceivePackRequest, is_delete, report_status_capability,
}
use open_relic.ReceivePack.Request.{
  RequestError, not_a_command, commands_cut, options_cut, invalid_option, unsupported, framing,
  read_receive_pack_request, read_push_options,
}
use open_relic.ReceivePack.Screen.{
  Rejection, funny_refname, duplicate, exists, vanished, stale, screen_commands,
}
use open_relic.ReceivePack.Report.{
  RefStatus, accepted, rejected, ReceivePackReport, receive_pack_result,
}
use open_relic.Store.{Repository, values, apply_updates, retarget}

-- How `readPack` ends: with its pack stored, with a `PackError` or without room, or with any other throw.
pub data Unpacked : Type 0 where
  complete broken : Unpacked
  refused : Text → Unpacked

abbrev pub Unpack : Type 0
Unpack = List (List ℕ) → ObjectSource → ObjectSource × Unpacked

abbrev pub atomic_capability : Text
atomic_capability = codes "atomic"

abbrev pub push_options_capability : Text
push_options_capability = codes "push-options"

abbrev pub unpack_ok : Text
unpack_ok = codes "ok"

-- The strings of `REJECTIONS`.
abbrev pub missing_objects : Text
missing_objects = codes "missing necessary objects"

abbrev pub atomic_failure : Text
atomic_failure = codes "atomic push failure"

abbrev pub unpacker_failure : Text
unpacker_failure = codes "n/a (unpacker error)"

abbrev pub reason_of : Rejection → Text
reason_of funny_refname = codes "funny refname"
reason_of duplicate = codes "the same ref appears twice in this push"
reason_of exists = codes "the ref already exists"
reason_of vanished = codes "the ref no longer exists"
reason_of stale = codes "the ref has moved since it was advertised"

-- The throws of `receivePack`. The model's own are those of a reader or a walk that runs out of fuel.
pub data PushError : Type 0 where
  report_too_long unpacker_broken : PushError

pub record ReceivePackOutcome : Type 0 where
  pub report : List ℕ
  pub accepted : Bool
  pub retargeted_to : Option Text

abbrev pub Answer : Type 0
Answer = Repository × Result (Stop PushError) ReceivePackOutcome

-- The capabilities that the error of a request carries; an error of the framing has negotiated none.
abbrev pub error_capabilities : RequestError → List Text
error_capabilities (not_a_command negotiated) = negotiated
error_capabilities (commands_cut negotiated) = negotiated
error_capabilities (options_cut negotiated) = negotiated
error_capabilities (invalid_option negotiated) = negotiated
error_capabilities (unsupported capability negotiated) = negotiated
error_capabilities (framing e) = report_status_capability ∷ []

-- The verdicts so far: a reason for each command that is rejected, in the order of the commands.
pub record Verdicts : Type 0 where
  pub reasons : List (Option Text)
  pub messages : List Text

unfoldable pub add_verdict :
    Option Text → List Text → Result (Stop PushError) Verdicts → Result (Stop PushError) Verdicts
add_verdict reason own (err e) = err e
add_verdict reason own (ok v) =
    ok (record { reasons = reason ∷ v.reasons; messages = own ++ v.messages })

-- The commands that nothing was said against.
unfoldable pub updates_of : List ReceivePackCommand → List (Option Text) → List ReceivePackCommand
updates_of [] reasons = []
updates_of (command ∷ commands) [] = []
updates_of (command ∷ commands) (none ∷ reasons) = command ∷ updates_of commands reasons
updates_of (command ∷ commands) (some reason ∷ reasons) = updates_of commands reasons

unfoldable pub has_rejection : List (Option Text) → Bool
has_rejection [] = false
has_rejection (none ∷ reasons) = has_rejection reasons
has_rejection (some reason ∷ reasons) = true

-- `rejections.get(at) ?? otherwise(command)` of each command.
unfoldable pub statuses :
    (Text → RefStatus) → List ReceivePackCommand → List (Option Text) → List RefStatus
statuses otherwise [] reasons = []
statuses otherwise (command ∷ commands) [] = otherwise command.name ∷ statuses otherwise commands []
statuses otherwise (command ∷ commands) (none ∷ reasons) =
    otherwise command.name ∷ statuses otherwise commands reasons
statuses otherwise (command ∷ commands) (some reason ∷ reasons) =
    rejected command.name reason ∷ statuses otherwise commands reasons

abbrev pub all_refused : Text → List ReceivePackCommand → List RefStatus
all_refused reason [] = []
all_refused reason (command ∷ commands) = rejected command.name reason ∷ all_refused reason commands

-- The reader of the commands, with the options that follow where they were negotiated.
unfoldable pub read_options :
    (List ℕ → Text)
    → PktLineReader × Result (Stop RequestError) ReceivePackRequest
    → PktLineReader × Result (Stop RequestError) ReceivePackRequest
read_options decode (lines, err e) = (lines, err e)
read_options decode (lines, ok request) =
    let (lines', options) = read_push_options decode request.capabilities lines in
    let read : Result (Stop RequestError) ReceivePackRequest = elim options [
      | err e ↦ err e
      | ok texts ↦ ok request
    ] in
    if member push_options_capability request.capabilities
    then (lines', read)
    else (lines, ok request)

unfoldable pub read_request :
    (List ℕ → Text) → List (List ℕ) → PktLineReader × Result (Stop RequestError) ReceivePackRequest
read_request decode body = read_options decode (read_receive_pack_request decode (new_reader body))

abbrev pub refusal : Text → Text
refusal detail = codes "open-relic could not read the push: " ++ detail

abbrev pub missing_message : Text → Text → Text
missing_message name oid =
    name ++ (codes " needs " ++ (oid ++ codes ", which the push did not carry."))

-- `decode` and `encode` are those of TextDecoder and TextEncoder. `fuel` is for each walk, and
-- `error_message` is `error.message` of an error of the request.
module _ (decode : List ℕ → Text) (encode : Text → List ℕ) (unpack : Unpack)
    (error_message : RequestError → Text) (fuel : ℕ) where
  -- The end of every answer: its report, which throws where a line is too long for its packet.
  unfoldable pub answer : ReceivePackReport → List Text → Bool → Option Text → Repository → Answer
  answer report capabilities moved retargeted_to s =
      elim (receive_pack_result encode report capabilities) [
        | err e ↦ (s, err (thrown report_too_long))
        | ok bytes ↦
            (s, ok (record { report = bytes; accepted = moved; retargeted_to = retargeted_to }))
      ]

  -- `#refuse`.
  unfoldable pub refuse : Text → List Text → List RefStatus → Repository → Answer
  refuse detail capabilities refs =
      answer (record { unpack = detail; refs = refs; messages = refusal detail ∷ [] }) capabilities
        false none

  -- The loop over the commands that passed the screening. `visited` is shared by its walks.
  unfoldable pub verify_all :
      ObjectSource
      → List Text
      → List Text
      → List ReceivePackCommand
      → List (Option Rejection)
      → List Text
      → Result (Stop PushError) Verdicts
  verify_all source shallow verified [] screened visited =
      ok (record { reasons = []; messages = [] })
  verify_all source shallow verified (command ∷ commands) [] visited =
      ok (record { reasons = []; messages = [] })
  verify_all source shallow verified (command ∷ commands) (some rejection ∷ screened) visited =
      add_verdict (some (reason_of rejection)) []
        (verify_all source shallow verified commands screened visited)
  verify_all source shallow verified (command ∷ commands) (none ∷ screened) visited =
      let deleted =
        add_verdict none [] (verify_all source shallow verified commands screened visited) in
      let walked : Result (Stop PushError) Verdicts =
        elim (find_missing_object decode source shallow verified visited fuel command.new_oid) [
          | ok visited' ↦
              add_verdict none [] (verify_all source shallow verified commands screened visited')
          | err stop ↦ elim stop [
            | out_of_fuel ↦ err out_of_fuel
            | thrown oid ↦
                add_verdict (some missing_objects) (missing_message command.name oid ∷ [])
                  (verify_all source shallow verified commands screened visited)
          ]
        ] in
      if is_delete command then deleted else walked

  -- From the verdicts on: nothing moves in an atomic push with a rejection.
  unfoldable pub conclude :
      List ReceivePackCommand → List Text → Repository → Result (Stop PushError) Verdicts → Answer
  conclude commands capabilities s (err e) = (s, err e)
  conclude commands capabilities s (ok v) =
      let updates = updates_of commands v.reasons in
      let retargeted_to = retarget s updates in
      let moved = ltb 0 (length updates) in
      let t = if moved then apply_updates updates retargeted_to s else s in
      let kept =
        answer
          (record {
            unpack = unpack_ok;
            refs = statuses (λ name. rejected name atomic_failure) commands v.reasons;
            messages = v.messages;
          })
          capabilities false none s in
      let done =
        answer
          (record {
            unpack = unpack_ok;
            refs = statuses accepted commands v.reasons;
            messages = v.messages;
          })
          capabilities moved retargeted_to t in
      if member atomic_capability capabilities && has_rejection v.reasons then kept else done

  -- What is done with a pack once it is unpacked, or has failed to.
  unfoldable pub unpacked :
      ReceivePackRequest → List (Option Rejection) → Repository → ObjectSource × Unpacked → Answer
  unpacked request screened s (objects, broken) =
      (record s { objects = objects }, err (thrown unpacker_broken))
  unpacked request screened s (objects, refused detail) =
      refuse detail request.capabilities (all_refused unpacker_failure request.commands)
        (record s { objects = objects })
  unpacked request screened s (objects, complete) =
      conclude request.commands request.capabilities (record s { objects = objects })
        (verify_all objects s.shallow (values s.refs) request.commands screened [])

  -- A push of deletes alone carries no pack.
  unfoldable pub receive_request : PktLineReader → ReceivePackRequest → Repository → Answer
  receive_request lines request s =
      let screened = screen_commands request.commands s.refs in
      let received = unpack (rest lines).1 s.objects in
      if any (λ command. not (is_delete command)) request.commands
      then unpacked request screened s received
      else unpacked request screened s (s.objects, complete)

  unfoldable pub received :
      PktLineReader × Result (Stop RequestError) ReceivePackRequest → Repository → Answer
  received (lines, ok request) s = receive_request lines request s
  received (lines, err (thrown e)) s = refuse (error_message e) (error_capabilities e) [] s
  received (lines, err out_of_fuel) s = (s, err out_of_fuel)

  -- `#receivePack`, on a body of chunks.
  unfoldable pub receive_pack : List (List ℕ) → Repository → Answer
  receive_pack body s = received (read_request decode body) s
