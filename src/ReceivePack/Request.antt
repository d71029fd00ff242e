-- ===== src/ReceivePack/Request.antt =====
-- apps/api/src/git/receive-pack.ts: reading the commands and the options of a push.
pub mod Commands
pub mod Parsing
use open_relic.Prelude.{
  ℕ, zero, suc, ◌+◌, List, [], ◌∷◌, ◌++◌, Bool, true, false, ◌&&◌, ◌||◌, not, all, any, length,
  take, drop, leb, ltb, ◌==◌, if◌then◌else◌, Option, none, some, Result, ok, err, Stop, thrown,
  out_of_fuel, ◌>>=◌,
}
use open_relic.Prelude.Codes.{Text, codes, text_eq}
use open_relic.Prelude.Strings.{split}
use open_relic.GitObject.{is_object_id}
use open_relic.PktLine.{PktLineReader, PktLine, line, flush, end, delimiter, response_end, next}
use open_relic.PktLine.{PktLineError, control_packet}
use open_relic.PktLine.Fill.{unread}
use open_relic.ReceivePack.{ReceivePackCommand, ReceivePackRequest, understands_capability}

-- The throws of `ReceivePackError`, each with the capabilities that it carries, and that of the
-- reader below.
pub data RequestError : Type 0 where
  not_a_command commands_cut options_cut invalid_option : List Text → RequestError
  unsupported : Text → List Text → RequestError
  framing : PktLineError → RequestError

-- `text.replace(/\n$/, "")`.
unfoldable pub chomp : Text → Text
chomp [] = []
chomp (c ∷ []) = if c == 10 then [] else c ∷ []
chomp (c ∷ d ∷ text) = c ∷ chomp (d ∷ text)

-- The text in front of the first NUL, and the text behind it where there is one.
unfoldable pub cut_at_nul : Text → Text × Option Text
cut_at_nul [] = ([], none)
cut_at_nul (c ∷ text) =
    let (head, tail) = cut_at_nul text in if c == 0 then ([], some text) else (c ∷ head, tail)

abbrev pub nonempty : List Text → List Text
nonempty [] = []
nonempty ([] ∷ texts) = nonempty texts
nonempty ((c ∷ text) ∷ texts) = (c ∷ text) ∷ nonempty texts

-- What `.` of a regular expression does not stand for.
abbrev pub is_line_terminator : ℕ → Bool
is_line_terminator c = c == 10 || c == 13 || c == 0x2028 || c == 0x2029

-- `COMMAND_PATTERN`, with its three groups.
unfoldable pub match_command : Text → Option ReceivePackCommand
match_command head =
    let old_oid = take 40 head in
    let new_oid = take 40 (drop 41 head) in
    let name = drop 82 head in
    if is_object_id old_oid
      && text_eq (take 1 (drop 40 head)) (codes " ")
      && is_object_id new_oid
      && text_eq (take 1 (drop 81 head)) (codes " ")
      && not (length name == 0)
      && not (any is_line_terminator name)
    then some (record { old_oid = old_oid; new_oid = new_oid; name = name })
    else none

pub record ParsedCommandLine : Type 0 where
  pub command : ReceivePackCommand
  pub capabilities : Option (List Text)

abbrev pub listed : Option Text → Option (List Text)
listed none = none
listed (some text) = some (nonempty (split 32 text))

-- `parseCommandLine` behind the text's parts in front of and behind the NUL.
unfoldable pub parse_parts : List Text → Text × Option Text → Result RequestError ParsedCommandLine
parse_parts negotiated (head, tail) = elim (match_command head) [
  | none ↦ err (not_a_command negotiated)
  | some command ↦ ok (record { command = command; capabilities = listed tail })
]

unfoldable pub parse_text : Text → List Text → Result RequestError ParsedCommandLine
parse_text text negotiated = parse_parts negotiated (cut_at_nul (chomp text))

-- `find` of a capability that is not understood.
unfoldable pub first_unsupported : List Text → Option Text
first_unsupported [] = none
first_unsupported (capability ∷ capabilities) =
    let rest = first_unsupported capabilities in
    if understands_capability capability then rest else some capability

-- The capabilities after a line: its own, on the first line that carries any.
unfoldable pub negotiate :
    Option (List Text) → List ReceivePackCommand → List Text → Result RequestError (List Text)
negotiate none commands capabilities = ok capabilities
negotiate (some own) (command ∷ commands) capabilities = ok capabilities
negotiate (some own) [] capabilities = elim (first_unsupported own) [
  | none ↦ ok own
  | some capability ↦ err (unsupported capability own)
]

abbrev pub Answer : Type 0 → Type 0
Answer A = PktLineReader × Result (Stop RequestError) A

-- `decode` is the `decode` of a TextDecoder.
module _ (decode : List ℕ → Text) where
  -- A line's part of the round: the command and the capabilities after it.
  unfoldable pub read_command :
      List ℕ
      → List ReceivePackCommand
      → List Text
      → Result RequestError (ReceivePackCommand × List Text)
  read_command payload commands capabilities = do
    parsed ← parse_text (decode payload) capabilities
    capabilities' ← negotiate parsed.capabilities commands capabilities
    ok (parsed.command, capabilities')

  -- A round of the loop of `readReceivePackRequest` on what `next` answered; `more` goes on with the
  -- loop. `next` throws at the control packets of protocol v2.
  unfoldable pub request_step :
      (ReceivePackCommand × List Text → PktLineReader → Answer ReceivePackRequest)
      → List ReceivePackCommand
      → List Text
      → PktLineReader × Result PktLineError PktLine
      → Answer ReceivePackRequest
  request_step more commands capabilities (s, err e) = (s, err (thrown (framing e)))
  request_step more commands capabilities (s, ok flush) =
      (s, ok (record { commands = commands; capabilities = capabilities }))
  request_step more commands capabilities (s, ok end) =
      if length commands == 0
      then (s, ok (record { commands = commands; capabilities = capabilities }))
      else (s, err (thrown (commands_cut capabilities)))
  request_step more commands capabilities (s, ok delimiter) =
      (s, err (thrown (framing control_packet)))
  request_step more commands capabilities (s, ok response_end) =
      (s, err (thrown (framing control_packet)))
  request_step more commands capabilities (s, ok (line payload)) =
      elim (read_command payload commands capabilities) [
        | err e ↦ (s, err (thrown e))
        | ok x ↦ more x s
      ]

  unfoldable pub request_loop :
      ℕ → List ReceivePackCommand → List Text → PktLineReader → Answer ReceivePackRequest
  request_loop zero commands capabilities r = (r, err out_of_fuel)
  request_loop (suc fuel) commands capabilities r =
      request_step (λ x s. request_loop fuel (commands ++ (x.0 ∷ [])) x.1 s) commands capabilities
        (next r)

  -- Each line takes at least its four digits off the bytes that are left.
  unfoldable pub read_receive_pack_request : PktLineReader → Answer ReceivePackRequest
  read_receive_pack_request r = request_loop (suc (length (unread r))) [] [] r

  -- An option that `readPushOptions` refuses.
  abbrev pub bad_option : List ℕ → Bool
  bad_option payload = length payload == 0 || any (λ byte. leb byte 0x1f || byte == 0x7f) payload

  unfoldable pub options_loop : ℕ → List Text → List Text → PktLineReader → Answer (List Text)
  options_loop zero capabilities options r = (r, err out_of_fuel)
  options_loop (suc fuel) capabilities options r =
      let (s, got) = next r in
      let more = λ (x : Text). options_loop fuel capabilities (options ++ (x ∷ [])) s in
      elim got [
        | err e ↦ (s, err (thrown (framing e)))
        | ok l ↦ elim l [
          | line payload ↦ elim (bad_option payload) [
            | true ↦ (s, err (thrown (invalid_option capabilities)))
            | false ↦ more (decode payload)
          ]
          | flush ↦ (s, ok options)
          | end ↦ (s, err (thrown (options_cut capabilities)))
          | delimiter ↦ (s, err (thrown (framing control_packet)))
          | response_end ↦ (s, err (thrown (framing control_packet)))
        ]
      ]

  unfoldable pub read_push_options : List Text → PktLineReader → Answer (List Text)
  read_push_options capabilities r = options_loop (suc (length (unread r))) capabilities [] r
