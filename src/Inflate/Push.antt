-- ===== src/Inflate/Push.antt =====
-- apps/api/src/inflate.ts: `push`, which runs steps until the input runs out or the stream ends.
use open_relic.Prelude.{
  ℕ, zero, suc, ◌+◌, ◌*◌, ◌/◌, ◌%◌, List, [], ◌++◌, Bool, not, ◌||◌, drop, length, ◌==◌,
  if◌then◌else◌, Result, ok, err, Stop, thrown, out_of_fuel,
}
use open_relic.Inflate.Reader.{Inflater, ended, Corruption, Read, got, need_input, corrupt, is_done}
use open_relic.Inflate.Steps.{Step, continue, wait, done, step}

-- The errors of `push`, each with its message's case.
pub data InflateError : Type 0 where
  already_ended truncated wrong_size : InflateError
  corrupted : Corruption → InflateError

abbrev pub Pushed : Type 0
Pushed = Inflater × Result (Stop InflateError) (Unit {0})

unfoldable pub finish : Inflater → Pushed
finish s = if not (length s.written == s.size) then (s, err (thrown wrong_size)) else (
  record s { state = ended; leftover = drop (s.bit_at / 8) s.input; input = []; bit_at = 0 },
  ok tt,
)

unfoldable pub append : List ℕ → Inflater → Inflater
append chunk s =
    if length s.input == 0
    then record s { input = chunk; bit_at = 0 }
    else record s { input = s.input ++ chunk }

unfoldable pub compact : Inflater → Inflater
compact s =
    if s.bit_at / 8 == 0
    then s
    else record s { input = drop (s.bit_at / 8) s.input; bit_at = s.bit_at % 8 }

unfoldable pub pause : Inflater → Pushed
pause s = if s.at_end then (s, err (thrown truncated)) else (compact s, ok tt)

-- A round of the loop, from the answer of its step; a read past the input rewinds to `resume_at`.
unfoldable pub after_step : (Inflater → Pushed) → ℕ → Inflater × Read Step → Pushed
after_step more resume_at (s, got continue) = more s
after_step more resume_at (s, got wait) = pause s
after_step more resume_at (s, got done) = finish s
after_step more resume_at (s, need_input) = pause (record s { bit_at = resume_at })
after_step more resume_at (s, corrupt c) = (s, err (thrown (corrupted c)))

unfoldable pub push_loop : ℕ → Inflater → Pushed
push_loop zero s = (s, err out_of_fuel)
push_loop (suc fuel) s = after_step (push_loop fuel) s.bit_at (step s)

-- Enough rounds for the bits that are there.
abbrev pub rounds : Inflater → ℕ
rounds s = length s.input * 16 + 4

unfoldable pub push : List ℕ → Bool → Inflater → Pushed
push chunk at_end s =
    let t : Inflater = record (append chunk s) { at_end = s.at_end || at_end } in
    if is_done s then (s, err (thrown already_ended)) else push_loop (rounds t) t
