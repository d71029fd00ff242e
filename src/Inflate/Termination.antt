-- ===== src/Inflate/Termination.antt =====
-- apps/api/src/inflate.ts: the loop of `push` always ends.
use open_relic.Prelude.{
  ◌++◌, bit_and, bit_or, bit_xor, ◌^◌, ◌%◌, leb, ℕ, zero, suc, ◌+◌, ◌-◌, ◌*◌, ◌/◌, ◌≤◌, ◌<◌, ◌≡◌,
  ◌≢◌, refl, ap, ◌∙◌, min, List, Bool, true, false, take, drop, length, ltb, ◌==◌, ◌||◌, not,
  if◌then◌else◌, arith, Bool-cases, inl, inr, err, out_of_fuel,
}
use open_relic.Inflate.Adler.{adler32}
use open_relic.Inflate.Huffman.{Huffman, length_base, distance_base}
use open_relic.Inflate.Reader.{
  Inflater, State, zlib_header, block_header, stored, compressed, checksum, ended, Read, got,
  need_input, corrupt, ◌>>=◌, resume, align, write, is_done,
}
use open_relic.Inflate.Steps.{
  Step, continue, wait, done, enter, read_zlib_header, read_stored_header, enter_compressed,
  read_block, read_block_header, leave_block, stored_end, copy_stored, write_match, read_distance,
  read_match, read_symbol, decode_symbol, compare_checksum, read_checksum, step_in, step,
}
use open_relic.Inflate.Push.{finish, append, pause, after_step, push_loop, rounds, push}
use open_relic.Inflate.Progress.{
  Behaves, Moves, >>=-Moves, gives-Moves, throw-Moves, if-Moves, bits-Moves, align-Moves,
  write_byte-Moves, decode-Moves, read_dynamic_tables-Moves, weaker, lower, still, field-Moves,
}

enter-Moves : (state : State) → Moves 0 (enter state)
unfolding Moves enter Behaves
enter-Moves state s = still s _ refl refl

read_zlib_header-Moves : Moves 16 read_zlib_header
unfolding read_zlib_header
read_zlib_header-Moves = >>=-Moves 8 8 _ _ (bits-Moves 8) (λ cmf.
    >>=-Moves 8 0 _ _ (bits-Moves 8) (λ flg.
      if-Moves 0 (not (bit_and cmf 0x0f == 8)) _ _ (throw-Moves _ 0 _) (
        if-Moves 0 (not (bit_and flg 0x20 == 0)) _ _ (throw-Moves _ 0 _) (
          if-Moves 0 (not (bit_or (cmf * 2 ^ 8) flg % 31 == 0)) _ _ (throw-Moves _ 0 _)
            (enter-Moves _)))))

read_stored_header-Moves : Moves 0 read_stored_header
unfolding read_stored_header
read_stored_header-Moves = weaker 32 _ (
    >>=-Moves 0 32 _ _ align-Moves (λ u. >>=-Moves 16 16 _ _ (bits-Moves 16) (λ count.
      >>=-Moves 16 0 _ _ (bits-Moves 16) (λ complement.
        if-Moves 0 (not (count == bit_xor complement 0xffff)) _ _ (throw-Moves _ 0 _)
          (field-Moves _ _ (λ s. refl) (λ s. refl))))))

enter_compressed-Moves : (tables : Huffman × Huffman) → Moves 0 (enter_compressed tables)
unfolding Moves enter_compressed Behaves
enter_compressed-Moves (literals, distances) s = still s _ refl refl

read_block-Moves : (kind : ℕ) → Moves 0 (read_block kind)
unfolding read_block
read_block-Moves zero = read_stored_header-Moves
read_block-Moves (suc zero) = enter_compressed-Moves _
read_block-Moves (suc (suc zero)) =
    >>=-Moves 0 0 _ _ read_dynamic_tables-Moves enter_compressed-Moves
read_block-Moves (suc (suc (suc kind))) = throw-Moves _ 0 _

read_block_header-Moves : Moves 3 read_block_header
unfolding read_block_header
read_block_header-Moves = >>=-Moves 1 2 _ _ (bits-Moves 1) (λ last.
    >>=-Moves 0 2 _ _ (field-Moves _ _ (λ s. refl) (λ s. refl))
      (λ u. >>=-Moves 2 0 _ _ (bits-Moves 2) read_block-Moves))

leave_block-Moves : Moves 0 leave_block
unfolding Moves leave_block
leave_block-Moves s = left s.last_block s.checksummed
  where
    left :
        (last zlib_stream : Bool)
        → Behaves 0 s (
            if not last
            then enter block_header s
            else if zlib_stream
            then enter checksum s
            else (align >>= (λ u. enter ended)) s)
    left false zlib_stream = enter-Moves block_header s
    left true true = enter-Moves checksum s
    left true false = >>=-Moves 0 0 align (λ u. enter ended) align-Moves (λ u. enter-Moves ended) s

write_match-Moves : (count distance : ℕ) → Moves 0 (write_match count distance)
unfolding Moves write_match Behaves
write_match-Moves count distance s = elim (Bool-cases (ltb (length s.written) distance)) [
  | inl before ↦ rw (write_match, before) tt
  | inr here ↦ elim (Bool-cases (ltb s.size (length s.written + count))) [
    | inl over ↦ rw (write_match, here, over) tt
    | inr fits ↦ rw (write_match, here, fits) (still s _ refl refl)
  ]
]

read_distance-Moves : (count : ℕ) → Moves 0 (read_distance count)
unfolding read_distance
read_distance-Moves count = weaker 1 _ (
    >>=-Moves 0 1 _ _ (field-Moves _ _ (λ s. refl) (λ s. refl)) (λ table.
      >>=-Moves 1 0 _ _ (decode-Moves table) (λ code.
        if-Moves 0 (leb (length distance_base) code) _ _ (throw-Moves _ 0 _)
          (weaker _ _ (>>=-Moves _ 0 _ _ (bits-Moves _) (λ extra. write_match-Moves _ _))))))

read_match-Moves : (code : ℕ) → Moves 0 (read_match code)
unfolding read_match
read_match-Moves code =
    if-Moves 0 (leb (length length_base) code) _ _ (throw-Moves _ 0 _)
      (weaker _ _ (>>=-Moves _ 0 _ _ (bits-Moves _) (λ extra. read_distance-Moves _)))

read_symbol-Moves : (symbol : ℕ) → Moves 0 (read_symbol symbol)
unfolding read_symbol
read_symbol-Moves symbol =
    if-Moves 0 (ltb symbol 256) _ _
      (>>=-Moves 0 0 _ _ (write_byte-Moves symbol) (λ u. gives-Moves _))
      (if-Moves 0 (symbol == 256) _ _ leave_block-Moves (read_match-Moves _))

decode_symbol-Moves : Moves 1 decode_symbol
unfolding decode_symbol
decode_symbol-Moves =
    >>=-Moves 0 1 _ _ (field-Moves _ _ (λ s. refl) (λ s. refl))
      (λ table. >>=-Moves 1 0 _ _ (decode-Moves table) read_symbol-Moves)

-- The work that is left: two for each bit, and one for a stored block that is to be copied.
abbrev rank : State → ℕ
rank stored = 1
rank zlib_header = 0
rank block_header = 0
rank compressed = 0
rank checksum = 0
rank ended = 0

abbrev work : Inflater → ℕ
work s = (length s.input * 8 - s.bit_at) * 2 + rank s.state

-- A step that goes on has less work left.
unfoldable Shortens : Inflater → Inflater × Read Step → Type 0
Shortens s (t, got continue) = work t < work s
Shortens s (t, got wait) = Unit {0}
Shortens s (t, got done) = Unit {0}
Shortens s (t, need_input) = Unit {0}
Shortens s (t, corrupt c) = Unit {0}

rank_bound : (state : State) → rank state ≤ 1
rank_bound stored = omega arith
rank_bound zlib_header = omega arith
rank_bound block_header = omega arith
rank_bound compressed = omega arith
rank_bound checksum = omega arith
rank_bound ended = omega arith

moved-Shortens : (s : Inflater) (r : Inflater × Read Step) → Behaves 1 s r → Shortens s r
unfolding Behaves Shortens
moved-Shortens s (t, got continue) m =
    let same = ap (λ (x : List ℕ). length x * 8) m.input_same in
    let f = m.forward in let e = m.ends (omega arith) in let k = rank_bound t.state in omega arith
moved-Shortens s (t, got wait) m = tt
moved-Shortens s (t, got done) m = tt
moved-Shortens s (t, need_input) m = tt
moved-Shortens s (t, corrupt c) m = tt

-- The end of a stored block leaves its state.
abbrev Left : Inflater → Inflater → Type 0
Left s t = (t.input ≡ s.input) × (s.bit_at ≤ t.bit_at) × (rank t.state ≡ 0)

unfoldable Leaves : Inflater → Inflater × Read Step → Type 0
Leaves s (t, got continue) = Left s t
Leaves s (t, got wait) = Unit {0}
Leaves s (t, got done) = Unit {0}
Leaves s (t, need_input) = Unit {0}
Leaves s (t, corrupt c) = Unit {0}

leave_block-Leaves : (s : Inflater) → Leaves s (leave_block s)
unfolding leave_block Leaves enter align resume
leave_block-Leaves s = left s.last_block s.checksummed
  where
    left :
        (last zlib_stream : Bool)
        → Leaves s (
            if not last
            then enter block_header s
            else if zlib_stream
            then enter checksum s
            else (align >>= (λ u. enter ended)) s)
    left false zlib_stream = (refl, omega arith, refl)
    left true true = (refl, omega arith, refl)
    left true false = (refl, omega arith, refl)

stored_end-Leaves : (s : Inflater) → Leaves s (stored_end s)
unfolding stored_end Leaves
stored_end-Leaves s = elim (Bool-cases (ltb 0 s.stored_remaining)) [
  | inl more ↦ rw (stored_end, more) tt
  | inr over ↦ rw (stored_end, over) (leave_block-Leaves s)
]

Leaves-from :
    (s t : Inflater) (r : Inflater × Read Step)
    → t.input ≡ s.input
    → s.bit_at ≤ t.bit_at
    → Leaves t r
    → Leaves s r
unfolding Leaves
Leaves-from s t (u, got continue) e f (same, on, zero_rank) = (same ∙ e, omega arith, zero_rank)
Leaves-from s t (u, got wait) e f l = tt
Leaves-from s t (u, got done) e f l = tt
Leaves-from s t (u, need_input) e f l = tt
Leaves-from s t (u, corrupt c) e f l = tt

copy_stored-Leaves : (s : Inflater) → Leaves s (copy_stored s)
unfolding copy_stored resume write Leaves
copy_stored-Leaves s =
    let from = s.bit_at / 8 in
    let count = min (length s.input - from) s.stored_remaining in
    let copied = take count (drop from s.input) in
    let after : Inflater = record s {
      written = s.written ++ copied;
      bit_at = s.bit_at + count * 8;
      stored_remaining = s.stored_remaining - count;
    } in
    elim (Bool-cases (ltb 0 count)) [
      | inr nothing ↦ rw (copy_stored, nothing) (stored_end-Leaves s)
      | inl some ↦ elim (Bool-cases (ltb s.size (length s.written + length copied))) [
        | inl over ↦ rw (copy_stored, some, over) tt
        | inr fits ↦
            rw (copy_stored, some, fits)
              (Leaves-from s after (stored_end after) refl (omega arith) (stored_end-Leaves after))
      ]
    ]

left-Shortens :
    (s : Inflater) (r : Inflater × Read Step) → rank s.state ≡ 1 → Leaves s r → Shortens s r
unfolding Leaves Shortens
left-Shortens s (t, got continue) k (same, on, zero_rank) =
    let e = ap (λ (x : List ℕ). length x * 8) same in omega arith
left-Shortens s (t, got wait) k l = tt
left-Shortens s (t, got done) k l = tt
left-Shortens s (t, need_input) k l = tt
left-Shortens s (t, corrupt c) k l = tt

compare-Moves : (sum : ℕ) → Moves 0 (compare_checksum sum)
unfolding compare_checksum Moves Behaves
compare-Moves sum s = elim (Bool-cases (not (sum == adler32 s.written))) [
  | inl other ↦ rw (compare_checksum, other) tt
  | inr same ↦ rw (compare_checksum, same) (still s s refl refl)
]

read_checksum-Moves : Moves 32 read_checksum
unfolding read_checksum
read_checksum-Moves = >>=-Moves 0 32 _ _ align-Moves (λ u. >>=-Moves 8 24 _ _ (bits-Moves 8) (λ a.
    >>=-Moves 8 16 _ _ (bits-Moves 8) (λ b.
      >>=-Moves 8 8 _ _ (bits-Moves 8)
        (λ c. >>=-Moves 8 0 _ _ (bits-Moves 8) (λ d. compare-Moves _)))))

step-Shortens : (s : Inflater) → Shortens s (step s)
unfolding step step_in Moves Shortens
step-Shortens s =
    elim s.state as (λ (x : State). s.state ≡ x → Shortens s (step_in x s)) [
      | zlib_header ↦ λ e.
          moved-Shortens s _ (lower 16 1 read_zlib_header (omega arith) read_zlib_header-Moves s)
      | block_header ↦ λ e.
          moved-Shortens s _ (lower 3 1 read_block_header (omega arith) read_block_header-Moves s)
      | stored ↦ λ e. left-Shortens s _ (ap rank e) (copy_stored-Leaves s)
      | compressed ↦ λ e. moved-Shortens s _ (decode_symbol-Moves s)
      | checksum ↦
          λ e. moved-Shortens s _ (lower 32 1 read_checksum (omega arith) read_checksum-Moves s)
      | ended ↦ λ e. tt
    ]
      refl

pause-ends : (s : Inflater) → (pause s).1 ≢ err out_of_fuel
unfolding pause
pause-ends s = elim (Bool-cases s.at_end) [
  | inl over ↦ rw (pause, over) (λ e. cc)
  | inr more ↦ rw (pause, more) (λ e. cc)
]

finish-ends : (s : Inflater) → (finish s).1 ≢ err out_of_fuel
unfolding finish
finish-ends s = elim (Bool-cases (not (length s.written == s.size))) [
  | inl wrong ↦ rw (finish, wrong) (λ e. cc)
  | inr right ↦ rw (finish, right) (λ e. cc)
]

after_step-ends :
    (fuel : ℕ) (s : Inflater) (r : Inflater × Read Step)
    → Shortens s r
    → work s < suc fuel
    → ((t : Inflater) → work t < fuel → (push_loop fuel t).1 ≢ err out_of_fuel)
    → (after_step (push_loop fuel) s.bit_at r).1 ≢ err out_of_fuel
unfolding after_step Shortens
after_step-ends fuel s (t, got continue) k h more = more t (omega arith)
after_step-ends fuel s (t, got wait) k h more = pause-ends t
after_step-ends fuel s (t, got done) k h more = finish-ends t
after_step-ends fuel s (t, need_input) k h more = pause-ends _
after_step-ends fuel s (t, corrupt c) k h more = λ e. cc

push_loop-ends : (fuel : ℕ) (s : Inflater) → work s < fuel → (push_loop fuel s).1 ≢ err out_of_fuel
unfolding push_loop
push_loop-ends zero s h = absurd (omega arith)
push_loop-ends (suc fuel) s h =
    after_step-ends fuel s (step s) (step-Shortens s) h (push_loop-ends fuel)

-- The loop of `push` ends on every chunk and from every state: its rounds are never used up.
pub push-ends :
    (chunk : List ℕ) (at_end : Bool) (s : Inflater) → (push chunk at_end s).1 ≢ err out_of_fuel
unfolding push
push-ends chunk at_end s = elim (Bool-cases (is_done s)) [
  | inl over ↦ rw (push, over) (λ e. cc)
  | inr more ↦
      let t : Inflater = record (append chunk s) { at_end = s.at_end || at_end } in
      let k = rank_bound t.state in rw (push, more) (push_loop-ends (rounds t) t (omega arith))
]
