-- ===== src/Inflate/Tails.antt =====
-- apps/api/src/inflate.ts: what is kept of the input, and what is handed back, are ends of what was pushed.
use open_relic.Prelude.{
  ℕ, zero, suc, ◌/◌, ◌≡◌, refl, sym, ap, ◌∙◌, List, [], ◌++◌, Bool, true, take, drop, length, ◌==◌,
  not, Bool-cases, ◌⊎◌, inl, inr, ok, err, append-nil, append_assoc, take-append-drop,
}
use mathlib.Core.Path.{subst}
use open_relic.Inflate.Reader.{Inflater, Read, got, need_input, corrupt, is_done}
use open_relic.Inflate.Steps.{Step, continue, wait, done, step}
use open_relic.Inflate.Push.{Pushed, finish, append, compact, pause, after_step, push_loop, push}
use open_relic.Inflate.Keeping.{Kept, Keeps, step_in-Keeps}

-- The bytes are the last ones of the others.
abbrev pub IsTail : List ℕ → List ℕ → Type 0
IsTail end whole = (front : List ℕ) × (whole ≡ front ++ end)

drop-IsTail : (count : ℕ) (end whole : List ℕ) → IsTail end whole → IsTail (drop count end) whole
drop-IsTail count end whole (front, e) = (
  front ++ take count end,
  e
      ∙ ap (λ x. front ++ x) (sym (take-append-drop count end))
      ∙ sym (append_assoc front (take count end) (drop count end)),
)

-- What is behind a push that throws nothing: nothing is handed back before the stream has ended.
unfoldable pub Handed : List ℕ → Pushed → Type 0
Handed whole (t, ok u) =
    IsTail t.input whole × ((t.leftover ≡ []) ⊎ ((is_done t ≡ true) × IsTail t.leftover whole))
Handed whole (t, err e) = Unit {0}

module _ (whole : List ℕ) where
  pause-Handed : (s : Inflater) → IsTail s.input whole → s.leftover ≡ [] → Handed whole (pause s)
  unfolding pause Handed compact
  pause-Handed s h e = elim (Bool-cases s.at_end) [
    | inl over ↦ rw (pause, over) tt
    | inr more ↦ elim (Bool-cases (s.bit_at / 8 == 0)) [
      | inl nothing ↦ rw (pause, more, nothing) (h, inl e)
      | inr some_bytes ↦
          rw (pause, more, some_bytes) (drop-IsTail (s.bit_at / 8) s.input whole h, inl e)
    ]
  ]

  finish-Handed : (s : Inflater) → IsTail s.input whole → Handed whole (finish s)
  unfolding finish Handed is_done
  finish-Handed s h = elim (Bool-cases (not (length s.written == s.size))) [
    | inl wrong ↦ rw (finish, wrong) tt
    | inr right ↦
        rw (finish, right)
          ((whole, sym (append-nil whole)), inr (refl, drop-IsTail (s.bit_at / 8) s.input whole h))
  ]

  after_step-Handed :
      (more : Inflater → Pushed) (resume_at : ℕ) (s : Inflater) (r : Inflater × Read Step)
      → ((t : Inflater) → IsTail t.input whole → t.leftover ≡ [] → Handed whole (more t))
      → IsTail s.input whole
      → s.leftover ≡ []
      → Kept s r.0
      → Handed whole (after_step more resume_at r)
  unfolding after_step Handed
  after_step-Handed more resume_at s (t, answer) go h e (same, f) =
      let k = subst (λ x. IsTail x whole) (sym same) h in by answer k (f ∙ e)
    where
      by :
          (a : Read Step)
          → IsTail t.input whole
          → t.leftover ≡ []
          → Handed whole (after_step more resume_at (t, a))
      by (got continue) k g = go t k g
      by (got wait) k g = pause-Handed t k g
      by (got done) k g = finish-Handed t k
      by need_input k g = pause-Handed (record t { bit_at = resume_at }) k g
      by (corrupt c) k g = tt

  push_loop-Handed :
      (fuel : ℕ) (s : Inflater)
      → IsTail s.input whole
      → s.leftover ≡ []
      → Handed whole (push_loop fuel s)
  unfolding push_loop Handed step Keeps
  push_loop-Handed zero s h e = tt
  push_loop-Handed (suc fuel) s h e =
      after_step-Handed (push_loop fuel) s.bit_at s (step s) (push_loop-Handed fuel) h e
        (step_in-Keeps s.state s)

pub push-Handed :
    (whole chunk : List ℕ) (at_end : Bool) (s : Inflater)
    → IsTail s.input whole
    → s.leftover ≡ []
    → Handed (whole ++ chunk) (push chunk at_end s)
unfolding push append Handed
push-Handed whole chunk at_end s (front, e) f = elim (Bool-cases (is_done s)) [
  | inl over ↦ rw (push, over) tt
  | inr more ↦ elim (Bool-cases (length s.input == 0)) [
    | inl empty ↦ rw (push, more, empty) (push_loop-Handed (whole ++ chunk) _ _ (whole, refl) f)
    | inr some_bytes ↦
        rw (push, more, some_bytes)
          (push_loop-Handed (whole ++ chunk) _ _
            (front, ap (λ x. x ++ chunk) e ∙ append_assoc front s.input chunk) f)
  ]
]
