-- ===== src/Pack/Action.antt =====
-- The state of `readPack`, and a step on it, which a throw ends.
use open_relic.Prelude.{ℕ, List, [], Bool, true, false, Result, ok, err, thrown}
use open_relic.Prelude.Codes.{Text}
use open_relic.Pack.{Fault, PackErrorCode}
use open_relic.Pack.Stream.{PackStream, new_stream}
use open_relic.Pack.Recent.{RecentPackBases, new_recent}
use open_relic.Pack.Writes.{PackWrites, new_writes}

-- The locals of `readPack`. The offsets stand with the latest one first.
pub record Unpacking : Type 0 where
  pub stream : PackStream
  pub writes : PackWrites
  pub recent : RecentPackBases
  pub oid_by_offset : List (ℕ × Text)

unfoldable pub new_unpacking : List (List ℕ) → Bool → Unpacking
new_unpacking body batched = record {
  stream = new_stream body;
  writes = new_writes batched;
  recent = new_recent;
  oid_by_offset = [];
}

abbrev pub Action {ℓ} : Type ℓ → Type ℓ
Action A = Unpacking → Unpacking × Result Fault A

infixl 5 ◌>>=◌ ◌>>◌
unfoldable pub resume {ℓ κ} :
    {A : Type ℓ} {B : Type κ}
    → (A → Action B)
    → Unpacking × Result Fault A
    → Unpacking × Result Fault B
resume more (s, ok a) = more a s
resume more (s, err e) = (s, err e)

abbrev pub ◌>>=◌ {ℓ κ} : {A : Type ℓ} {B : Type κ} → Action A → (A → Action B) → Action B
(m >>= more) s = resume more (m s)

abbrev pub ◌>>◌ {κ} : {B : Type κ} → Action (Unit {0}) → Action B → Action B
first >> more = first >>= (λ _. more)

abbrev pub gives {ℓ} : {A : Type ℓ} → A → Action A
gives a s = (s, ok a)

abbrev pub fails {ℓ} : {A : Type ℓ} → Fault → Action A
fails e s = (s, err e)

abbrev pub modify : (Unpacking → Unpacking) → Action (Unit {0})
modify f s = (f s, ok tt)

abbrev pub throw_if : Bool → PackErrorCode → Action (Unit {0})
throw_if false e = gives tt
throw_if true e = fails (thrown e)

-- A read of the stream. What the stream is behind a throw is not looked at any more.
unfoldable pub read_answer {ℓ} :
    {A : Type ℓ} → Unpacking → Result Fault (A × PackStream) → Unpacking × Result Fault A
read_answer s (ok (a, stream)) = (record s { stream = stream }, ok a)
read_answer s (err e) = (s, err e)

abbrev pub reading {ℓ} : {A : Type ℓ} → (PackStream → Result Fault (A × PackStream)) → Action A
reading read s = read_answer s (read s.stream)
