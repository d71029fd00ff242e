-- ===== src/Pack/Recent.antt =====
-- `RecentPackBases`: a bounded window of the objects that a pack resolved last.
pub mod Laws
pub mod Window
use open_relic.Prelude.{
  ℕ, ◌+◌, ◌-◌, ◌*◌, Bool, ◌||◌, List, [], ◌∷◌, Option, none, some, length, ltb, if◌then◌else◌,
}
use open_relic.Prelude.Codes.{Text}
use open_relic.Prelude.Maps.{Map, lookup, insert, without}
use open_relic.Pack.{PackBase}

abbrev pub recent_base_bytes : ℕ
recent_base_bytes = 4 * 1024 * 1024

abbrev pub recent_base_count : ℕ
recent_base_count = 256

pub record RecentPackBases : Type 0 where
  pub entries : Map PackBase
  pub bytes : ℕ

abbrev pub new_recent : RecentPackBases
new_recent = record { entries = []; bytes = 0 }

unfoldable pub read : Text → RecentPackBases → Option PackBase
read oid r = lookup oid r.entries

-- The entry of the same name is taken out, and its bytes are given back.
unfoldable pub forget : Text → RecentPackBases → RecentPackBases
forget oid r = elim (lookup oid r.entries) [
  | none ↦ r
  | some previous ↦ record {
    entries = without oid r.entries;
    bytes = r.bytes - length previous.bytes;
  }
]

-- The loop that drops the oldest entries while there are too many of them, or too many bytes.
unfoldable pub evict : Map PackBase → ℕ → RecentPackBases
evict [] bytes = record { entries = []; bytes = bytes }
evict ((oid, oldest) ∷ entries) bytes =
    let rest = evict entries (bytes - length oldest.bytes) in
    if ltb recent_base_count (length ((oid, oldest) ∷ entries)) || ltb recent_base_bytes bytes
    then rest
    else record { entries = (oid, oldest) ∷ entries; bytes = bytes }

unfoldable pub remember : Text → PackBase → RecentPackBases → RecentPackBases
remember oid object r =
    let s = forget oid r in
    if ltb recent_base_bytes (length object.bytes)
    then s
    else evict (insert oid object s.entries) (s.bytes + length object.bytes)
