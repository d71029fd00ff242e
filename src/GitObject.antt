-- ===== src/GitObject.antt =====
-- apps/api/src/object.ts: what an object is on the wire.
use open_relic.Prelude.{ℕ, ◌*◌, Bool, ◌&&◌, ◌||◌, List, ◌++◌, length, all, replicate, leb, ◌==◌}
use open_relic.Prelude.Codes.{Text, codes, text_eq}
use open_relic.Prelude.Numbers.{to_string_decimal}

pub data ObjectType : Type 0 where
  commit tree blob tag : ObjectType

-- How a type is spelled.
abbrev pub type_name : ObjectType → Text
type_name commit = codes "commit"
type_name tree = codes "tree"
type_name blob = codes "blob"
type_name tag = codes "tag"

abbrev pub is_object_type : Text → Bool
is_object_type value =
    text_eq (codes "commit") value
    || (text_eq (codes "tree") value
        || (text_eq (codes "blob") value || text_eq (codes "tag") value))

-- A digit of `[0-9a-f]`.
abbrev pub is_lower_hex : ℕ → Bool
is_lower_hex c = leb 48 c && leb c 57 || leb 97 c && leb c 102

abbrev pub is_object_id : Text → Bool
is_object_id value = length value == 40 && all is_lower_hex value

abbrev pub zero_oid : Text
zero_oid = replicate 40 48

abbrev pub max_object_bytes : ℕ
max_object_bytes = 32 * 1024 * 1024

-- What is hashed: `<type> <size>\0<contents>`.
unfoldable pub loose_object : ObjectType → List ℕ → List ℕ
unfolding to_string_decimal
loose_object type contents =
    (type_name type ++ (codes " " ++ (to_string_decimal (length contents) ++ replicate 1 0)))
    ++ contents
