-- ===== src/Pack.antt =====
-- apps/api/src/pack.ts: reading a pack in one pass.
mod Examples
pub mod Stream
pub mod Header
pub mod Recent
pub mod Writes
pub mod Action
pub mod Unpack
use open_relic.Prelude.{List, ℕ, Option, Stop}
use open_relic.Prelude.Codes.{Text}
use open_relic.GitObject.{ObjectType}

pub data PackErrorCode : Type 0 where
  not_a_pack unsupported_version truncated checksum_mismatch trailing_bytes missing_base :
      PackErrorCode
  object_too_large corrupt : PackErrorCode

abbrev pub Fault : Type 0
Fault = Stop PackErrorCode

pub record PackDelta : Type 0 where
  pub base_oid : Text
  pub bytes : List ℕ

pub record PackBase : Type 0 where
  pub type : ObjectType
  pub bytes : List ℕ

pub record PackObject : Type 0 where
  pub oid : Text
  pub type : ObjectType
  pub bytes : List ℕ
  pub delta : Option PackDelta
  pub compressed : Option (List ℕ)
