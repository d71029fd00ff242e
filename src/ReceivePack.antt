-- ===== src/ReceivePack.antt =====
-- apps/api/src/git/receive-pack.ts: the commands of a push and the report on it. A string is a list
-- of code units; the platform's TextDecoder and TextEncoder are parameters.
mod Examples
pub mod Report
pub mod Request
pub mod Screen
use open_relic.Prelude.{ℕ, List, [], ◌∷◌, Bool}
use open_relic.Prelude.Codes.{Text, codes, text_eq, starts_with}
use open_relic.Prelude.Strings.{member}
use open_relic.Prelude.{◌||◌}
use open_relic.GitObject.{zero_oid}

abbrev pub report_status_capability : Text
report_status_capability = codes "report-status"

abbrev pub report_status_v2_capability : Text
report_status_v2_capability = codes "report-status-v2"

abbrev pub side_band_64k_capability : Text
side_band_64k_capability = codes "side-band-64k"

abbrev pub request_capabilities : List Text
request_capabilities =
    report_status_capability
    ∷ report_status_v2_capability
    ∷ side_band_64k_capability
    ∷ codes "atomic"
    ∷ codes "push-options"
    ∷ codes "ofs-delta"
    ∷ codes "object-format=sha1"
    ∷ []

unfoldable pub understands_capability : Text → Bool
understands_capability capability =
    member capability request_capabilities || starts_with capability (codes "agent=")

pub record ReceivePackCommand : Type 0 where
  pub old_oid : Text
  pub new_oid : Text
  pub name : Text

pub record ReceivePackRequest : Type 0 where
  pub commands : List ReceivePackCommand
  pub capabilities : List Text

unfoldable pub is_create : ReceivePackCommand → Bool
is_create command = text_eq command.old_oid zero_oid

unfoldable pub is_delete : ReceivePackCommand → Bool
is_delete command = text_eq command.new_oid zero_oid
