-- ===== src/Common/RunStatus.antt =====
-- `RunStatus` of crates/common/src/model.rs, with its `Display` and `FromStr`, and the status that
-- `derive_run_status` gives a run.
pub mod Derive
use ensurer_v.Prelude.{
  String, append, ◌≡◌, refl, Bool, true, false, ◌==◌, Result, ok, err, if◌then◌else◌, List,
  is_empty, any, select, length, nat_eq,
}
use ensurer_v.Common.CalcStatus.{CalcStatus}

pub data RunStatus : Type 0 where
  pending running succeeded failed cancelled partially_succeeded : RunStatus

unfoldable pub to_string : RunStatus → String
to_string pending = "pending"
to_string running = "running"
to_string succeeded = "succeeded"
to_string failed = "failed"
to_string cancelled = "cancelled"
to_string partially_succeeded = "partially_succeeded"

unfoldable pub from_str : String → Result String RunStatus
from_str s =
    if s == "pending"
    then ok pending
    else if s == "running"
    then ok running
    else if s == "succeeded"
    then ok succeeded
    else if s == "failed"
    then ok failed
    else if s == "cancelled"
    then ok cancelled
    else if s == "partially_succeeded"
    then ok partially_succeeded
    else err (append "unknown run status: " s)

-- Every status is read back from its text.
pub from_str-to_string : (s : RunStatus) → from_str (to_string s) ≡ ok s
unfolding from_str to_string
from_str-to_string pending = refl
from_str-to_string running = refl
from_str-to_string succeeded = refl
from_str-to_string failed = refl
from_str-to_string cancelled = refl
from_str-to_string partially_succeeded = refl

abbrev pub is_active : CalcStatus → Bool
is_active CalcStatus.running = true
is_active CalcStatus.retrying = true
is_active CalcStatus.pending = true
is_active _ = false

abbrev pub is_succeeded : CalcStatus → Bool
is_succeeded CalcStatus.succeeded = true
is_succeeded _ = false

abbrev pub is_failed : CalcStatus → Bool
is_failed CalcStatus.failed = true
is_failed _ = false

abbrev pub is_cancelled : CalcStatus → Bool
is_cancelled CalcStatus.cancelled = true
is_cancelled _ = false

-- The run status purely from the statuses of its calculations.
unfoldable pub derive_run_status : List CalcStatus → RunStatus
derive_run_status calc_statuses =
    if is_empty calc_statuses
    then pending
    else if any is_active calc_statuses
    then running
    else let succeeded_count = length (select is_succeeded calc_statuses) in
      let failed_count = length (select is_failed calc_statuses) in
      let cancelled_count = length (select is_cancelled calc_statuses) in
      let total = length calc_statuses in
      if nat_eq succeeded_count total
      then succeeded
      else if nat_eq cancelled_count total
      then cancelled
      else if nat_eq failed_count total
      then failed
      else partially_succeeded
