-- ===== src/Common/CalcStatus.antt =====
-- `CalcStatus` of crates/common/src/model.rs, with its `Display` and `FromStr`.
use ensurer_v.Prelude.{
  String, append, ◌≡◌, refl, Bool, true, false, ◌==◌, Result, ok, err, if◌then◌else◌,
}

pub data CalcStatus : Type 0 where
  pending running retrying succeeded failed cancelled : CalcStatus

unfoldable pub is_terminal : CalcStatus → Bool
is_terminal succeeded = true
is_terminal failed = true
is_terminal cancelled = true
is_terminal _ = false

unfoldable pub to_string : CalcStatus → String
to_string pending = "pending"
to_string running = "running"
to_string retrying = "retrying"
to_string succeeded = "succeeded"
to_string failed = "failed"
to_string cancelled = "cancelled"

unfoldable pub from_str : String → Result String CalcStatus
from_str s =
    if s == "pending"
    then ok pending
    else if s == "running"
    then ok running
    else if s == "retrying"
    then ok retrying
    else if s == "succeeded"
    then ok succeeded
    else if s == "failed"
    then ok failed
    else if s == "cancelled"
    then ok cancelled
    else err (append "unknown calc status: " s)

pub calc_status_eq : CalcStatus → CalcStatus → Bool
calc_status_eq a b = to_string a == to_string b

-- Every status is read back from its text.
pub from_str-to_string : (s : CalcStatus) → from_str (to_string s) ≡ ok s
unfolding from_str to_string
from_str-to_string pending = refl
from_str-to_string running = refl
from_str-to_string retrying = refl
from_str-to_string succeeded = refl
from_str-to_string failed = refl
from_str-to_string cancelled = refl
