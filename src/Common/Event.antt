-- ===== src/Common/Event.antt =====
-- `ServerEvent` and `SequencedEvent` of crates/common/src/event.rs.
use ensurer_v.Prelude.{ℕ, String, Bool, Option, none, some}
use ensurer_v.Common.CalcStatus.{CalcStatus}
use ensurer_v.Common.ErrorKind.{ErrorKind}
use ensurer_v.Common.Model.{RunId, CalcId}

-- The last field of each event is its time. A `fraction` is the bit pattern of the f32.
pub data ServerEvent : Type 0 where
  run_submitted : (run_id : RunId) (jira_issue_id : String) (at : ℕ) → ServerEvent
  calc_status_changed :
      (run_id : RunId) (calculation_id : CalcId) (from to : CalcStatus) (attempt at : ℕ)
      → ServerEvent
  calc_progress :
      (run_id : RunId) (calculation_id : CalcId) (fraction : ℕ) (note : Option String) (at : ℕ)
      → ServerEvent
  calc_completed :
      (run_id : RunId) (calculation_id : CalcId) (result_path : String) (at : ℕ) → ServerEvent
  calc_failed :
      (run_id : RunId) (calculation_id : CalcId) (error_kind : ErrorKind) (message : String)
      (retriable : Bool) (at : ℕ)
      → ServerEvent

unfoldable pub run_id : ServerEvent → Option RunId
run_id (run_submitted r _ _) = some r
run_id (calc_status_changed r _ _ _ _ _) = some r
run_id (calc_progress r _ _ _ _) = some r
run_id (calc_completed r _ _ _) = some r
run_id (calc_failed r _ _ _ _ _) = some r

unfoldable pub calc_id : ServerEvent → Option CalcId
calc_id (run_submitted _ _ _) = none
calc_id (calc_status_changed _ c _ _ _ _) = some c
calc_id (calc_progress _ c _ _ _) = some c
calc_id (calc_completed _ c _ _) = some c
calc_id (calc_failed _ c _ _ _ _) = some c

unfoldable pub event_kind_str : ServerEvent → String
event_kind_str (run_submitted _ _ _) = "run.submitted"
event_kind_str (calc_status_changed _ _ _ _ _ _) = "calculation.status_changed"
event_kind_str (calc_progress _ _ _ _ _) = "calculation.progress"
event_kind_str (calc_completed _ _ _ _) = "calculation.completed"
event_kind_str (calc_failed _ _ _ _ _ _) = "calculation.failed"

-- An event with the number of its row in the table `events`.
pub record SequencedEvent : Type 0 where
  pub seq : ℕ
  pub event : ServerEvent
