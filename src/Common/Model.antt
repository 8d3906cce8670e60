-- ===== src/Common/Model.antt =====
-- The structs of crates/common/src/model.rs and types.rs, and the check of a submission.
-- A `Uuid` is its 128-bit number. A `DateTime<Utc>` is its number of milliseconds since 1970.
pub mod Validate
use ensurer_v.Prelude.{
  ℕ, suc, String, append, Option, List, [], ◌∷◌, Result, ok, err, is_empty, is_blank, show_nat,
  if◌then◌else◌,
}
use ensurer_v.Common.CalcStatus.{CalcStatus}
use ensurer_v.Common.RunStatus.{RunStatus}
use ensurer_v.Common.ErrorKind.{ErrorKind}
use ensurer_v.Common.Json.{Json}

abbrev pub RunId : Type 0
RunId = ℕ

abbrev pub CalcId : Type 0
CalcId = ℕ

pub record Calculation : Type 0 where
  pub id : CalcId
  pub run_id : RunId
  pub kind : String
  pub input_json : Json
  pub idempotency_key : String
  pub status : CalcStatus
  pub attempt : ℕ  -- u32
  pub max_attempts : ℕ  -- u32
  pub next_attempt_at : Option ℕ
  pub lease_owner : Option String
  pub lease_expires_at : Option ℕ
  pub error_kind : Option ErrorKind
  pub error_message : Option String
  pub result_path : Option String
  pub created_at : ℕ
  pub started_at : Option ℕ
  pub completed_at : Option ℕ
  pub updated_at : ℕ

pub record Run : Type 0 where
  pub id : RunId
  pub jira_issue_id : String
  pub submitted_by : String
  pub status : RunStatus
  pub created_at : ℕ
  pub updated_at : ℕ
  pub calculations : List Calculation

pub record NewCalc : Type 0 where
  pub kind : String
  pub input : Json

pub data ValidationError : Type 0 where
  field : String → ValidationError

pub record SubmitRunRequest : Type 0 where
  pub jira_issue_id : String
  pub calculations : List NewCalc

pub record ProblemDetail : Type 0 where
  pub type_uri : String
  pub title : String
  pub status : ℕ
  pub detail : Option String

pub record ListRunsResponse : Type 0 where
  pub runs : List Run
  pub next_cursor : Option String

-- The loop over `calculations.iter().enumerate()`, from the index `i`.
unfoldable pub validate_kinds : ℕ → List NewCalc → Result ValidationError (Unit {0})
validate_kinds i [] = ok tt
validate_kinds i (calc ∷ calcs) =
    let rest = validate_kinds (suc i) calcs in
    if is_blank calc.kind
    then err (field (append "calculations[" (append (show_nat i) "].kind must not be empty")))
    else rest

unfoldable pub validate : SubmitRunRequest → Result ValidationError (Unit {0})
unfolding validate_kinds
validate req =
    if is_blank req.jira_issue_id
    then err (field "jira_issue_id must not be empty")
    else if is_empty req.calculations
    then err (field "at least one calculation is required")
    else validate_kinds 0 req.calculations
