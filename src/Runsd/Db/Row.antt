-- ===== src/Runsd/Db/Row.antt =====
-- crates/runsd/src/db/row.rs: the rows of the tables and their conversions to the domain types.
-- An INTEGER column that the code writes is never negative, and is held by a natural number.
use ensurer_v.Prelude.{
  ℕ, ◌%◌, ◌^◌, String, Option, none, some, List, Result, ok, err, ◌>>=◌, map_err, transpose,
}
use ensurer_v.Common.CalcStatus
use ensurer_v.Common.RunStatus
use ensurer_v.Common.ErrorKind
use ensurer_v.Common.ErrorKind.{ErrorKind}
use ensurer_v.Common.Json.{Json}
use ensurer_v.Common.Model.{Run, Calculation}
use ensurer_v.Runsd.Codec.{Codec}
use ensurer_v.Runsd.Error.{
  RowConversionError, invalid_uuid, unknown_variant, invalid_json, invalid_timestamp,
}

pub record RunRow : Type 0 where
  pub id : String
  pub jira_issue_id : String
  pub submitted_by : String
  pub status : String
  pub created_at : ℕ
  pub updated_at : ℕ

pub record CalcRow : Type 0 where
  pub id : String
  pub run_id : String
  pub kind : String
  pub input_json : String
  pub idempotency_key : String
  pub status : String
  pub attempt : ℕ
  pub max_attempts : ℕ
  pub next_attempt_at : Option ℕ
  pub lease_owner : Option String
  pub lease_expires_at : Option ℕ
  pub error_kind : Option String
  pub error_message : Option String
  pub result_path : Option String
  pub created_at : ℕ
  pub started_at : Option ℕ
  pub completed_at : Option ℕ
  pub updated_at : ℕ

pub record EventRow : Type 0 where
  pub seq : ℕ
  pub run_id : Option String
  pub calculation_id : Option String
  pub kind : String
  pub payload_json : String
  pub created_at : ℕ

-- `as u32` of a number that is not negative.
abbrev pub as_u32 : ℕ → ℕ
as_u32 n = n % 2 ^ 32

module _ (codec : Codec) where
  -- The text of the source's error is not modelled.
  unfoldable pub parse_uuid : String → String → Result RowConversionError ℕ
  parse_uuid column text = elim (codec.uuid_parse text) [
    | none ↦ err (invalid_uuid column "uuid::Error")
    | some u ↦ ok u
  ]

  unfoldable pub parse_json : String → String → Result RowConversionError Json
  parse_json column text = elim (codec.json_parse text) [
    | none ↦ err (invalid_json column "serde_json::Error")
    | some v ↦ ok v
  ]

  unfoldable pub millis_to_dt : String → ℕ → Result RowConversionError ℕ
  millis_to_dt column ms = elim (codec.dt_of_millis ms) [
    | none ↦ err (invalid_timestamp column ms)
    | some t ↦ ok t
  ]

  unfoldable pub parse_error_kind : String → Result RowConversionError ErrorKind
  parse_error_kind s =
      map_err (λ _. unknown_variant "calculations.error_kind" s) (ErrorKind.from_str s)

  unfoldable pub parse_id : RunRow → Result RowConversionError ℕ
  unfolding parse_uuid
  parse_id row = parse_uuid "runs.id" row.id

  unfoldable pub try_into_run : RunRow → List Calculation → Result RowConversionError Run
  unfolding parse_uuid millis_to_dt
  try_into_run row calculations = do
    id ← parse_uuid "runs.id" row.id
    status ← map_err (λ _. unknown_variant "runs.status" row.status) (RunStatus.from_str row.status)
    created_at ← millis_to_dt "runs.created_at" row.created_at
    updated_at ← millis_to_dt "runs.updated_at" row.updated_at
    ok (record {
      id = id;
      jira_issue_id = row.jira_issue_id;
      submitted_by = row.submitted_by;
      status = status;
      created_at = created_at;
      updated_at = updated_at;
      calculations = calculations;
    })

  unfoldable pub try_into_calc : CalcRow → Result RowConversionError Calculation
  unfolding parse_uuid parse_json millis_to_dt parse_error_kind
  try_into_calc row = do
    id ← parse_uuid "calculations.id" row.id
    run_id ← parse_uuid "calculations.run_id" row.run_id
    status ←
        map_err (λ _. unknown_variant "calculations.status" row.status)
          (CalcStatus.from_str row.status)
    input_json ← parse_json "calculations.input_json" row.input_json
    error_kind ← transpose parse_error_kind row.error_kind
    next_attempt_at ← transpose (millis_to_dt "calculations.next_attempt_at") row.next_attempt_at
    lease_expires_at ← transpose (millis_to_dt "calculations.lease_expires_at") row.lease_expires_at
    created_at ← millis_to_dt "calculations.created_at" row.created_at
    started_at ← transpose (millis_to_dt "calculations.started_at") row.started_at
    completed_at ← transpose (millis_to_dt "calculations.completed_at") row.completed_at
    updated_at ← millis_to_dt "calculations.updated_at" row.updated_at
    ok (record {
      id = id;
      run_id = run_id;
      kind = row.kind;
      input_json = input_json;
      idempotency_key = row.idempotency_key;
      status = status;
      attempt = as_u32 row.attempt;
      max_attempts = as_u32 row.max_attempts;
      next_attempt_at = next_attempt_at;
      lease_owner = row.lease_owner;
      lease_expires_at = lease_expires_at;
      error_kind = error_kind;
      error_message = row.error_message;
      result_path = row.result_path;
      created_at = created_at;
      started_at = started_at;
      completed_at = completed_at;
      updated_at = updated_at;
    })
