-- ===== src/Runsd/Api/Graphql/Types.antt =====
-- crates/runsd/src/api/graphql.rs: the types of the GraphQL schema, and the conversions into them.
use ensurer_v.Prelude.{ℕ, String, Option, List, map, ℤ, as_i32}
use mathlib.Core.Option
use ensurer_v.Common.CalcStatus.{CalcStatus}
use ensurer_v.Common.RunStatus.{RunStatus}
use ensurer_v.Common.ErrorKind
use ensurer_v.Common.Model.{Run, Calculation}
use ensurer_v.Runsd.Codec.{Codec}

-- What the file takes from other crates, beside the codec.
pub record Texts : Type 0 where
  -- `to_rfc3339` of a number of milliseconds
  pub rfc3339 : ℕ → String
  -- the texts of the errors of `str::parse::<Uuid>` and of `serde_json::from_str`
  pub uuid_error : String → String
  pub json_error : String → String

pub data RunStatusGql : Type 0 where
  pending running succeeded failed cancelled partially_succeeded : RunStatusGql

unfoldable pub run_status_gql : RunStatus → RunStatusGql
run_status_gql RunStatus.pending = RunStatusGql.pending
run_status_gql RunStatus.running = RunStatusGql.running
run_status_gql RunStatus.succeeded = RunStatusGql.succeeded
run_status_gql RunStatus.failed = RunStatusGql.failed
run_status_gql RunStatus.cancelled = RunStatusGql.cancelled
run_status_gql RunStatus.partially_succeeded = RunStatusGql.partially_succeeded

pub data CalcStatusGql : Type 0 where
  pending running retrying succeeded failed cancelled : CalcStatusGql

unfoldable pub calc_status_gql : CalcStatus → CalcStatusGql
calc_status_gql CalcStatus.pending = CalcStatusGql.pending
calc_status_gql CalcStatus.running = CalcStatusGql.running
calc_status_gql CalcStatus.retrying = CalcStatusGql.retrying
calc_status_gql CalcStatus.succeeded = CalcStatusGql.succeeded
calc_status_gql CalcStatus.failed = CalcStatusGql.failed
calc_status_gql CalcStatus.cancelled = CalcStatusGql.cancelled

pub record CalcGql : Type 0 where
  pub id : String
  pub run_id : String
  pub kind : String
  pub input_json : String
  pub idempotency_key : String
  pub status : CalcStatusGql
  pub attempt : ℤ  -- i32
  pub max_attempts : ℤ  -- i32
  pub error_kind : Option String
  pub error_message : Option String
  pub result_path : Option String
  pub created_at : String
  pub started_at : Option String
  pub completed_at : Option String
  pub updated_at : String

pub record RunGql : Type 0 where
  pub id : String
  pub jira_issue_id : String
  pub submitted_by : String
  pub status : RunStatusGql
  pub created_at : String
  pub updated_at : String
  pub calculations : List CalcGql

pub record NewCalcInput : Type 0 where
  pub kind : String
  pub input : Option String

module _ (codec : Codec) (texts : Texts) where
  -- `CalcGql::from`
  unfoldable pub calc_gql : Calculation → CalcGql
  unfolding calc_status_gql as_i32 ErrorKind.to_string
  calc_gql c = record {
    id = codec.uuid_text c.id;
    run_id = codec.uuid_text c.run_id;
    kind = c.kind;
    input_json = codec.json_text c.input_json;
    idempotency_key = c.idempotency_key;
    status = calc_status_gql c.status;
    attempt = as_i32 c.attempt;
    max_attempts = as_i32 c.max_attempts;
    error_kind = Option.map ErrorKind.to_string c.error_kind;
    error_message = c.error_message;
    result_path = c.result_path;
    created_at = texts.rfc3339 c.created_at;
    started_at = Option.map texts.rfc3339 c.started_at;
    completed_at = Option.map texts.rfc3339 c.completed_at;
    updated_at = texts.rfc3339 c.updated_at;
  }

  -- `RunGql::from`
  unfoldable pub run_gql : Run → RunGql
  unfolding run_status_gql calc_gql
  run_gql r = record {
    id = codec.uuid_text r.id;
    jira_issue_id = r.jira_issue_id;
    submitted_by = r.submitted_by;
    status = run_status_gql r.status;
    created_at = texts.rfc3339 r.created_at;
    updated_at = texts.rfc3339 r.updated_at;
    calculations = map calc_gql r.calculations;
  }
