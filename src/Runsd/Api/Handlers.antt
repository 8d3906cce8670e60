-- ===== src/Runsd/Api/Handlers.antt =====
-- crates/runsd/src/api/handlers.rs: each handler on the database actor and the supervisor.

use ensurer_v.Prelude.{
  ℕ, String, Bool, true, false, Option, none, some, List, [], ◌∷◌, length, min, nat_eq, Result, ok,
  err, ok_or, if◌then◌else◌,
}
use mathlib.Core.Option
use ensurer_v.Common.RunStatus.{is_failed}
use ensurer_v.Common.Model.{
  RunId, CalcId, Run, Calculation, SubmitRunRequest, ListRunsResponse, ValidationError, field,
  validate,
}
use ensurer_v.Runsd.Error.{AppError}
use ensurer_v.Runsd.Actor.Db.{DbCmd}
use ensurer_v.Runsd.Actor.World.{Env, Act, next, send}
use ensurer_v.Runsd.Actor.Supervisor
use ensurer_v.Runsd.Actor.Supervisor.{Supervisor, Setup}
use ensurer_v.Runsd.Api.Cursor.{parse_cursor, cursor_of}

-- What a handler answers with, beside an error: the status and the body.
pub data ApiReply : Type 0 where
  created : RunId → ApiReply
  runs : ListRunsResponse → ApiReply
  run : Run → ApiReply
  calculation : Calculation → ApiReply
  no_content accepted : ApiReply
  octets : String → ApiReply

-- The supervisor is the one that the handler's command finds.
abbrev pub Handled : Type 0
Handled = Act (Result AppError ApiReply × Supervisor)

pub record ListRunsParams : Type 0 where
  pub status : Option String
  pub limit : Option ℕ
  pub cursor : Option String

abbrev limit_of : Option ℕ → ℕ
limit_of none = 20
limit_of (some n) = min n 100

abbrev last_run : List Run → Option Run
last_run [] = none
last_run (r ∷ []) = some r
last_run (r ∷ s ∷ rest) = last_run (s ∷ rest)

abbrev refused : AppError → Supervisor → Handled
refused e s w = ((err e, s), w)

-- The mailbox of the supervisor, by the step, and the files of results.
module _ (env : Env) (setup : Setup) (takes : ℕ → Bool) (read_file : String → Option String) where
  abbrev parsed : {A : Type 0} → String → Option A → Result AppError A
  parsed message id = ok_or id (AppError.bad_request message)

  -- `SupervisorHandle::submit_run`, when the mailbox takes the command in time or not.
  unfoldable pub ask_submit :
      Bool → SubmitRunRequest → Supervisor → Act (Result AppError RunId × Supervisor)
  unfolding Supervisor.submit_run
  ask_submit true body s w =
      Supervisor.submit_run env setup body.jira_issue_id "anonymous" body.calculations s w
  ask_submit false body s w =
      ((err (AppError.service_unavailable "supervisor mailbox full"), s), next w)

  abbrev pub created_by : Result AppError RunId × Supervisor → Result AppError ApiReply × Supervisor
  created_by (ok id, s) = (ok (created id), s)
  created_by (err e, s) = (err e, s)

  abbrev pub submit_valid :
      SubmitRunRequest → Supervisor → Result ValidationError (Unit {0}) → Handled
  submit_valid body s (err (field message)) w = refused (AppError.bad_request message) s w
  submit_valid body s (ok _) w =
      let (answer, w') = ask_submit (takes w.step) body s w in (created_by answer, w')

  unfoldable pub submit_run : SubmitRunRequest → Supervisor → Handled
  unfolding validate ask_submit
  submit_run body s w = submit_valid body s (validate body) w

  abbrev next_cursor : ℕ → List Run → Option String
  next_cursor limit found =
      if nat_eq (length found) limit
      then Option.map (cursor_of env.codec) (last_run found)
      else none

  abbrev pub listed : ℕ → Result AppError (List Run) → Result AppError ApiReply
  listed limit (err e) = err e
  listed limit (ok found) =
      ok (runs (record { runs = found; next_cursor = next_cursor limit found }))

  unfoldable pub list_runs : ListRunsParams → Supervisor → Handled
  unfolding send parse_cursor
  list_runs params s w =
      let limit = limit_of params.limit in
      let (cat, id) = parse_cursor params.cursor in
      let (reply, w') = send env (DbCmd.list_runs params.status limit cat id) w in
      ((listed limit reply, s), w')

  abbrev pub found_run : Result AppError (Option Run) → Result AppError ApiReply
  found_run (err e) = err e
  found_run (ok none) = err AppError.not_found
  found_run (ok (some r)) = ok (run r)

  abbrev get_parsed : Supervisor → Result AppError RunId → Handled
  get_parsed s (err e) w = refused e s w
  get_parsed s (ok id) w =
      let (reply, w') = send env (DbCmd.get_run id) w in ((found_run reply, s), w')

  unfoldable pub get_run : String → Supervisor → Handled
  unfolding send
  get_run id s w = get_parsed s (parsed "invalid run id" (env.codec.uuid_parse id)) w

  abbrev cancel_parsed : Supervisor → Result AppError RunId → Handled
  cancel_parsed s (err e) w = refused e s w
  cancel_parsed s (ok id) w = ((ok no_content, Supervisor.cancel_run env setup id s), next w)

  unfoldable pub cancel_run : String → Supervisor → Handled
  unfolding Supervisor.cancel_run
  cancel_run id s w = cancel_parsed s (parsed "invalid run id" (env.codec.uuid_parse id)) w

  -- The handlers of a calculation begin alike: with its id, and its row.
  abbrev pub on_found :
      (Calculation → Handled) → Supervisor → Result AppError (Option Calculation) → Handled
  on_found act s (err e) w = refused e s w
  on_found act s (ok none) w = refused AppError.not_found s w
  on_found act s (ok (some calc)) w = act calc w

  abbrev on_parsed :
      (CalcId → Calculation → Handled) → Supervisor → Result AppError CalcId → Handled
  on_parsed act s (err e) w = refused e s w
  on_parsed act s (ok id) w =
      let (reply, w') = send env (DbCmd.get_calculation id) w in on_found (act id) s reply w'

  unfoldable pub with_calc : (CalcId → Calculation → Handled) → String → Supervisor → Handled
  unfolding send
  with_calc act id s w = on_parsed act s (parsed "invalid calc id" (env.codec.uuid_parse id)) w

  unfoldable pub get_calculation : String → Supervisor → Handled
  unfolding with_calc
  get_calculation id s = with_calc (λ calc_id calc w. ((ok (calculation calc), s), w)) id s

  abbrev pub accepted_by :
      Result AppError (Unit {0}) × Supervisor → Result AppError ApiReply × Supervisor
  accepted_by (ok _, s) = (ok accepted, s)
  accepted_by (err e, s) = (err e, s)

  abbrev pub retry_if : Bool → RunId → CalcId → Supervisor → Handled
  retry_if false run_id calc_id s w =
      refused (AppError.conflict "only calculations in 'failed' status can be retried") s w
  retry_if true run_id calc_id s w =
      let (answer, w') = Supervisor.retry_calc env setup run_id calc_id s w in
      (accepted_by answer, w')

  unfoldable pub retry_calculation : String → Supervisor → Handled
  unfolding with_calc Supervisor.retry_calc
  retry_calculation id s =
      with_calc (λ calc_id calc. retry_if (is_failed calc.status) calc.run_id calc_id s) id s

  unfoldable pub cancel_calculation : String → Supervisor → Handled
  unfolding with_calc Supervisor.cancel_calc
  cancel_calculation id s =
      with_calc
        (λ calc_id calc w. ((ok no_content, Supervisor.cancel_calc env setup calc_id s), next w)) id
        s

  abbrev file_of : Option String → Result AppError ApiReply
  file_of none = err AppError.not_found
  file_of (some bytes) = ok (octets bytes)

  abbrev pub result_of : Option String → Result AppError ApiReply
  result_of none = err AppError.not_found
  result_of (some path) = file_of (read_file path)

  unfoldable pub get_result : String → Supervisor → Handled
  unfolding with_calc
  get_result id s = with_calc (λ calc_id calc w. ((result_of calc.result_path, s), w)) id s
