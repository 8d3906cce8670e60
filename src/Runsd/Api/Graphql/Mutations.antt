-- ===== src/Runsd/Api/Graphql/Mutations.antt =====
-- crates/runsd/src/api/graphql.rs: the resolvers of the mutations, on the supervisor that they find.
use ensurer_v.Prelude.{
  ℕ, String, append, Bool, true, false, Option, none, some, List, Result, ok, err, traverse,
  enumerate_from, is_blank, is_empty, show_nat, if◌then◌else◌,
}
use ensurer_v.Common.RunStatus.{is_failed}
use ensurer_v.Common.Json.{Json, object, no_members}
use ensurer_v.Common.Model.{RunId, CalcId, Calculation, NewCalc}
use ensurer_v.Runsd.Error.{AppError, error_text}
use ensurer_v.Runsd.Actor.Db.{DbCmd}
use ensurer_v.Runsd.Actor.World.{Env, Act, next, send}
use ensurer_v.Runsd.Actor.Supervisor
use ensurer_v.Runsd.Actor.Supervisor.{Supervisor, Setup}
use ensurer_v.Runsd.Api.Handlers
use ensurer_v.Runsd.Api.Graphql.{GqlResult, read_id, answered}
use ensurer_v.Runsd.Api.Graphql.Types.{Texts, NewCalcInput}

-- What a mutation answers, and the supervisor that it leaves.
abbrev pub Mutated : Type 0 → Type 0
Mutated A = Act (GqlResult A × Supervisor)

abbrev pub refused : {A : Type 0} → String → Supervisor → Mutated A
refused message s w = ((err message, s), w)

module _ (env : Env) (setup : Setup) (takes : ℕ → Bool) (read_file : String → Option String)
    (texts : Texts) where
  abbrev read_as : String → Option Json → GqlResult Json
  read_as text none = err (append "invalid JSON: " (texts.json_error text))
  read_as text (some v) = ok v

  -- No input stands for an object without members.
  unfoldable pub input_of : Option String → GqlResult Json
  input_of none = ok (object no_members)
  input_of (some text) = read_as text (env.codec.json_parse text)

  abbrev pub with_input : String → GqlResult Json → GqlResult NewCalc
  with_input kind (ok v) = ok (record { kind = kind; input = v })
  with_input kind (err e) = err e

  -- The closure of the loop, on a calculation and its place.
  unfoldable pub new_calc : ℕ × NewCalcInput → GqlResult NewCalc
  unfolding input_of
  new_calc (i, nc) =
      if is_blank nc.kind
      then err (append "calculations[" (append (show_nat i) "].kind must not be empty"))
      else with_input nc.kind (input_of nc.input)

  abbrev pub answered_by :
      {A B : Type 0} → (A → B) → Result AppError A × Supervisor → GqlResult B × Supervisor
  answered_by f (answer, s) = (answered env texts f answer, s)

  -- The end of `submit_run`.
  abbrev pub submit_calcs : String → Supervisor → GqlResult (List NewCalc) → Mutated String
  submit_calcs jira_issue_id s (err e) w = refused e s w
  submit_calcs jira_issue_id s (ok calcs) w =
      let (answer, w') =
        Handlers.ask_submit env setup takes read_file (takes w.step)
          (record { jira_issue_id = jira_issue_id; calculations = calcs }) s w in
      (answered_by env.codec.uuid_text answer, w')

  unfoldable pub submit_run : String → List NewCalcInput → Supervisor → Mutated String
  unfolding new_calc Handlers.ask_submit error_text
  submit_run jira_issue_id calculations s =
      if is_blank jira_issue_id
      then refused "jiraIssueId must not be empty" s
      else if is_empty calculations
      then refused "at least one calculation is required" s
      else submit_calcs jira_issue_id s (traverse new_calc (enumerate_from 0 calculations))

  abbrev pub cancel_parsed : Supervisor → GqlResult RunId → Mutated Bool
  cancel_parsed s (err e) w = refused e s w
  cancel_parsed s (ok id) w = ((ok true, Supervisor.cancel_run env setup id s), next w)

  unfoldable pub cancel_run : String → Supervisor → Mutated Bool
  unfolding Supervisor.cancel_run
  cancel_run id s = cancel_parsed s (read_id env texts "run" id)

  -- The mutations of a calculation begin alike: with its id, and its row.
  abbrev pub on_found :
      (Calculation → Mutated Bool)
      → Supervisor
      → Result AppError (Option Calculation)
      → Mutated Bool
  on_found act s (err e) w = refused (error_text e) s w
  on_found act s (ok none) w = refused "calculation not found" s w
  on_found act s (ok (some calc)) w = act calc w

  abbrev pub on_parsed :
      (CalcId → Calculation → Mutated Bool) → Supervisor → GqlResult CalcId → Mutated Bool
  on_parsed act s (err e) w = refused e s w
  on_parsed act s (ok id) w =
      let (reply, w') = send env (DbCmd.get_calculation id) w in on_found (act id) s reply w'

  unfoldable pub with_calc :
      (CalcId → Calculation → Mutated Bool) → String → Supervisor → Mutated Bool
  unfolding send error_text
  with_calc act id s = on_parsed act s (read_id env texts "calc" id)

  abbrev pub retry_if : Bool → RunId → CalcId → Supervisor → Mutated Bool
  retry_if false run_id calc_id s w =
      refused "only calculations in 'failed' status can be retried" s w
  retry_if true run_id calc_id s w =
      let (answer, w') = Supervisor.retry_calc env setup run_id calc_id s w in
      (answered_by (λ _. true) answer, w')

  unfoldable pub retry_calculation : String → Supervisor → Mutated Bool
  unfolding with_calc Supervisor.retry_calc error_text
  retry_calculation id s =
      with_calc (λ calc_id calc. retry_if (is_failed calc.status) calc.run_id calc_id s) id s

  unfoldable pub cancel_calculation : String → Supervisor → Mutated Bool
  unfolding with_calc Supervisor.cancel_calc
  cancel_calculation id s =
      with_calc (λ calc_id calc w. ((ok true, Supervisor.cancel_calc env setup calc_id s), next w))
        id s
