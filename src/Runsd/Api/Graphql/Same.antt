-- ===== src/Runsd/Api/Graphql/Same.antt =====
-- The mutations of the GraphQL API (crates/runsd/src/api/graphql.rs) against the requests of the REST API
-- (crates/runsd/src/api/handlers.rs).
use ensurer_v.Prelude.{
  ℕ, ◌≡◌, refl, String, Bool, true, false, Option, none, some, Option-cases, Result, ok, err, inl,
  inr,
}
use ensurer_v.Common.RunStatus.{is_failed}
use ensurer_v.Common.Model.{RunId, CalcId, Calculation}
use ensurer_v.Runsd.Error.{AppError}
use ensurer_v.Runsd.Actor.Db.{DbCmd}
use ensurer_v.Runsd.Actor.World.{Env, World, send}
use ensurer_v.Runsd.Actor.Supervisor
use ensurer_v.Runsd.Actor.Supervisor.{Supervisor, Setup}
use ensurer_v.Runsd.Api.Handlers
use ensurer_v.Runsd.Api.Handlers.{Handled, ApiReply}
use ensurer_v.Runsd.Api.Routes.{route}
use ensurer_v.Runsd.Api.Graphql.Types.{Texts}
use ensurer_v.Runsd.Api.Graphql.Mutations
use ensurer_v.Runsd.Api.Graphql.Mutations.{Mutated}
use ensurer_v.Runsd.Api.Graphql.Requests.{
  Mutation, submit_run, cancel_run, retry_calculation, cancel_calculation, request_of, effect_of,
  mutate, requested,
}
use ensurer_v.Runsd.Api.Graphql.Submits.{submit_run-same}

module _ (env : Env) (setup : Setup) (takes : ℕ → Bool) (read_file : String → Option String)
    (texts : Texts) where
  on_found-same :
      (act : Calculation → Mutated Bool) (act' : Calculation → Handled) (s : Supervisor)
      (r : Result AppError (Option Calculation)) (w : World)
      → ((calc : Calculation) (v : World) → effect_of (act calc v) ≡ effect_of (act' calc v))
      → effect_of (Mutations.on_found env setup takes read_file texts act s r w)
        ≡ effect_of (Handlers.on_found env setup takes read_file act' s r w)
  on_found-same act act' s (err e) w h = refl
  on_found-same act act' s (ok none) w h = refl
  on_found-same act act' s (ok (some calc)) w h = h calc w

  with_calc-same :
      (act : CalcId → Calculation → Mutated Bool) (act' : CalcId → Calculation → Handled)
      (id : String) (s : Supervisor) (w : World)
      → ((i : CalcId) (calc : Calculation) (v : World)
          → effect_of (act i calc v) ≡ effect_of (act' i calc v))
      → effect_of (Mutations.with_calc env setup takes read_file texts act id s w)
        ≡ effect_of (Handlers.with_calc env setup takes read_file act' id s w)
  unfolding Mutations.with_calc Handlers.with_calc
  with_calc-same act act' id s w h = elim (Option-cases (env.codec.uuid_parse id)) [
    | inl e ↦ rw e refl
    | inr (i, e) ↦ rw e (
        on_found-same (act i) (act' i) s (send env (DbCmd.get_calculation i) w).0
          (send env (DbCmd.get_calculation i) w).1 (h i))
  ]

  answered-same :
      (a : Result AppError (Unit {0}) × Supervisor) (w : World)
      → effect_of
          (Mutations.answered_by env setup takes read_file texts (λ (u : Unit {0}). true) a, w)
        ≡ effect_of (Handlers.accepted_by env setup takes read_file a, w)
  answered-same (ok u, s) w = refl
  answered-same (err e, s) w = refl

  retry_if-same :
      (b : Bool) (run_id : RunId) (calc_id : CalcId) (s : Supervisor) (w : World)
      → effect_of (Mutations.retry_if env setup takes read_file texts b run_id calc_id s w)
        ≡ effect_of (Handlers.retry_if env setup takes read_file b run_id calc_id s w)
  retry_if-same false run_id calc_id s w = refl
  retry_if-same true run_id calc_id s w =
      let (a, v) = Supervisor.retry_calc env setup run_id calc_id s w in answered-same a v

  -- A mutation succeeds or fails, and leaves the supervisor, the database and all else, as the request of
  -- the REST API that it stands for: a submission the one with its inputs read as JSON, an
  -- object without members where an input is left out. A submission with an input that is no JSON
  -- fails and changes nothing.
  pub mutate-same :
      (m : Mutation) (s : Supervisor) (w : World)
      → mutate env setup takes read_file texts m s w
        ≡ requested env setup takes read_file texts (request_of env m) s w
  unfolding mutate Mutations.cancel_run Mutations.retry_calculation Mutations.cancel_calculation
      route Handlers.cancel_run Handlers.retry_calculation Handlers.cancel_calculation
  mutate-same (submit_run jira_issue_id calculations) s w =
      submit_run-same env setup takes read_file texts jira_issue_id calculations s w
  mutate-same (cancel_run id) s w = elim (Option-cases (env.codec.uuid_parse id)) [
    | inl e ↦ rw e refl
    | inr (i, e) ↦ rw e refl
  ]
  mutate-same (retry_calculation id) s w =
      with_calc-same _ _ id s w
        (λ i calc v. retry_if-same (is_failed calc.status) calc.run_id i s v)
  mutate-same (cancel_calculation id) s w = with_calc-same _ _ id s w (λ i calc v. refl)
