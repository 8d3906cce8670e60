-- ===== src/Runsd/Api/Routes/Sound.antt =====
-- The tables stay sound under the requests of the API (crates/runsd/src/api).
use ensurer_v.Prelude.{
  ℕ, String, Bool, true, false, Option, some, none, List, [], ◌∷◌, Result, ok, err, Option-cases,
  inl, inr,
}
use ensurer_v.Common.RunStatus.{is_failed}
use ensurer_v.Common.Model.{CalcId, RunId, Calculation, SubmitRunRequest, ValidationError, validate}
use ensurer_v.Runsd.Error.{AppError}
use ensurer_v.Runsd.Actor.Db.{DbCmd}
use ensurer_v.Runsd.Actor.World.{Env, World}
use ensurer_v.Runsd.Actor.Calc.Sound.{IsFair, IsGood, send-IsGood}
use ensurer_v.Runsd.Actor.Supervisor.{Supervisor, Setup}
use ensurer_v.Runsd.Actor.Supervisor.Keeps.{submit_run-IsGood, retry_calc-IsGood}
use ensurer_v.Runsd.Api.Handlers
use ensurer_v.Runsd.Api.Handlers.{Handled}
use ensurer_v.Runsd.Api.Routes.{ApiRequest, route, route_all}

module _ (env : Env) (setup : Setup) (takes : ℕ → Bool) (read_file : String → Option String)
    (fair : IsFair env) where
  abbrev Keeps : Handled → Type 0
  Keeps handled = (w : World) → IsGood env w → IsGood env (handled w).1

  on_found-Keeps :
      (act : Calculation → Handled) (s : Supervisor) (r : Result AppError (Option Calculation))
      → ((calc : Calculation) → Keeps (act calc))
      → Keeps (Handlers.on_found env setup takes read_file act s r)
  on_found-Keeps act s (err e) k w h = h
  on_found-Keeps act s (ok none) k w h = h
  on_found-Keeps act s (ok (some calc)) k w h = k calc w h

  with_calc-Keeps :
      (act : CalcId → Calculation → Handled) (id : String) (s : Supervisor)
      → ((calc_id : CalcId) (calc : Calculation) → Keeps (act calc_id calc))
      → Keeps (Handlers.with_calc env setup takes read_file act id s)
  unfolding Handlers.with_calc
  with_calc-Keeps act id s k w h = elim (Option-cases (env.codec.uuid_parse id)) [
    | inl e ↦ rw e h
    | inr (calc_id, e) ↦ rw e (
        on_found-Keeps (act calc_id) s _ (k calc_id) _
          (send-IsGood env fair (DbCmd.get_calculation calc_id) w tt h))
  ]

  retry_if-Keeps :
      (b : Bool) (run_id : RunId) (calc_id : CalcId) (s : Supervisor)
      → Keeps (Handlers.retry_if env setup takes read_file b run_id calc_id s)
  retry_if-Keeps true run_id calc_id s w h = retry_calc-IsGood env setup fair run_id calc_id s w h
  retry_if-Keeps false run_id calc_id s w h = h

  ask_submit-Keeps :
      (b : Bool) (body : SubmitRunRequest) (s : Supervisor) (w : World)
      → IsGood env w
      → IsGood env (Handlers.ask_submit env setup takes read_file b body s w).1
  unfolding Handlers.ask_submit
  ask_submit-Keeps true body s w h = submit_run-IsGood env setup fair _ _ _ s w h
  ask_submit-Keeps false body s w h = h

  submit_valid-Keeps :
      (body : SubmitRunRequest) (s : Supervisor) (r : Result ValidationError (Unit {0}))
      → Keeps (Handlers.submit_valid env setup takes read_file body s r)
  submit_valid-Keeps body s (err (ValidationError.field m)) w h = h
  submit_valid-Keeps body s (ok u) w h = ask_submit-Keeps (takes w.step) body s w h

  route-Keeps : (r : ApiRequest) (s : Supervisor) → Keeps (route env setup takes read_file r s)
  unfolding route
  route-Keeps (ApiRequest.submit_run body) s w h = submit_valid-Keeps body s (validate body) w h
  route-Keeps (ApiRequest.list_runs params) s w h =
      send-IsGood env fair (DbCmd.list_runs _ _ _ _) w tt h
  route-Keeps (ApiRequest.get_run id) s w h = elim (Option-cases (env.codec.uuid_parse id)) [
    | inl e ↦ rw e h
    | inr (run_id, e) ↦ rw e (send-IsGood env fair (DbCmd.get_run run_id) w tt h)
  ]
  route-Keeps (ApiRequest.cancel_run id) s w h = elim (Option-cases (env.codec.uuid_parse id)) [
    | inl e ↦ rw e h
    | inr (run_id, e) ↦ rw e h
  ]
  route-Keeps (ApiRequest.get_calculation id) s w h = with_calc-Keeps _ id s (λ _ _ v k. k) w h
  route-Keeps (ApiRequest.retry_calculation id) s w h =
      with_calc-Keeps _ id s
        (λ calc_id calc. retry_if-Keeps (is_failed calc.status) calc.run_id calc_id s) w h
  route-Keeps (ApiRequest.cancel_calculation id) s w h = with_calc-Keeps _ id s (λ _ _ v k. k) w h
  route-Keeps (ApiRequest.get_result id) s w h = with_calc-Keeps _ id s (λ _ _ v k. k) w h

  -- For an environment in which the others send only what the actors issue, and chrono can hold the
  -- times that the database actor reads, sound tables with proper keys stay so during any requests
  -- of the API, interleaved with any commands the others issue.
  pub route_all-IsGood :
      (requests : List ApiRequest) (s : Supervisor) (w : World)
      → IsGood env w
      → IsGood env (route_all env setup takes read_file requests s w).1
  unfolding route_all
  route_all-IsGood [] s w h = h
  route_all-IsGood (r ∷ rs) s w h =
      let ((reply, s'), v) = route env setup takes read_file r s w in
      route_all-IsGood rs s' v (route-Keeps r s w h)
