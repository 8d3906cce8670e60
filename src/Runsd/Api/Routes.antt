-- ===== src/Runsd/Api/Routes.antt =====
-- crates/runsd/src/api/routes.rs: the requests for runs and calculations, and their handlers.
pub mod Sound
pub mod Statuses
use ensurer_v.Prelude.{ℕ, String, Bool, Option, List, [], ◌∷◌}
use ensurer_v.Common.Model.{SubmitRunRequest}
use ensurer_v.Runsd.Actor.World.{Env, World}
use ensurer_v.Runsd.Actor.Supervisor.{Supervisor, Setup}
use ensurer_v.Runsd.Api.Handlers
use ensurer_v.Runsd.Api.Handlers.{Handled, ListRunsParams}

pub data ApiRequest : Type 0 where
  submit_run : SubmitRunRequest → ApiRequest
  list_runs : ListRunsParams → ApiRequest
  get_run cancel_run : (id : String) → ApiRequest
  get_calculation retry_calculation cancel_calculation get_result : (id : String) → ApiRequest

module _ (env : Env) (setup : Setup) (takes : ℕ → Bool) (read_file : String → Option String) where
  unfoldable pub route : ApiRequest → Supervisor → Handled
  unfolding Handlers.submit_run Handlers.list_runs Handlers.get_run Handlers.cancel_run
      Handlers.get_calculation Handlers.retry_calculation Handlers.cancel_calculation
      Handlers.get_result
  route (submit_run body) s = Handlers.submit_run env setup takes read_file body s
  route (list_runs params) s = Handlers.list_runs env setup takes read_file params s
  route (get_run id) s = Handlers.get_run env setup takes read_file id s
  route (cancel_run id) s = Handlers.cancel_run env setup takes read_file id s
  route (get_calculation id) s = Handlers.get_calculation env setup takes read_file id s
  route (retry_calculation id) s = Handlers.retry_calculation env setup takes read_file id s
  route (cancel_calculation id) s = Handlers.cancel_calculation env setup takes read_file id s
  route (get_result id) s = Handlers.get_result env setup takes read_file id s

  -- Requests, one after another.
  unfoldable pub route_all : List ApiRequest → Supervisor → World → Supervisor × World
  unfolding route
  route_all [] s w = (s, w)
  route_all (r ∷ rs) s w = let ((reply, s'), w') = route r s w in route_all rs s' w'
