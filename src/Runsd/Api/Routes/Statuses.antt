-- ===== src/Runsd/Api/Routes/Statuses.antt =====
-- The statuses of the answers of the API (crates/runsd/src/api/handlers.rs,
-- crates/runsd/src/api/error.rs).
use ensurer_v.Prelude.{ℕ, ◌≤◌, String, Bool, true, false, Option, Result, ok, err}
use ensurer_v.Common.Model.{Run}
use ensurer_v.Runsd.Error.{AppError}
use ensurer_v.Runsd.Actor.World.{Env, World}
use ensurer_v.Runsd.Actor.Calc.Sound.{IsFair, IsGood}
use ensurer_v.Runsd.Actor.Run.Refresh.{IsQuiet}
use ensurer_v.Runsd.Actor.Supervisor.{Supervisor, Setup}
use ensurer_v.Runsd.Api.Error.{into_response}
use ensurer_v.Runsd.Api.Handlers
use ensurer_v.Runsd.Api.Handlers.{Handled, ApiReply}
use ensurer_v.Runsd.Api.Routes.{ApiRequest}

-- No error, or one that is the client's.
abbrev pub IsMild : Result AppError ApiReply → Type 0
IsMild (ok reply) = Unit
IsMild (err e) = (into_response e).status ≤ 499

-- The requests that insert no row.
abbrev pub inserts : ApiRequest → Bool
inserts (ApiRequest.submit_run body) = true
inserts _ = false

module _ (env : Env) (setup : Setup) (takes : ℕ → Bool) (read_file : String → Option String)
    (fair : IsFair env) (quiet : IsQuiet env) where
  abbrev Mild : Handled → Type 0
  Mild handled = (w : World) → IsGood env w → IsMild (handled w).0.0
