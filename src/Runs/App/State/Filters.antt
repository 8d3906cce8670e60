-- ===== src/Runs/App/State/Filters.antt =====
-- The filter by status in crates/runs/src/app/state.rs.
use ensurer_v.Prelude.{◌≡◌, refl, false, some, List, [], ◌∷◌, ◌==◌, select}
use ensurer_v.Common.RunStatus
use ensurer_v.Common.RunStatus.{RunStatus}
use ensurer_v.Common.Model.{Run}
use ensurer_v.Runs.App.State.{App, FilterState, is_visible, visible_runs}

retrying_no_status : (s : RunStatus) → (RunStatus.to_string s == "retrying") ≡ false
unfolding RunStatus.to_string
retrying_no_status RunStatus.pending = refl
retrying_no_status RunStatus.running = refl
retrying_no_status RunStatus.succeeded = refl
retrying_no_status RunStatus.failed = refl
retrying_no_status RunStatus.cancelled = refl
retrying_no_status RunStatus.partially_succeeded = refl

hidden :
    (f : FilterState) (runs : List Run)
    → f.status ≡ some "retrying"
    → select (is_visible f) runs ≡ []
unfolding is_visible
hidden f [] e = refl
hidden f (r ∷ rs) e = rw e (rw (retrying_no_status r.status) (hidden f rs e))

-- The status `retrying` of the filter overlay hides every run, since no run has a status of that
-- name.
pub visible_runs-retrying :
    (app : App) → app.filter.status ≡ some "retrying" → visible_runs app ≡ []
unfolding visible_runs
visible_runs-retrying app e = hidden app.filter app.runs e
