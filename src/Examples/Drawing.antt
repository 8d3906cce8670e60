-- ===== src/Examples/Drawing.antt =====
-- What the terminal client draws (crates/runs/src/ui), at concrete inputs.
use mathlib.Core.List.{Perm}
use ensurer_v.Prelude.{ℕ, ◌≡◌, ◌≢◌, refl, arith, [], ◌∷◌, ◌++◌, All, ◌==◌, if◌then◌else◌}
use ensurer_v.Common.CalcStatus.{CalcStatus}
use ensurer_v.Common.RunStatus.{RunStatus}
use ensurer_v.Common.Model.{Run}
use ensurer_v.Runs.App.State
use ensurer_v.Runs.App.State.{App}
use ensurer_v.Runs.Ui.Colors.{text}
use ensurer_v.Runs.Ui.Dashboard.{active_runs, past_runs, progress_bar, relative_time}
use ensurer_v.Runs.Ui.Dashboard.Jobs.{active_runs-past_runs, IsActive, InOrder, Descends}
use ensurer_v.Runs.Ui.Highlight.{highlight_match, panicked}
use ensurer_v.Runs.Ui.Highlight.Texts.{IsShown, highlight_match-IsShown}
use ensurer_v.Runs.Ui.Highlight.Ascii.{IsLowercase, highlight_match-painted}
use ensurer_v.Runs.Ui.StatusBar.{position_string}
use ensurer_v.Examples.Samples.{calc_7}

abbrev run_of : ℕ → RunStatus → Run
run_of id status = record {
  id = id;
  jira_issue_id = "PROJ-1";
  submitted_by = "anonymous";
  status = status;
  created_at = 0;
  updated_at = id;
  calculations = calc_7 ∷ record calc_7 { id = 8; status = CalcStatus.succeeded } ∷ [];
}

abbrev app : App
app = record State.new {
  runs = run_of 1 RunStatus.running ∷ run_of 2 RunStatus.failed ∷ run_of 3 RunStatus.succeeded ∷ [];
}

active_runs-past_runs_example :
    All IsActive (active_runs app)
    × InOrder (active_runs app) app.runs
    × All (λ (r : Run). ¬ IsActive r) (past_runs app)
    × Perm (active_runs app ++ past_runs app) app.runs
    × Descends (λ (r : Run). r.updated_at) (past_runs app)
active_runs-past_runs_example = active_runs-past_runs app

highlight_match-IsShown_example : IsShown "PROJ-1" (highlight_match (λ s. s) "OJ" text "PROJ-1")
highlight_match-IsShown_example = highlight_match-IsShown (λ s. s) "OJ" text "PROJ-1"

same-IsLowercase : IsLowercase (λ s. s)
same-IsLowercase = record { len-lower = λ s a. refl }

highlight_match-painted_example : highlight_match (λ s. s) "OJ" text "PROJ-1" ≢ panicked
highlight_match-painted_example =
    highlight_match-painted (λ s. s) same-IsLowercase "OJ" text (omega arith) "PROJ-1" (omega arith)

progress_bar_lem : progress_bar 1 2 4 ≡ " [██░░]"
unfolding progress_bar
progress_bar_lem = refl

relative_time_lem : relative_time 0 7200000 ≡ "2h ago"
unfolding relative_time
relative_time_lem = refl

position_string_lem : position_string app ≡ "1/3"
unfolding position_string
position_string_lem = refl

-- A lowercasing that lengthens the text before the match: the slices are out of bounds.
highlight_match_lem : highlight_match (λ s. if s == "İx" then "i̇x" else s) "x" text "İx" ≡ panicked
unfolding highlight_match
highlight_match_lem = refl
