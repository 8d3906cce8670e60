-- ===== src/Runs/Ui/Dashboard.antt =====
-- crates/runs/src/ui/screens/dashboard.rs: the numbers of runs and calculations, and the lists of the
-- active and of the finished runs.
pub mod Counts
pub mod Jobs
use ensurer_v.Prelude.{
  ℕ, ◌+◌, ◌-◌, ◌*◌, ◌/◌, String, append, Bool, true, false, not, ◌||◌, List, [], ◌∷◌, ◌++◌, map,
  length, is_empty, select, min, ltb, nat_eq, show_nat, repeat, pad_end, pad_start, order_by,
  if◌then◌else◌,
}
use ensurer_v.Common.CalcStatus
use ensurer_v.Common.CalcStatus.{CalcStatus, is_terminal}
use ensurer_v.Common.RunStatus
use ensurer_v.Common.RunStatus.{RunStatus}
use ensurer_v.Common.Model.{Run, Calculation}
use ensurer_v.Runs.App.State.{App}
use ensurer_v.Runs.Ui.Colors.{
  Color, Line, Span, Panel, styled, raw, in_color, bold_in, run_status_color, calc_status_color,
  overlay0, surface1, subtext0, text, mauve, yellow, teal,
}

-- `==` of the statuses
abbrev pub is_run_status : RunStatus → RunStatus → Bool
is_run_status RunStatus.pending RunStatus.pending = true
is_run_status RunStatus.running RunStatus.running = true
is_run_status RunStatus.succeeded RunStatus.succeeded = true
is_run_status RunStatus.failed RunStatus.failed = true
is_run_status RunStatus.cancelled RunStatus.cancelled = true
is_run_status RunStatus.partially_succeeded RunStatus.partially_succeeded = true
is_run_status _ _ = false

abbrev pub is_calc_status : CalcStatus → CalcStatus → Bool
is_calc_status CalcStatus.pending CalcStatus.pending = true
is_calc_status CalcStatus.running CalcStatus.running = true
is_calc_status CalcStatus.retrying CalcStatus.retrying = true
is_calc_status CalcStatus.succeeded CalcStatus.succeeded = true
is_calc_status CalcStatus.failed CalcStatus.failed = true
is_calc_status CalcStatus.cancelled CalcStatus.cancelled = true
is_calc_status _ _ = false

unfoldable pub stat_line : String → ℕ → Color → Line
unfolding show_nat repeat
stat_line label count color =
    styled (append "  " (pad_end 16 label)) (in_color subtext0)
    ∷ styled (pad_start 4 (show_nat count)) (bold_in color)
    ∷ []

-- The closures `counts`.
unfoldable pub run_count : App → RunStatus → ℕ
run_count app status = length (select (λ (r : Run). is_run_status r.status status) app.runs)

unfoldable pub all_statuses : List Run → List CalcStatus
all_statuses [] = []
all_statuses (r ∷ rs) = map (λ (c : Calculation). c.status) r.calculations ++ all_statuses rs

unfoldable pub calc_count : App → CalcStatus → ℕ
unfolding all_statuses
calc_count app status = length (select (λ s. is_calc_status s status) (all_statuses app.runs))

abbrev pub rule : Line
rule = styled "────────────────────────────" (in_color surface1) ∷ []

unfoldable pub render_run_stats : App → Panel (List Line)
unfolding stat_line run_count run_status_color
render_run_stats app = record {
  title = styled " Runs " (in_color mauve);
  border = surface1;
  content =
      stat_line "pending" (run_count app RunStatus.pending) (run_status_color RunStatus.pending)
      ∷ stat_line "running" (run_count app RunStatus.running) (run_status_color RunStatus.running)
      ∷ stat_line "succeeded" (run_count app RunStatus.succeeded)
          (run_status_color RunStatus.succeeded)
      ∷ stat_line "failed" (run_count app RunStatus.failed) (run_status_color RunStatus.failed)
      ∷ stat_line "cancelled" (run_count app RunStatus.cancelled)
          (run_status_color RunStatus.cancelled)
      ∷ stat_line "partial" (run_count app RunStatus.partially_succeeded)
          (run_status_color RunStatus.partially_succeeded)
      ∷ rule
      ∷ stat_line "total" (length app.runs) text
      ∷ [];
}

unfoldable pub render_calc_stats : App → Panel (List Line)
unfolding stat_line calc_count calc_status_color all_statuses
render_calc_stats app = record {
  title = styled " Calculations " (in_color mauve);
  border = surface1;
  content =
      stat_line "pending" (calc_count app CalcStatus.pending) (calc_status_color CalcStatus.pending)
      ∷ stat_line "running" (calc_count app CalcStatus.running)
          (calc_status_color CalcStatus.running)
      ∷ stat_line "retrying" (calc_count app CalcStatus.retrying)
          (calc_status_color CalcStatus.retrying)
      ∷ stat_line "succeeded" (calc_count app CalcStatus.succeeded)
          (calc_status_color CalcStatus.succeeded)
      ∷ stat_line "failed" (calc_count app CalcStatus.failed) (calc_status_color CalcStatus.failed)
      ∷ stat_line "cancelled" (calc_count app CalcStatus.cancelled)
          (calc_status_color CalcStatus.cancelled)
      ∷ rule
      ∷ stat_line "total" (length (all_statuses app.runs)) text
      ∷ [];
}

unfoldable pub section_header : String → Line
unfolding repeat
section_header title =
    styled (append "  " (append title " ")) (bold_in yellow)
    ∷ styled (repeat "─" 40) (in_color surface1)
    ∷ []

abbrev pub dim_line : String → Line
dim_line t = styled t (in_color overlay0) ∷ []

-- The cells that are filled; not asked for when the total is 0.
unfoldable pub filled_cells : ℕ → ℕ → ℕ → ℕ
filled_cells done total width = min (done * width / total) width

unfoldable pub progress_bar : ℕ → ℕ → ℕ → String
unfolding filled_cells repeat
progress_bar done total width =
    if nat_eq total 0
    then append " [" (append (repeat "░" width) "]")
    else append " [" (
        append (repeat "█" (filled_cells done total width))
          (append (repeat "░" (width - filled_cells done total width)) "]"))

-- The times are milliseconds; a time to come is 0 seconds ago.
unfoldable pub relative_time : ℕ → ℕ → String
unfolding show_nat
relative_time at now =
    let secs = (now - at) / 1000 in
    if ltb secs 60
    then append (show_nat secs) "s ago"
    else if ltb secs 3600
    then append (show_nat (secs / 60)) "m ago"
    else if ltb secs 86400
    then append (show_nat (secs / 3600)) "h ago"
    else append (show_nat (secs / 86400)) "d ago"

-- How many of a run's calculations have ended, and have succeeded.
unfoldable pub done_count : Run → ℕ
done_count run = length (select (λ (c : Calculation). is_terminal c.status) run.calculations)

unfoldable pub succeeded_count : Run → ℕ
succeeded_count run =
    length
      (select (λ (c : Calculation). is_calc_status c.status CalcStatus.succeeded) run.calculations)

unfoldable pub active_job_line : Run → ℕ → Line
unfolding done_count progress_bar relative_time run_status_color show_nat
active_job_line run now =
    let total = length run.calculations in
    styled "  ● " (in_color (run_status_color run.status))
    ∷ styled (pad_end 16 run.jira_issue_id) (bold_in text)
    ∷ styled (progress_bar (done_count run) total 12) (in_color teal)
    ∷ styled (append "  " (append (show_nat (done_count run)) (append "/" (show_nat total))))
        (in_color subtext0)
    ∷ styled (append "  " (relative_time run.created_at now)) (in_color overlay0)
    ∷ []

unfoldable pub icon_of : RunStatus → String
icon_of RunStatus.succeeded = "✓"
icon_of RunStatus.failed = "✗"
icon_of RunStatus.cancelled = "⊘"
icon_of RunStatus.partially_succeeded = "~"
icon_of _ = " "

unfoldable pub history_line : Run → ℕ → Line
unfolding succeeded_count icon_of relative_time run_status_color show_nat RunStatus.to_string
history_line run now =
    let color = run_status_color run.status in
    styled (append "  " (append (icon_of run.status) " ")) (in_color color)
    ∷ styled (pad_end 14 (RunStatus.to_string run.status)) (in_color color)
    ∷ styled (pad_end 16 run.jira_issue_id) (in_color text)
    ∷ styled
        (append (show_nat (succeeded_count run))
          (append "/" (append (show_nat (length run.calculations)) " calcs")))
        (in_color subtext0)
    ∷ styled (append "  " (relative_time run.updated_at now)) (in_color overlay0)
    ∷ []

abbrev pub is_active : Run → Bool
is_active r = is_run_status r.status RunStatus.running || is_run_status r.status RunStatus.pending

-- `!matches!(r.status, RunStatus::Running | RunStatus::Pending)`
abbrev pub is_past : RunStatus → Bool
is_past RunStatus.running = false
is_past RunStatus.pending = false
is_past _ = true

unfoldable pub active_runs : App → List Run
active_runs app = select is_active app.runs

-- The latest update first; `sort_by` is stable.
abbrev pub is_later : Run → Run → Bool
is_later a b = ltb b.updated_at a.updated_at

unfoldable pub past_runs : App → List Run
unfolding order_by
past_runs app = order_by is_later (select (λ (r : Run). is_past r.status) app.runs)

abbrev lines_or : Line → (Run → Line) → List Run → List Line
lines_or other line [] = other ∷ []
lines_or other line (r ∷ rs) = line r ∷ map line rs

unfoldable pub job_lines : App → ℕ → List Line
unfolding section_header active_runs past_runs active_job_line history_line
job_lines app now =
    section_header "Active Jobs"
    ∷ (lines_or (dim_line "  no active jobs") (λ r. active_job_line r now) (active_runs app)
        ++ (raw "" ∷ [])
          ∷ section_header "History"
          ∷ lines_or (dim_line "  no completed jobs yet") (λ r. history_line r now) (past_runs app))

-- The lines, and whether a scrollbar is drawn, in an area of that height.
unfoldable pub render_jobs : ℕ → App → ℕ → List Line × Bool
unfolding job_lines
render_jobs height app now =
    let lines = job_lines app now in (lines, ltb (height - 2) (length lines))
