-- ===== src/Runs/App/Update/Selection.antt =====
-- The keys that act on the selected runs or calculations: cancel, retry, yank
-- (crates/runs/src/app/update.rs).
use ensurer_v.Prelude.{
  ℕ, String, append, Bool, ◌&&◌, Option, none, some, List, [], ◌∷◌, ◌++◌, map, select, length,
  show_nat, leb, enumerate_from, if◌then◌else◌,
}
use mathlib.Core.Option
use ensurer_v.Common.RunStatus.{is_failed}
use ensurer_v.Common.Model.{RunId, Run, Calculation}
use ensurer_v.Runs.App.State.{
  App, Pane, Overlay, ConfirmAction, visible_runs, selected_run, selected_calc,
}
use ensurer_v.Runs.App.Message.{Effect, network, NetworkCmd}
use ensurer_v.Runs.App.Update.Command.{Updated, say}
use ensurer_v.Runs.App.Update.Overlays.{show}

abbrev pub quiet : App → Updated
quiet app = (app, [])

-- `range.contains`
abbrev pub in_range : ℕ × ℕ → ℕ → Bool
in_range (lo, hi) i = leb lo i && leb i hi

-- The visible runs in the range of the visual mode.
unfoldable pub runs_in : ℕ × ℕ → App → List Run
unfolding visible_runs
runs_in range app =
    map (λ (p : ℕ × Run). p.1)
      (select (λ (p : ℕ × Run). in_range range p.0) (enumerate_from 0 (visible_runs app)))

abbrev pub cancel_effect : Run → Effect
cancel_effect r = network (NetworkCmd.cancel_run r.id)

unfoldable pub cancel_range : ℕ × ℕ → App → Updated
unfolding runs_in
cancel_range range app =
    let chosen = runs_in range app in
    (
      record app {
        visual_anchor = none;
        status_bar = append "Cancelling " (append (show_nat (length chosen)) " runs…");
      },
      map cancel_effect chosen,
    )

abbrev pub ask : String → ConfirmAction → App → App
ask message action = show (Overlay.confirm (record { message = message; action = action }))

abbrev ask_cancel_run : App → Option Run → App
ask_cancel_run app none = app
ask_cancel_run app (some run) =
    ask (append "Cancel run " (append run.jira_issue_id "? (y/N)"))
      (ConfirmAction.cancel_run run.id) app

abbrev ask_cancel_calc : App → Option Calculation → App
ask_cancel_calc app none = app
ask_cancel_calc app (some calc) =
    ask (append "Cancel calculation " (append calc.kind "? (y/N)"))
      (ConfirmAction.cancel_calc calc.id) app

abbrev cancel_one : Pane → App → App
cancel_one Pane.run_list app = ask_cancel_run app (selected_run app)
cancel_one _ app = ask_cancel_calc app (selected_calc app)

unfoldable pub on_cancel : Option (ℕ × ℕ) → App → Updated
unfolding cancel_range selected_run selected_calc
on_cancel (some range) app = cancel_range range app
on_cancel none app = quiet (cancel_one app.pane app)

abbrev pub retry_effect : RunId → Calculation → Effect
retry_effect run_id c = network (NetworkCmd.retry_calc run_id c.id)

unfoldable pub retry_effects : List Run → List Effect
retry_effects [] = []
retry_effects (r ∷ rs) =
    map (retry_effect r.id) (select (λ (c : Calculation). is_failed c.status) r.calculations)
    ++ retry_effects rs

abbrev pub retry_with : App → List Effect → Updated
retry_with app [] = quiet (say "No failed calculations in selection" app)
retry_with app (e ∷ es) =
    (say (append "Retrying " (append (show_nat (length (e ∷ es))) " calculations…")) app, e ∷ es)

abbrev retry_one : App → Option Calculation → Updated
retry_one app none = quiet app
retry_one app (some calc) =
    if is_failed calc.status
    then (app, retry_effect calc.run_id calc ∷ [])
    else quiet (say "Only failed calculations can be retried" app)

unfoldable pub on_retry : Option (ℕ × ℕ) → App → Updated
unfolding runs_in retry_effects selected_calc
on_retry (some range) app =
    retry_with (record app { visual_anchor = none }) (retry_effects (runs_in range app))
on_retry none app = retry_one app (selected_calc app)

abbrev yank_text : App → Option String → Updated
yank_text app none = quiet app
yank_text app (some t) = (say (append "Yanked: " t) app, Effect.yank t ∷ [])

module _ (id_text : ℕ → String) where
  abbrev pub yanked_text : Pane → App → Option String
  yanked_text Pane.run_list app = Option.map (λ (r : Run). id_text r.id) (selected_run app)
  yanked_text _ app = Option.map (λ (c : Calculation). id_text c.id) (selected_calc app)

  unfoldable pub on_yank : App → Updated
  unfolding selected_run selected_calc
  on_yank app = yank_text app (yanked_text app.pane app)
