-- ===== src/Runs/App/Update/Overlays.antt =====
-- The keys while an overlay is open (crates/runs/src/app/update.rs).
use ensurer_v.Prelude.{
  ℕ, ◌+◌, ◌-◌, String, ◌==◌, ◌||◌, Option, none, some, List, [], ◌∷◌, ◌++◌, length, find_first,
  get_elem?, push, drop_last, ltb, nat_eq, if◌then◌else◌,
}
use ensurer_v.Common.Model.{CalcId, Run, Calculation}
use ensurer_v.Runs.App.State.{
  App, Overlay, closed, command, ConfirmDialog, ConfirmAction, filter_statuses,
}
use ensurer_v.Runs.App.Keybindings.{KeyCode, char, enter, esc, backspace, up, down, is_char}
use ensurer_v.Runs.App.Message.{Effect, network, NetworkCmd}
use ensurer_v.Runs.App.Update.Command.{Updated, execute_command}

abbrev pub show : Overlay → App → App
show overlay app = record app { overlay = overlay }

unfoldable pub handle_command_input : KeyCode → String → App → Updated
unfolding execute_command drop_last
handle_command_input esc buf app = (show closed app, [])
handle_command_input enter buf app = execute_command buf (show closed app)
handle_command_input backspace buf app = (show (command (drop_last buf)) app, [])
handle_command_input (char c) buf app = (show (command (push buf c)) app, [])
handle_command_input _ buf app = (app, [])

unfoldable pub handle_help : KeyCode → App → App
handle_help esc app = show closed app
handle_help (char c) app = if is_char c b'q' then show closed app else app
handle_help _ app = app

abbrev with_cursor : ℕ → App → App
with_cursor cursor app = record app { filter = record app.filter { filter_cursor = cursor } }

abbrev next_status : App → App
next_status app =
    if ltb app.filter.filter_cursor (length filter_statuses - 1)
    then with_cursor (app.filter.filter_cursor + 1) app
    else app

abbrev previous_status : App → App
previous_status app = with_cursor (app.filter.filter_cursor - 1) app

-- The statuses are indexed by the cursor, which would panic out of bounds; here nothing changes.
abbrev choose : App → Option String → App
choose app none = app
choose app (some chosen) = record app {
  filter = record app.filter { status = if chosen == "all" then none else some chosen };
  run_cursor = 0;
  overlay = closed;
}

unfoldable pub handle_filter : KeyCode → App → App
handle_filter esc app = show closed app
handle_filter (char c) app =
    if is_char c b'q'
    then show closed app
    else if is_char c b'j'
    then next_status app
    else if is_char c b'k'
    then previous_status app
    else app
handle_filter down app = next_status app
handle_filter up app = previous_status app
handle_filter enter app = choose app (get_elem? filter_statuses app.filter.filter_cursor)
handle_filter _ app = app

-- `runs.iter().flat_map(|r| r.calculations.iter())`
unfoldable pub all_calcs : List Run → List Calculation
all_calcs [] = []
all_calcs (r ∷ rs) = r.calculations ++ all_calcs rs

abbrev for_calc : (Calculation → NetworkCmd) → Option Calculation → List Effect
for_calc f none = []
for_calc f (some calc) = network (f calc) ∷ []

abbrev pub calc_by_id : CalcId → App → Option Calculation
calc_by_id cid app = find_first (λ (c : Calculation). nat_eq c.id cid) (all_calcs app.runs)

unfoldable pub confirmed : ConfirmAction → App → List Effect
unfolding all_calcs
confirmed ConfirmAction.quit app = Effect.quit ∷ []
confirmed (ConfirmAction.cancel_run rid) app = network (NetworkCmd.cancel_run rid) ∷ []
confirmed (ConfirmAction.cancel_calc cid) app =
    for_calc (λ calc. NetworkCmd.cancel_calc calc.run_id cid) (calc_by_id cid app)
confirmed (ConfirmAction.retry_calc cid) app =
    for_calc (λ calc. NetworkCmd.retry_calc calc.run_id cid) (calc_by_id cid app)

unfoldable pub handle_confirm : KeyCode → ConfirmDialog → App → Updated
unfolding confirmed
handle_confirm (char c) dialog app =
    if is_char c b'y' || is_char c b'Y'
    then (show closed app, confirmed dialog.action app)
    else (show closed app, [])
handle_confirm _ dialog app = (show closed app, [])
