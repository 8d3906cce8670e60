-- ===== src/Runs/App/Update/Actions.antt =====
-- The match on the action of a key in `handle_key` (crates/runs/src/app/update.rs).
use ensurer_v.Prelude.{
  ℕ, ◌+◌, ◌-◌, String, ◌==◌, true, false, Option, none, some, [], ◌∷◌, length, is_some, leb,
  position, if◌then◌else◌,
}
use ensurer_v.Common.Model.{Run, Calculation}
use ensurer_v.Runs.App.State.{
  App, Pane, Screen, Overlay, filter_statuses, visible_runs, selected_run, selected_calc,
  visual_range,
}
use ensurer_v.Runs.App.Keybindings.{Action}
use ensurer_v.Runs.App.Message.{Effect, network, NetworkCmd}
use ensurer_v.Runs.App.Update.Command.{Updated, say}
use ensurer_v.Runs.App.Update.Overlays.{show}
use ensurer_v.Runs.App.Update.Selection.{quiet, on_cancel, on_retry, on_yank}
use ensurer_v.Runs.App.Update.Motion.{
  add_usize, mul_usize, move_cursor_down, move_cursor_up, repeat, goto_top, goto_bottom,
  half_page_down, half_page_up, advance_search,
}

abbrev at_list : App → App
at_list app = record app { screen = Screen.run_list; pane = Pane.run_list }

unfoldable pub on_quit : Screen → App → Updated
on_quit Screen.run_list app = (app, Effect.quit ∷ [])
on_quit _ app = quiet (at_list app)

abbrev back_from : Screen → App → App
back_from (Screen.calc_detail _) app = record app {
  overlay = Overlay.closed;
  screen = Screen.run_list;
  pane = Pane.calc_list;
}
back_from Screen.run_list app = record app { overlay = Overlay.closed; pane = Pane.run_list }
back_from _ app = record (at_list app) { overlay = Overlay.closed }

-- Esc ends the visual mode first.
unfoldable pub on_back : Option ℕ → App → App
on_back (some _) app = record app { visual_anchor = none }
on_back none app = back_from app.screen app

unfoldable pub on_dashboard : Screen → App → App
on_dashboard Screen.dashboard app = record app { screen = Screen.run_list }
on_dashboard _ app = record app { screen = Screen.dashboard }

abbrev pub or_else {ℓ} : {A : Type ℓ} → A → Option A → A
or_else d none = d
or_else d (some a) = a

-- The overlay's cursor starts at the active filter.
unfoldable pub on_filter_overlay : App → App
on_filter_overlay app =
    let current = or_else "all" app.filter.status in
    record app {
      filter = record app.filter {
        filter_cursor = or_else 0 (position (λ s. s == current) filter_statuses);
      };
      overlay = Overlay.filter;
    }

unfoldable pub focus_prev : Pane → Pane
focus_prev Pane.detail = Pane.calc_list
focus_prev _ = Pane.run_list

unfoldable pub focus_next : Pane → Pane
focus_next Pane.run_list = Pane.calc_list
focus_next _ = Pane.detail

-- `next_cursor.take()`
abbrev take_more : App → Option String → Updated
take_more app none = quiet app
take_more app (some cursor) =
    (record app { next_cursor = none }, network (NetworkCmd.load_more_runs cursor) ∷ [])

-- The next page is asked for at the bottom of the list of runs.
abbrev pub more_at_bottom : Pane → App → Updated
more_at_bottom Pane.run_list app =
    if leb (length (visible_runs app)) (app.run_cursor + 1)
    then take_more app app.next_cursor
    else quiet app
more_at_bottom _ app = quiet app

abbrev pub down_by : ℕ → Pane → App → Updated
down_by count Pane.detail app =
    quiet (record app { detail_scroll = add_usize app.detail_scroll (mul_usize count 3) })
down_by count _ app = let app' = repeat count move_cursor_down app in more_at_bottom app'.pane app'

unfoldable pub on_move_down : ℕ → App → Updated
unfolding repeat move_cursor_down visible_runs
on_move_down count app = down_by count app.pane app

abbrev pub up_by : ℕ → Pane → App → App
up_by count Pane.detail app = record app { detail_scroll = app.detail_scroll - mul_usize count 3 }
up_by count _ app = repeat count move_cursor_up app

unfoldable pub on_move_up : ℕ → App → App
unfolding repeat move_cursor_up
on_move_up count app = up_by count app.pane app

abbrev open_run : App → Option Run → App
open_run app none = app
open_run app (some run) = record app {
  screen = Screen.run_detail run.id;
  pane = Pane.calc_list;
  calc_cursor = 0;
  detail_scroll = 0;
}

abbrev open_calc : App → Option Calculation → App
open_calc app none = app
open_calc app (some calc) = record app {
  screen = Screen.calc_detail calc.id;
  pane = Pane.detail;
  detail_scroll = 0;
}

unfoldable pub on_enter : Pane → App → App
unfolding selected_run selected_calc
on_enter Pane.run_list app = open_run app (selected_run app)
on_enter Pane.calc_list app = open_calc app (selected_calc app)
on_enter Pane.detail app = app

abbrev save_calc : App → Option Calculation → Updated
save_calc app none = quiet app
save_calc app (some calc) =
    if is_some calc.result_path
    then (app, Effect.save_result calc.id ∷ [])
    else quiet (say "No result available" app)

unfoldable pub on_save : App → Updated
unfolding selected_calc
on_save app = save_calc app (selected_calc app)

unfoldable pub on_visual_toggle : Pane → App → App
on_visual_toggle Pane.run_list app = record app {
  visual_anchor = if is_some app.visual_anchor then none else some app.run_cursor;
}
on_visual_toggle _ app = app

unfoldable pub on_refresh : App → Updated
on_refresh app = (
  record app { loading = true; status_bar = "Refreshing…"; visual_anchor = none },
  network NetworkCmd.refresh_runs ∷ [],
)

module _ (id_text : ℕ → String) where
  -- The match, after the count was read.
  unfoldable pub act : Action → ℕ → App → Updated
  unfolding on_quit on_back on_dashboard on_filter_overlay focus_prev focus_next on_move_down
      on_move_up goto_top goto_bottom half_page_down half_page_up on_enter on_save on_yank
      on_visual_toggle on_refresh on_cancel on_retry advance_search visual_range
  act Action.quit count app = on_quit app.screen app
  act Action.back count app = quiet (on_back app.visual_anchor app)
  act Action.help count app = quiet (show Overlay.help app)
  act Action.dashboard count app = quiet (on_dashboard app.screen app)
  act Action.filter_overlay count app = quiet (on_filter_overlay app)
  act Action.command_mode count app = quiet (show (Overlay.command "") app)
  act Action.search count app = quiet (show (Overlay.command "/") app)
  act Action.focus_prev count app = quiet (record app { pane = focus_prev app.pane })
  act Action.focus_next count app = quiet (record app { pane = focus_next app.pane })
  act Action.move_down count app = on_move_down count app
  act Action.move_up count app = quiet (on_move_up count app)
  act Action.goto_top count app = quiet (goto_top app)
  act Action.goto_bottom count app = quiet (goto_bottom app)
  act Action.half_page_down count app = quiet (half_page_down count app)
  act Action.half_page_up count app = quiet (half_page_up count app)
  act Action.enter count app = quiet (on_enter app.pane app)
  act Action.save count app = on_save app
  act Action.yank count app = on_yank id_text app
  act Action.visual_toggle count app = quiet (on_visual_toggle app.pane app)
  act Action.refresh count app = on_refresh app
  act Action.cancel count app = on_cancel (visual_range app) app
  act Action.retry count app = on_retry (visual_range app) app
  act Action.search_next count app = quiet (advance_search true app)
  act Action.search_prev count app = quiet (advance_search false app)
  act Action.unknown count app = quiet app
