-- ===== src/Runs/App/Update/Motion.antt =====
-- The motions of crates/runs/src/app/update.rs.
use ensurer_v.Prelude.{
  ℕ, zero, suc, ◌+◌, ◌-◌, ◌*◌, ◌%◌, ◌^◌, Option, none, some, [], ◌∷◌, length, min, ltb, get_elem?,
  Bool, nat_eq, if◌then◌else◌,
}
use ensurer_v.Common.Model.{Run}
use ensurer_v.Runs.App.State.{App, Pane, run_list, calc_list, detail, visible_runs, selected_run}

-- The sum of two usize, which wraps around in a release build.
abbrev pub add_usize : ℕ → ℕ → ℕ
add_usize a b = (a + b) % 2 ^ 64

abbrev pub mul_usize : ℕ → ℕ → ℕ
mul_usize a b = a * b % 2 ^ 64

-- `if cursor < len.saturating_sub(1) { cursor + 1 }`
abbrev pub step_down : ℕ → ℕ → ℕ
step_down len cursor = if ltb cursor (len - 1) then cursor + 1 else cursor

-- A change of `calc_cursor` by the number of calculations of the selected run, if there is one.
abbrev pub on_calcs : (ℕ → ℕ → ℕ) → App → Option Run → App
on_calcs f app none = app
on_calcs f app (some run) = record app { calc_cursor = f (length run.calculations) app.calc_cursor }

abbrev down_in : Pane → App → App
down_in run_list app = record app {
  run_cursor = step_down (length (visible_runs app)) app.run_cursor;
  calc_cursor = 0;
}
down_in _ app = on_calcs step_down app (selected_run app)

unfoldable pub move_cursor_down : App → App
unfolding visible_runs selected_run
move_cursor_down app = down_in app.pane app

abbrev up_in : Pane → App → App
up_in run_list app = record app { run_cursor = app.run_cursor - 1; calc_cursor = 0 }
up_in _ app = record app { calc_cursor = app.calc_cursor - 1 }

unfoldable pub move_cursor_up : App → App
move_cursor_up app = up_in app.pane app

-- `for _ in 0..count`
unfoldable pub repeat : ℕ → (App → App) → App → App
repeat zero f app = app
repeat (suc n) f app = repeat n f (f app)

abbrev top_in : Pane → App → App
top_in detail app = record app { detail_scroll = 0 }
top_in run_list app = record app { run_cursor = 0 }
top_in calc_list app = record app { calc_cursor = 0 }

unfoldable pub goto_top : App → App
goto_top app = top_in app.pane app

-- The last of that many.
abbrev pub last_of : ℕ → ℕ → ℕ
last_of len cursor = len - 1

abbrev bottom_in : Pane → App → App
bottom_in detail app = record app { detail_scroll = 2 ^ 63 - 1 }
bottom_in run_list app = record app { run_cursor = length (visible_runs app) - 1 }
bottom_in calc_list app = on_calcs last_of app (selected_run app)

unfoldable pub goto_bottom : App → App
unfolding visible_runs selected_run
goto_bottom app = bottom_in app.pane app

abbrev pub page_down : ℕ → ℕ → ℕ → ℕ
page_down step len cursor = min (add_usize cursor step) (len - 1)

abbrev half_down_in : ℕ → Pane → App → App
half_down_in step detail app = record app { detail_scroll = add_usize app.detail_scroll step }
half_down_in step run_list app = record app {
  run_cursor = page_down step (length (visible_runs app)) app.run_cursor;
}
half_down_in step calc_list app = on_calcs (page_down step) app (selected_run app)

unfoldable pub half_page_down : ℕ → App → App
unfolding visible_runs selected_run
half_page_down count app = half_down_in (mul_usize 10 count) app.pane app

abbrev half_up_in : ℕ → Pane → App → App
half_up_in step detail app = record app { detail_scroll = app.detail_scroll - step }
half_up_in step run_list app = record app { run_cursor = app.run_cursor - step }
half_up_in step calc_list app = record app { calc_cursor = app.calc_cursor - step }

unfoldable pub half_page_up : ℕ → App → App
half_page_up count app = half_up_in (mul_usize 10 count) app.pane app

abbrev advance_in : Bool → App → ℕ → App
advance_in forward app total =
    let pos = app.filter.search_pos in
    let at =
      if forward
      then (pos + 1) % total
      else if nat_eq pos 0
      then total - 1
      else (pos - 1) % total in
    let found = get_elem? app.filter.search_matches at in
    elim found [
      | none ↦ record app { filter = record app.filter { search_pos = at } }
      | some i ↦ record app { filter = record app.filter { search_pos = at }; run_cursor = i }
    ]

-- `rem_euclid` of the position one further or one back; the casts to i32 are taken to be exact.
unfoldable pub advance_search : Bool → App → App
advance_search forward app = elim app.filter.search_matches [
  | [] ↦ app
  | _ ∷ _ ↦ advance_in forward app (length app.filter.search_matches)
]
