-- ===== src/Runs/App/Update/View.antt =====
-- The cursor on the list of runs (crates/runs/src/app/state.rs, crates/runs/src/app/update.rs).
use ensurer_v.Prelude.{ℕ, zero, suc, ◌-◌, ◌≤◌, ◌≡◌, String, Option, none, some, [], length, arith}
use ensurer_v.Runs.App.State.{App, Pane, run_list, calc_list, detail, visible_runs, clamp_cursors}
use ensurer_v.Runs.App.Keybindings.{Action}
use ensurer_v.Runs.App.Update.Motion.{
  move_cursor_down, move_cursor_up, repeat, goto_top, goto_bottom, half_page_down, half_page_up,
}
use ensurer_v.Runs.App.Update.Actions.{
  act, on_move_down, on_move_up, more_at_bottom, down_by, up_by,
}
use ensurer_v.Runs.App.Update.Selection.{on_cancel, on_retry}

-- The cursor is on a visible run, or at the beginning when there is none.
abbrev pub IsInView : App → Type 0
IsInView app = app.run_cursor ≤ length (visible_runs app) - 1

-- Clamping puts the cursor on a visible run.
clamp-IsInView : (app : App) → IsInView (clamp_cursors app)
unfolding clamp_cursors visible_runs
clamp-IsInView app = ground arith

down-IsInView : (app : App) → IsInView app → IsInView (move_cursor_down app)
unfolding move_cursor_down visible_runs
down-IsInView app h = ground arith

up-IsInView : (app : App) → IsInView app → IsInView (move_cursor_up app)
unfolding move_cursor_up visible_runs
up-IsInView app h = ground arith

repeat-IsInView :
    (n : ℕ) (f : App → App) (app : App)
    → ((a : App) → IsInView a → IsInView (f a))
    → IsInView app
    → IsInView (repeat n f app)
unfolding repeat
repeat-IsInView zero f app k h = h
repeat-IsInView (suc n) f app k h = repeat-IsInView n f (f app) k (k app h)

more-IsInView : (app : App) (pane : Pane) → IsInView app → IsInView (more_at_bottom pane app).0
unfolding visible_runs
more-IsInView app pane h = ground arith

move_down-IsInView : (count : ℕ) (app : App) → IsInView app → IsInView (on_move_down count app).0
unfolding on_move_down visible_runs
move_down-IsInView count app h = elim app.pane as (λ p. IsInView (down_by count p app).0) [
  | detail ↦ h
  | run_list ↦ more-IsInView _ _ (repeat-IsInView count move_cursor_down app down-IsInView h)
  | calc_list ↦ more-IsInView _ _ (repeat-IsInView count move_cursor_down app down-IsInView h)
]

move_up-IsInView : (count : ℕ) (app : App) → IsInView app → IsInView (on_move_up count app)
unfolding on_move_up visible_runs
move_up-IsInView count app h = elim app.pane as (λ p. IsInView (up_by count p app)) [
  | detail ↦ h
  | run_list ↦ repeat-IsInView count move_cursor_up app up-IsInView h
  | calc_list ↦ repeat-IsInView count move_cursor_up app up-IsInView h
]

motions-IsInView :
    (count : ℕ) (app : App)
    → IsInView app
    → IsInView (goto_top app)
      × IsInView (goto_bottom app)
      × IsInView (half_page_down count app)
      × IsInView (half_page_up count app)
unfolding goto_top goto_bottom half_page_down half_page_up visible_runs
motions-IsInView count app h = (ground arith, ground arith, ground arith, ground arith)

cancel-IsInView :
    (range : Option (ℕ × ℕ)) (app : App) → IsInView app → IsInView (on_cancel range app).0
unfolding on_cancel visible_runs
cancel-IsInView (some range) app h = h
cancel-IsInView none app h = ground arith

retry-IsInView :
    (range : Option (ℕ × ℕ)) (app : App) → IsInView app → IsInView (on_retry range app).0
unfolding on_retry visible_runs
retry-IsInView (some range) app h = ground arith
retry-IsInView none app h = ground arith

module _ (id_text : ℕ → String) where
  -- If the cursor is on a visible run, or at the beginning when there is none, and a search has no
  -- match, then the action of a key, with any count, leaves it so.
  pub act-IsInView :
      (action : Action) (count : ℕ) (app : App)
      → app.filter.search_matches ≡ []
      → IsInView app
      → IsInView (act id_text action count app).0
  unfolding act visible_runs
  act-IsInView Action.move_down count app e h = move_down-IsInView count app h
  act-IsInView Action.move_up count app e h = move_up-IsInView count app h
  act-IsInView Action.goto_top count app e h = (motions-IsInView count app h).0
  act-IsInView Action.goto_bottom count app e h = (motions-IsInView count app h).1
  act-IsInView Action.half_page_down count app e h = (motions-IsInView count app h).2
  act-IsInView Action.half_page_up count app e h = (motions-IsInView count app h).3
  act-IsInView Action.cancel count app e h = cancel-IsInView _ app h
  act-IsInView Action.retry count app e h = retry-IsInView _ app h
  act-IsInView Action.search_next count app e h = rw e h
  act-IsInView Action.search_prev count app e h = rw e h
  act-IsInView _ count app e h = ground arith
