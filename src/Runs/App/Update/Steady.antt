-- ===== src/Runs/App/Update/Steady.antt =====
-- What no key changes in the state of the client (crates/runs/src/app/update.rs): the runs and their
-- index, and the list of matches of a search, which nothing ever fills.
use ensurer_v.Prelude.{
  ℕ, zero, suc, ◌≡◌, refl, ◌∙◌, String, Bool, true, false, Option, none, some, arith, Bool-cases,
  inl, inr,
}
use ensurer_v.Runs.App.State.{App, Pane, Overlay, ConfirmDialog, ConfirmAction}
use ensurer_v.Runs.App.Keybindings.{KeyEvent, KeyCode, Action, dispatch}
use ensurer_v.Runs.App.Update.Command.{execute_command}
use ensurer_v.Runs.App.Update.Motion.{
  move_cursor_down, move_cursor_up, repeat, goto_top, goto_bottom, half_page_down, half_page_up,
  advance_search,
}
use ensurer_v.Runs.App.Update.Actions.{
  act, on_move_down, on_move_up, more_at_bottom, down_by, up_by,
}
use ensurer_v.Runs.App.Update.Selection.{on_yank, on_cancel, on_retry}
use ensurer_v.Runs.App.Update.{act_on, plain_key, key_in, is_count, read_count, handle_key}
use ensurer_v.Runs.App.Update.Overlays.{
  show, handle_command_input, handle_help, handle_filter, handle_confirm,
}

-- The dialogs that the client asks for are about a cancellation.
abbrev pub AsksCancel : ConfirmAction → Type 0
AsksCancel (ConfirmAction.cancel_run _) = Unit
AsksCancel (ConfirmAction.cancel_calc _) = Unit
AsksCancel _ = ⊥

abbrev pub IsAsked : Overlay → Type 0
IsAsked (Overlay.confirm dialog) = AsksCancel dialog.action
IsAsked _ = Unit

pub record Steady (a b : App) : Type 0 where
  pub runs_same : b.runs ≡ a.runs
  pub index_same : b.run_index ≡ a.run_index
  pub matches_same : b.filter.search_matches ≡ a.filter.search_matches
  pub asked : IsAsked a.overlay → IsAsked b.overlay

Steady-refl : (a : App) → Steady a a
Steady-refl a = record { runs_same = refl; index_same = refl; matches_same = refl; asked = λ h. h }

Steady-trans : {a b c : App} → Steady a b → Steady b c → Steady a c
Steady-trans h k = record {
  runs_same = k.runs_same ∙ h.runs_same;
  index_same = k.index_same ∙ h.index_same;
  matches_same = k.matches_same ∙ h.matches_same;
  asked = λ x. k.asked (h.asked x);
}

down-Steady : (app : App) → Steady app (move_cursor_down app)
unfolding move_cursor_down
down-Steady app = ground arith

up-Steady : (app : App) → Steady app (move_cursor_up app)
unfolding move_cursor_up
up-Steady app = ground arith

repeat-Steady :
    (n : ℕ) (f : App → App) (app : App) → ((a : App) → Steady a (f a)) → Steady app (repeat n f app)
unfolding repeat
repeat-Steady zero f app h = Steady-refl app
repeat-Steady (suc n) f app h = Steady-trans (h app) (repeat-Steady n f (f app) h)

more-Steady : (app : App) (pane : Pane) → Steady app (more_at_bottom pane app).0
more-Steady app pane = ground arith

move_down-Steady : (count : ℕ) (app : App) → Steady app (on_move_down count app).0
unfolding on_move_down
move_down-Steady count app = elim app.pane as (λ p. Steady app (down_by count p app).0) [
  | Pane.detail ↦ ground arith
  | Pane.run_list ↦
      Steady-trans (repeat-Steady count move_cursor_down app down-Steady) (more-Steady _ _)
  | Pane.calc_list ↦
      Steady-trans (repeat-Steady count move_cursor_down app down-Steady) (more-Steady _ _)
]

move_up-Steady : (count : ℕ) (app : App) → Steady app (on_move_up count app)
unfolding on_move_up
move_up-Steady count app = elim app.pane as (λ p. Steady app (up_by count p app)) [
  | Pane.detail ↦ ground arith
  | Pane.run_list ↦ repeat-Steady count move_cursor_up app up-Steady
  | Pane.calc_list ↦ repeat-Steady count move_cursor_up app up-Steady
]

motions-Steady :
    (count : ℕ) (app : App)
    → Steady app (goto_top app)
      × Steady app (goto_bottom app)
      × Steady app (half_page_down count app)
      × Steady app (half_page_up count app)
unfolding goto_top goto_bottom half_page_down half_page_up
motions-Steady count app = (ground arith, ground arith, ground arith, ground arith)

search-Steady : (forward : Bool) (app : App) → Steady app (advance_search forward app)
unfolding advance_search
search-Steady forward app = ground arith

cancel-Steady : (range : Option (ℕ × ℕ)) (app : App) → Steady app (on_cancel range app).0
unfolding on_cancel
cancel-Steady (some range) app = ground arith
cancel-Steady none app = ground arith

retry-Steady : (range : Option (ℕ × ℕ)) (app : App) → Steady app (on_retry range app).0
unfolding on_retry
retry-Steady (some range) app = ground arith
retry-Steady none app = ground arith

module _ (id_text : ℕ → String) where
  yank-Steady : (app : App) → Steady app (on_yank id_text app).0
  unfolding on_yank
  yank-Steady app = ground arith

  act-Steady :
      (action : Action) (count : ℕ) (app : App) → Steady app (act id_text action count app).0
  unfolding act
  act-Steady Action.move_down count app = move_down-Steady count app
  act-Steady Action.move_up count app = move_up-Steady count app
  act-Steady Action.goto_top count app = (motions-Steady count app).0
  act-Steady Action.goto_bottom count app = (motions-Steady count app).1
  act-Steady Action.half_page_down count app = (motions-Steady count app).2
  act-Steady Action.half_page_up count app = (motions-Steady count app).3
  act-Steady Action.cancel count app = cancel-Steady _ app
  act-Steady Action.retry count app = retry-Steady _ app
  act-Steady Action.search_next count app = search-Steady true app
  act-Steady Action.search_prev count app = search-Steady false app
  act-Steady Action.yank count app = yank-Steady app
  act-Steady _ count app = ground arith

execute-Steady : (cmd : String) (app : App) → Steady app (execute_command cmd app).0
unfolding execute_command
execute-Steady cmd app = ground arith

-- The keys while an overlay is open.
input-Steady :
    (code : KeyCode) (buf : String) (app : App) → Steady app (handle_command_input code buf app).0
unfolding handle_command_input
input-Steady KeyCode.enter buf app =
    Steady-trans {b = show Overlay.closed app} (ground arith)
      (execute-Steady buf (show Overlay.closed app))
input-Steady _ buf app = ground arith

overlays-Steady :
    (code : KeyCode) (dialog : ConfirmDialog) (app : App)
    → Steady app (handle_help code app)
      × Steady app (handle_filter code app)
      × Steady app (handle_confirm code dialog app).0
unfolding handle_help handle_filter handle_confirm
overlays-Steady KeyCode.esc dialog app = (ground arith, ground arith, ground arith)
overlays-Steady _ dialog app = (ground arith, ground arith, ground arith)

module _ (id_text : ℕ → String) where
  act_on-Steady : (key : KeyEvent) (app : App) → Steady app (act_on id_text key app).0
  act_on-Steady key app =
      Steady-trans {b = record app { count_buf = "" }} (ground arith)
        (act-Steady id_text (dispatch key) (read_count app) (record app { count_buf = "" }))

  plain_key-Steady :
      (code : KeyCode) (key : KeyEvent) (app : App) → Steady app (plain_key id_text code key app).0
  plain_key-Steady (KeyCode.char c) key app = elim (Bool-cases (is_count key.modifiers c app)) [
    | inl e ↦ rw e (ground arith)
    | inr e ↦ rw e (act_on-Steady key app)
  ]
  plain_key-Steady KeyCode.enter key app = act_on-Steady key app
  plain_key-Steady KeyCode.esc key app = act_on-Steady key app
  plain_key-Steady KeyCode.backspace key app = act_on-Steady key app
  plain_key-Steady KeyCode.up key app = act_on-Steady key app
  plain_key-Steady KeyCode.down key app = act_on-Steady key app
  plain_key-Steady KeyCode.other key app = act_on-Steady key app

  key_in-Steady :
      (overlay : Overlay) (key : KeyEvent) (app : App)
      → Steady app (key_in id_text overlay key app).0
  key_in-Steady (Overlay.command buf) key app = input-Steady key.code buf app
  key_in-Steady (Overlay.confirm dialog) key app = (overlays-Steady key.code dialog app).2
  key_in-Steady Overlay.help key app =
      (overlays-Steady key.code (record { message = ""; action = ConfirmAction.quit }) app).0
  key_in-Steady Overlay.filter key app =
      (overlays-Steady key.code (record { message = ""; action = ConfirmAction.quit }) app).1
  key_in-Steady Overlay.closed key app = plain_key-Steady key.code key app

  -- A key leaves the runs, the index and the matches, and opens no dialog but for a cancellation.
  pub handle_key-Steady : (key : KeyEvent) (app : App) → Steady app (handle_key id_text key app).0
  unfolding handle_key
  handle_key-Steady key app = key_in-Steady app.overlay key app
