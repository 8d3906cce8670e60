-- ===== src/Runs/App/Update/Asked.antt =====
-- What the client asks the daemon to retry, after any messages (crates/runs/src/app/update.rs).
use ensurer_v.Prelude.{
  ℕ, String, ◌||◌, Option, none, some, List, [], ◌∷◌, is_some, ◌+◌, trim, strip_prefix,
  split_whitespace, ◌==◌, length, All, Bool-cases, Option-cases, inl, inr, leb,
}
use ensurer_v.Common.Event.{ServerEvent}
use ensurer_v.Common.Model.{Run}
use ensurer_v.Runs.App.State.{
  App, new, Pane, Screen, Overlay, ConfirmDialog, ConfirmAction, visible_runs, selected_calc,
  visual_range,
}
use ensurer_v.Runs.App.Keybindings.{KeyEvent, KeyCode, Action, dispatch, is_char}
use ensurer_v.Runs.App.Update.Reached.{after, reached-IsSane}
use ensurer_v.Runs.App.Message.{AppMsg}
use ensurer_v.Runs.App.Update.Command.{
  execute_command, execute_trimmed, submit, worded, exact, prefixed,
}
use ensurer_v.Runs.App.Update.Actions.{
  act, on_quit, on_move_down, on_save, on_refresh, more_at_bottom, down_by,
}
use ensurer_v.Runs.App.Update.Selection.{on_yank, yanked_text}
use ensurer_v.Runs.App.Update.Overlays.{handle_command_input, handle_confirm, confirmed, calc_by_id}
use ensurer_v.Runs.App.Update.Steady.{IsAsked, AsksCancel}
use ensurer_v.Runs.App.Update.{
  act_on, plain_key, key_in, is_count, read_count, handle_key, update, apply_server_event,
}
use ensurer_v.Runs.App.Update.Retries.{IsJust, retry-IsJust, cancel-IsJust}

more-IsJust :
    (pane : Pane) (app : App) (runs : List Run) → All (IsJust runs) (more_at_bottom pane app).1
more-IsJust Pane.run_list app runs =
    elim (Bool-cases (leb (length (visible_runs app)) (app.run_cursor + 1))) [
      | inl e ↦ elim (Option-cases app.next_cursor) [
        | inl n ↦ rw e (rw n tt)
        | inr (cursor, n) ↦ rw e (rw n (tt, tt))
      ]
      | inr e ↦ rw e tt
    ]
more-IsJust _ app runs = tt

down-IsJust :
    (count : ℕ) (pane : Pane) (app : App) (runs : List Run)
    → All (IsJust runs) (down_by count pane app).1
down-IsJust count Pane.detail app runs = tt
down-IsJust count _ app runs = more-IsJust _ _ runs

quit-IsJust : (screen : Screen) (app : App) → All (IsJust app.runs) (on_quit screen app).1
unfolding on_quit
quit-IsJust Screen.run_list app = (tt, tt)
quit-IsJust _ app = tt

save-IsJust : (app : App) → All (IsJust app.runs) (on_save app).1
unfolding on_save
save-IsJust app = elim (Option-cases (selected_calc app)) [
  | inl e ↦ rw e tt
  | inr (c, e) ↦ elim (Bool-cases (is_some c.result_path)) [
    | inl f ↦ rw e (rw f (tt, tt))
    | inr f ↦ rw e (rw f tt)
  ]
]

module _ (id_text : ℕ → String) where
  yank-IsJust : (app : App) → All (IsJust app.runs) (on_yank id_text app).1
  unfolding on_yank
  yank-IsJust app = elim (Option-cases (yanked_text id_text app.pane app)) [
    | inl e ↦ rw e tt
    | inr (t, e) ↦ rw e (tt, tt)
  ]

  act-IsJust :
      (action : Action) (count : ℕ) (app : App)
      → All (IsJust app.runs) (act id_text action count app).1
  unfolding act on_move_down on_refresh
  act-IsJust Action.quit count app = quit-IsJust app.screen app
  act-IsJust Action.move_down count app = down-IsJust count app.pane app app.runs
  act-IsJust Action.cancel count app = cancel-IsJust (visual_range app) app
  act-IsJust Action.retry count app = retry-IsJust (visual_range app) app
  act-IsJust Action.yank count app = yank-IsJust app
  act-IsJust Action.save count app = save-IsJust app
  act-IsJust Action.refresh count app = (tt, tt)
  act-IsJust _ count app = tt

event-IsJust :
    (runs : List Run) (event : ServerEvent) (app : App)
    → All (IsJust runs) (apply_server_event event app).1
unfolding apply_server_event
event-IsJust runs (ServerEvent.run_submitted run_id jira at) app = (tt, tt)
event-IsJust runs _ app = tt

words-IsJust :
    (runs : List Run) (words : List String) (app : App) → All (IsJust runs) (submit app words).1
words-IsJust runs [] app = tt
words-IsJust runs (jira ∷ []) app = tt
words-IsJust runs (jira ∷ kind ∷ kinds) app = (tt, tt)

worded-IsJust :
    (runs : List Run) (cmd : String) (path rest : Option String) (app : App)
    → All (IsJust runs) (worded cmd app path rest).1
worded-IsJust runs cmd (some path) rest app = (tt, tt)
worded-IsJust runs cmd none (some rest) app = words-IsJust runs (split_whitespace rest) app
worded-IsJust runs cmd none none app = tt

exact-IsJust : (runs : List Run) (cmd : String) (app : App) → All (IsJust runs) (exact cmd app).1
exact-IsJust runs cmd app = elim (Bool-cases (cmd == "quit" || cmd == "q")) [
  | inl e ↦ rw e (tt, tt)
  | inr e ↦ elim (Bool-cases (cmd == "reload" || cmd == "refresh")) [
    | inl f ↦ rw e (rw f (tt, tt))
    | inr f ↦ rw e (rw f (worded-IsJust runs cmd _ _ app))
  ]
]

prefixed-IsJust :
    (runs : List Run) (cmd : String) (query filtered : Option String) (app : App)
    → All (IsJust runs) (prefixed cmd app query filtered).1
prefixed-IsJust runs cmd (some query) filtered app = tt
prefixed-IsJust runs cmd none (some rest) app = tt
prefixed-IsJust runs cmd none none app = exact-IsJust runs cmd app

input-IsJust :
    (runs : List Run) (code : KeyCode) (buf : String) (app : App)
    → All (IsJust runs) (handle_command_input code buf app).1
unfolding handle_command_input execute_command execute_trimmed
input-IsJust runs KeyCode.enter buf app =
    let cmd = trim buf in
    prefixed-IsJust runs cmd (strip_prefix cmd "/") (strip_prefix cmd "filter ") _
input-IsJust runs _ buf app = tt

confirmed-IsJust :
    (runs : List Run) (action : ConfirmAction) (app : App)
    → AsksCancel action
    → All (IsJust runs) (confirmed action app)
unfolding confirmed
confirmed-IsJust runs ConfirmAction.quit app h = elim h [ ]
confirmed-IsJust runs (ConfirmAction.retry_calc id) app h = elim h [ ]
confirmed-IsJust runs (ConfirmAction.cancel_run id) app h = (tt, tt)
confirmed-IsJust runs (ConfirmAction.cancel_calc id) app h =
    elim (Option-cases (calc_by_id id app)) [ inl e ↦ rw e tt | inr (c, e) ↦ rw e (tt, tt) ]

confirm-IsJust :
    (runs : List Run) (code : KeyCode) (dialog : ConfirmDialog) (app : App)
    → AsksCancel dialog.action
    → All (IsJust runs) (handle_confirm code dialog app).1
unfolding handle_confirm
confirm-IsJust runs (KeyCode.char c) dialog app h =
    elim (Bool-cases (is_char c b'y' || is_char c b'Y')) [
      | inl e ↦ rw e (confirmed-IsJust runs dialog.action app h)
      | inr e ↦ rw e tt
    ]
confirm-IsJust runs _ dialog app h = tt

module _ (id_text : ℕ → String) where
  act_on-IsJust : (key : KeyEvent) (app : App) → All (IsJust app.runs) (act_on id_text key app).1
  act_on-IsJust key app =
      act-IsJust id_text (dispatch key) (read_count app) (record app { count_buf = "" })

  plain_key-IsJust :
      (code : KeyCode) (key : KeyEvent) (app : App)
      → All (IsJust app.runs) (plain_key id_text code key app).1
  plain_key-IsJust (KeyCode.char c) key app = elim (Bool-cases (is_count key.modifiers c app)) [
    | inl e ↦ rw e tt
    | inr e ↦ rw e (act_on-IsJust key app)
  ]
  plain_key-IsJust KeyCode.enter key app = act_on-IsJust key app
  plain_key-IsJust KeyCode.esc key app = act_on-IsJust key app
  plain_key-IsJust KeyCode.backspace key app = act_on-IsJust key app
  plain_key-IsJust KeyCode.up key app = act_on-IsJust key app
  plain_key-IsJust KeyCode.down key app = act_on-IsJust key app
  plain_key-IsJust KeyCode.other key app = act_on-IsJust key app

  key_in-IsJust :
      (overlay : Overlay) (key : KeyEvent) (app : App)
      → IsAsked overlay
      → All (IsJust app.runs) (key_in id_text overlay key app).1
  key_in-IsJust (Overlay.command buf) key app h = input-IsJust app.runs key.code buf app
  key_in-IsJust (Overlay.confirm dialog) key app h = confirm-IsJust app.runs key.code dialog app h
  key_in-IsJust Overlay.closed key app h = plain_key-IsJust key.code key app
  key_in-IsJust Overlay.help key app h = tt
  key_in-IsJust Overlay.filter key app h = tt

  -- In a state that messages lead to, a message asks the daemon for a retry of failed calculations
  -- of the runs in that state only.
  pub update-All-IsJust :
      (msgs : List AppMsg) (msg : AppMsg)
      → let app = after id_text msgs new in All (IsJust app.runs) (update id_text msg app).1
  unfolding update handle_key
  update-All-IsJust msgs (AppMsg.key k) =
      let app = after id_text msgs new in
      key_in-IsJust app.overlay k app (reached-IsSane id_text msgs).asked
  update-All-IsJust msgs (AppMsg.server_event s) = event-IsJust _ s.event _
  update-All-IsJust msgs AppMsg.quit = (tt, tt)
  update-All-IsJust msgs _ = tt
