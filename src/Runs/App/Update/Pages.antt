-- ===== src/Runs/App/Update/Pages.antt =====
-- The requests for the next page of runs (crates/runs/src/app/update.rs).
use ensurer_v.Prelude.{
  ℕ, ◌≡◌, refl, String, true, false, ◌||◌, ◌==◌, Option, none, some, List, [], ◌∷◌, is_some, trim,
  strip_prefix, split_whitespace, arith, Bool-cases, Option-cases, inl, inr,
}
use ensurer_v.Runs.App.State.{
  App, Screen, Overlay, ConfirmDialog, ConfirmAction, selected_calc, visual_range,
}
use ensurer_v.Runs.App.Keybindings.{KeyCode, Action, is_char}
use ensurer_v.Runs.App.Message.{Effect, network, NetworkCmd}
use ensurer_v.Runs.App.Update.Command.{
  execute_command, execute_trimmed, submit, worded, exact, prefixed,
}
use ensurer_v.Runs.App.Update.Actions.{
  act, on_quit, on_filter_overlay, on_move_down, on_move_up, on_save, on_refresh,
}
use ensurer_v.Runs.App.Update.Selection.{on_yank, yanked_text}
use ensurer_v.Runs.App.Update.Overlays.{
  show, handle_command_input, handle_help, handle_filter, handle_confirm, confirmed,
}
use ensurer_v.Runs.App.Update.Credit.{
  page_requests, Frugal, free-Frugal, quiet-Frugal, one-Frugal, KeepsCursor, down-Frugal, up-Frugal,
  motions-KeepsCursor, others-KeepsCursor, retry-Frugal, cancel-Frugal,
}

screens-Frugal : (screen : Screen) (a : App) → Frugal a (on_quit screen a)
unfolding on_quit
screens-Frugal Screen.run_list a = one-Frugal Effect.quit refl refl
screens-Frugal _ a = quiet-Frugal refl

save-Frugal : (a : App) → Frugal a (on_save a)
unfolding on_save
save-Frugal a = elim (Option-cases (selected_calc a)) [
  | inl e ↦ rw e (quiet-Frugal refl)
  | inr (c, e) ↦ elim (Bool-cases (is_some c.result_path)) [
    | inl f ↦ rw e (rw f (one-Frugal (Effect.save_result c.id) refl refl))
    | inr f ↦ rw e (rw f (quiet-Frugal refl))
  ]
]

words-Frugal : (words : List String) (a : App) → Frugal a (submit a words)
words-Frugal [] a = quiet-Frugal refl
words-Frugal (jira ∷ []) a = quiet-Frugal refl
words-Frugal (jira ∷ kind ∷ kinds) a = one-Frugal (network _) refl refl

worded-Frugal :
    (cmd : String) (path rest : Option String) (a : App) → Frugal a (worded cmd a path rest)
worded-Frugal cmd (some path) rest a = one-Frugal (network _) refl refl
worded-Frugal cmd none (some rest) a = words-Frugal (split_whitespace rest) a
worded-Frugal cmd none none a = quiet-Frugal refl

exact-Frugal : (cmd : String) (a : App) → Frugal a (exact cmd a)
exact-Frugal cmd a = elim (Bool-cases (cmd == "quit" || cmd == "q")) [
  | inl e ↦ rw e (one-Frugal Effect.quit refl refl)
  | inr e ↦ elim (Bool-cases (cmd == "reload" || cmd == "refresh")) [
    | inl f ↦ rw e (rw f (one-Frugal (network NetworkCmd.refresh_runs) refl refl))
    | inr f ↦ rw e (rw f (worded-Frugal cmd _ _ a))
  ]
]

prefixed-Frugal :
    (cmd : String) (query filtered : Option String) (a : App)
    → Frugal a (prefixed cmd a query filtered)
prefixed-Frugal cmd (some query) filtered a = quiet-Frugal refl
prefixed-Frugal cmd none (some rest) a = quiet-Frugal (ground arith)
prefixed-Frugal cmd none none a = exact-Frugal cmd a

pub input-Frugal :
    (code : KeyCode) (buf : String) (a : App) → Frugal a (handle_command_input code buf a)
unfolding handle_command_input execute_command execute_trimmed
input-Frugal KeyCode.enter buf a =
    let cmd = trim buf in
    prefixed-Frugal cmd (strip_prefix cmd "/") (strip_prefix cmd "filter ") (show Overlay.closed a)
input-Frugal KeyCode.esc buf a = quiet-Frugal refl
input-Frugal KeyCode.backspace buf a = quiet-Frugal refl
input-Frugal (KeyCode.char c) buf a = quiet-Frugal refl
input-Frugal KeyCode.up buf a = quiet-Frugal refl
input-Frugal KeyCode.down buf a = quiet-Frugal refl
input-Frugal KeyCode.other buf a = quiet-Frugal refl

confirmed-free : (action : ConfirmAction) (a : App) → page_requests (confirmed action a) ≡ 0
unfolding confirmed page_requests
confirmed-free action a = ground arith

pub confirm-Frugal :
    (code : KeyCode) (dialog : ConfirmDialog) (a : App) → Frugal a (handle_confirm code dialog a)
unfolding handle_confirm
confirm-Frugal (KeyCode.char c) dialog a = elim (Bool-cases (is_char c b'y' || is_char c b'Y')) [
  | inl e ↦ rw e (free-Frugal _ (confirmed-free dialog.action a) refl)
  | inr e ↦ rw e (quiet-Frugal refl)
]
confirm-Frugal _ dialog a = quiet-Frugal refl

pub overlays-KeepsCursor :
    (code : KeyCode) → KeepsCursor (handle_help code) × KeepsCursor (handle_filter code)
unfolding handle_help handle_filter
overlays-KeepsCursor code = (λ a. ground arith, λ a. ground arith)

module _ (id_text : ℕ → String) where
  yank-Frugal : (a : App) → Frugal a (on_yank id_text a)
  unfolding on_yank
  yank-Frugal a = elim (Option-cases (yanked_text id_text a.pane a)) [
    | inl e ↦ rw e (quiet-Frugal refl)
    | inr (t, e) ↦ rw e (one-Frugal (Effect.yank t) refl refl)
  ]

  pub act-Frugal : (action : Action) (count : ℕ) (a : App) → Frugal a (act id_text action count a)
  unfolding act on_move_down on_move_up on_refresh on_filter_overlay
  act-Frugal Action.quit count a = screens-Frugal a.screen a
  act-Frugal Action.move_down count a = down-Frugal count a.pane a
  act-Frugal Action.move_up count a = up-Frugal count a.pane a
  act-Frugal Action.cancel count a = cancel-Frugal (visual_range a) a
  act-Frugal Action.retry count a = retry-Frugal (visual_range a) a
  act-Frugal Action.yank count a = yank-Frugal a
  act-Frugal Action.save count a = save-Frugal a
  act-Frugal Action.refresh count a = one-Frugal (network NetworkCmd.refresh_runs) refl refl
  act-Frugal Action.goto_top count a = quiet-Frugal ((motions-KeepsCursor count).0 a)
  act-Frugal Action.goto_bottom count a = quiet-Frugal ((motions-KeepsCursor count).1 a)
  act-Frugal Action.half_page_down count a = quiet-Frugal ((motions-KeepsCursor count).2 a)
  act-Frugal Action.half_page_up count a = quiet-Frugal ((motions-KeepsCursor count).3 a)
  act-Frugal Action.search_next count a =
      quiet-Frugal ((others-KeepsCursor true a.screen a.pane none).0 a)
  act-Frugal Action.search_prev count a =
      quiet-Frugal ((others-KeepsCursor false a.screen a.pane none).0 a)
  act-Frugal Action.dashboard count a =
      quiet-Frugal ((others-KeepsCursor true a.screen a.pane none).1 a)
  act-Frugal Action.enter count a =
      quiet-Frugal ((others-KeepsCursor true a.screen a.pane none).2 a)
  act-Frugal Action.back count a =
      quiet-Frugal ((others-KeepsCursor true a.screen a.pane a.visual_anchor).3 a)
  act-Frugal Action.visual_toggle count a =
      quiet-Frugal ((others-KeepsCursor true a.screen a.pane none).4 a)
  act-Frugal Action.help count a = quiet-Frugal refl
  act-Frugal Action.filter_overlay count a = quiet-Frugal refl
  act-Frugal Action.command_mode count a = quiet-Frugal refl
  act-Frugal Action.search count a = quiet-Frugal refl
  act-Frugal Action.focus_prev count a = quiet-Frugal refl
  act-Frugal Action.focus_next count a = quiet-Frugal refl
  act-Frugal Action.unknown count a = quiet-Frugal refl
