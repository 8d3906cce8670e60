-- ===== src/Runs/App/Update/Requests.antt =====
-- How often the client asks for the next page of runs (crates/runs/src/app/update.rs).
use ensurer_v.Prelude.{
  ℕ, ◌≤◌, ◌≡◌, refl, ◌∙◌, String, Bool, true, false, none, List, [], ◌∷◌, ◌++◌, arith, All,
  Bool-cases, inl, inr,
}
use ensurer_v.Common.CalcStatus.{CalcStatus}
use ensurer_v.Common.Event.{ServerEvent}
use ensurer_v.Common.Model.{Run}
use ensurer_v.Runs.App.State.{App, Overlay, upsert_run, update_calc_status, clamp_cursors}
use ensurer_v.Runs.App.Keybindings.{KeyEvent, KeyCode, dispatch}
use ensurer_v.Runs.App.Message.{AppMsg, Effect, network}
use ensurer_v.Runs.App.Update.{
  act_on, plain_key, key_in, is_count, read_count, handle_key, update, apply_server_event,
}
use ensurer_v.Runs.App.Update.Credit.{
  page_requests, credit, Frugal, quiet-Frugal, one-Frugal, KeepsCursor, page_requests-append,
}
use ensurer_v.Runs.App.Update.Pages.{act-Frugal, input-Frugal, confirm-Frugal, overlays-KeepsCursor}

upsert_run-KeepsCursor : (run : Run) → KeepsCursor (upsert_run run)
unfolding upsert_run
upsert_run-KeepsCursor run a = ground arith

clamp-KeepsCursor : KeepsCursor clamp_cursors
unfolding clamp_cursors
clamp-KeepsCursor a = ground arith

status-KeepsCursor :
    (run_id calc_id : ℕ) (status : CalcStatus)
    → KeepsCursor (update_calc_status run_id calc_id status)
unfolding update_calc_status
status-KeepsCursor run_id calc_id status a = ground arith

event-Frugal : (event : ServerEvent) (a : App) → Frugal a (apply_server_event event a)
unfolding apply_server_event
event-Frugal (ServerEvent.calc_status_changed run_id calc_id from to attempt at) a =
    quiet-Frugal (status-KeepsCursor run_id calc_id to a)
event-Frugal (ServerEvent.run_submitted run_id jira at) a = one-Frugal (network _) refl refl
event-Frugal _ a = quiet-Frugal refl

-- A page of runs that has arrived.
abbrev pub is_page : AppMsg → Bool
is_page (AppMsg.runs_loaded runs next_cursor) = true
is_page (AppMsg.more_runs_loaded runs next_cursor) = true
is_page _ = false

module _ (id_text : ℕ → String) where
  act_on-Frugal : (key : KeyEvent) (a : App) → Frugal a (act_on id_text key a)
  act_on-Frugal key a =
      act-Frugal id_text (dispatch key) (read_count a) (record a { count_buf = "" })

  plain_key-Frugal :
      (code : KeyCode) (key : KeyEvent) (a : App) → Frugal a (plain_key id_text code key a)
  plain_key-Frugal (KeyCode.char c) key a = elim (Bool-cases (is_count key.modifiers c a)) [
    | inl e ↦ rw e (quiet-Frugal refl)
    | inr e ↦ rw e (act_on-Frugal key a)
  ]
  plain_key-Frugal KeyCode.enter key a = act_on-Frugal key a
  plain_key-Frugal KeyCode.esc key a = act_on-Frugal key a
  plain_key-Frugal KeyCode.backspace key a = act_on-Frugal key a
  plain_key-Frugal KeyCode.up key a = act_on-Frugal key a
  plain_key-Frugal KeyCode.down key a = act_on-Frugal key a
  plain_key-Frugal KeyCode.other key a = act_on-Frugal key a

  key_in-Frugal :
      (overlay : Overlay) (key : KeyEvent) (a : App) → Frugal a (key_in id_text overlay key a)
  key_in-Frugal (Overlay.command buf) key a = input-Frugal key.code buf a
  key_in-Frugal (Overlay.confirm dialog) key a = confirm-Frugal key.code dialog a
  key_in-Frugal Overlay.closed key a = plain_key-Frugal key.code key a
  key_in-Frugal Overlay.help key a = quiet-Frugal ((overlays-KeepsCursor key.code).0 a)
  key_in-Frugal Overlay.filter key a = quiet-Frugal ((overlays-KeepsCursor key.code).1 a)

  update-Frugal : (msg : AppMsg) (a : App) → is_page msg ≡ false → Frugal a (update id_text msg a)
  unfolding update handle_key
  update-Frugal (AppMsg.key k) a e = key_in-Frugal a.overlay k a
  update-Frugal (AppMsg.server_event s) a e =
      event-Frugal s.event (record a { last_seen_seq = s.seq })
  update-Frugal (AppMsg.runs_loaded runs next_cursor) a e = absurd (ground (arith, e))
  update-Frugal (AppMsg.more_runs_loaded runs next_cursor) a e = absurd (ground (arith, e))
  update-Frugal (AppMsg.run_fetched run) a e =
      quiet-Frugal (clamp-KeepsCursor (upsert_run run a) ∙ upsert_run-KeepsCursor run a)
  update-Frugal AppMsg.quit a e = one-Frugal Effect.quit refl refl
  update-Frugal (AppMsg.cmd_ok msg) a e = quiet-Frugal refl
  update-Frugal (AppMsg.cmd_err msg) a e = quiet-Frugal refl
  update-Frugal AppMsg.sse_disconnected a e = quiet-Frugal refl
  update-Frugal AppMsg.sse_reconnected a e = quiet-Frugal refl
  update-Frugal (AppMsg.resize w h) a e = quiet-Frugal refl
  update-Frugal (AppMsg.import_progress done total errors) a e = quiet-Frugal refl
  update-Frugal AppMsg.tick a e = quiet-Frugal refl

  -- The effects of messages, one after another.
  unfoldable pub effects_of : List AppMsg → App → List Effect
  unfolding update
  effects_of [] a = []
  effects_of (msg ∷ msgs) a = (update id_text msg a).1 ++ effects_of msgs (update id_text msg a).0

  effects_of-credit :
      (msgs : List AppMsg) (a : App)
      → All (λ m. is_page m ≡ false) msgs
      → page_requests (effects_of msgs a) ≤ credit a.next_cursor
  unfolding effects_of page_requests
  effects_of-credit [] a h = omega arith
  effects_of-credit (msg ∷ msgs) a h = omega (
    arith,
    page_requests-append (update id_text msg a).1 (effects_of msgs (update id_text msg a).0),
    update-Frugal msg a h.0,
    effects_of-credit msgs (update id_text msg a).0 h.1,
  )

  -- From any state, while no page of runs arrives, messages ask for the next page once at most, and
  -- never in a state with no cursor.
  pub page_requests-effects_of :
      (msgs : List AppMsg) (a : App)
      → All (λ m. is_page m ≡ false) msgs
      → (page_requests (effects_of msgs a) ≤ 1)
        × (a.next_cursor ≡ none → page_requests (effects_of msgs a) ≡ 0)
  unfolding credit
  page_requests-effects_of msgs a h =
      let few = effects_of-credit msgs a h in (ground (arith, few), λ e. ground (arith, few, e))
