-- ===== src/Runs/App/Update.antt =====
-- crates/runs/src/app/update.rs: the pure update of the terminal client.
pub mod Command
pub mod Motion
pub mod Selection
pub mod Actions
pub mod Overlays
pub mod Steady
pub mod Reached
pub mod Ranges
pub mod View
pub mod Retries
pub mod Asked
pub mod Credit
pub mod Pages
pub mod Requests
use Prim.Native.Char.{Char, code}
use ensurer_v.Prelude.{
  ℕ, suc, ◌+◌, ◌%◌, ◌^◌, String, append, Bool, true, false, not, ◌&&◌, ◌||◌, Option, none, some,
  List, [], ◌∷◌, length, ◌==◌, push, parse_below, is_ascii_digit, show_nat, nat_eq, ltb, max,
  if◌then◌else◌,
}
use ensurer_v.Common.Event.{ServerEvent, SequencedEvent}
use ensurer_v.Common.Model.{Run}
use ensurer_v.Runs.App.State.{App, Overlay, upsert_run, update_calc_status, clamp_cursors}
use ensurer_v.Runs.App.Keybindings.{KeyEvent, KeyCode, KeyModifiers, char, dispatch}
use ensurer_v.Runs.App.Message.{AppMsg, Effect, network, NetworkCmd}
use ensurer_v.Runs.App.Update.Command.{Updated, say}
use ensurer_v.Runs.App.Update.Actions.{act}
use ensurer_v.Runs.App.Update.Selection.{quiet}
use ensurer_v.Runs.App.Update.Overlays.{
  handle_command_input, handle_help, handle_filter, handle_confirm,
}

unfoldable pub apply_server_event : ServerEvent → App → Updated
unfolding update_calc_status
apply_server_event (ServerEvent.calc_status_changed run_id calc_id from to attempt at) app =
    quiet (update_calc_status run_id calc_id to app)
apply_server_event (ServerEvent.run_submitted run_id jira at) app =
    (app, network (NetworkCmd.fetch_run run_id) ∷ [])
apply_server_event _ app = quiet app

-- Whether a key goes on with the count: a digit with no modifier, but no 0 at the beginning.
abbrev pub is_count : KeyModifiers → Char → App → Bool
is_count KeyModifiers.none c app =
    is_ascii_digit c && (not (nat_eq (code c) b'0') || not (app.count_buf == ""))
is_count _ c app = false

-- `count_buf.parse::<usize>().unwrap_or(1).max(1)`
abbrev count_of : Option ℕ → ℕ
count_of none = 1
count_of (some n) = max n 1

unfoldable pub read_count : App → ℕ
unfolding parse_below
read_count app = count_of (parse_below (2 ^ 64) app.count_buf)

-- `for run in runs { app.upsert_run(run) }`
unfoldable pub upsert_runs : List Run → App → App
unfolding upsert_run
upsert_runs [] app = app
upsert_runs (run ∷ runs) app = upsert_runs runs (upsert_run run app)

abbrev import_text : ℕ → ℕ → ℕ → String
import_text done total errors =
    let progress = append "Importing… " (append (show_nat done) (append "/" (show_nat total))) in
    if ltb 0 errors
    then append progress (append " (" (append (show_nat errors) " errors)"))
    else progress

module _ (id_text : ℕ → String) where
  abbrev pub act_on : KeyEvent → App → Updated
  act_on key app = act id_text (dispatch key) (read_count app) (record app { count_buf = "" })

  -- The keys with no overlay.
  abbrev pub plain_key : KeyCode → KeyEvent → App → Updated
  plain_key (char c) key app =
      if is_count key.modifiers c app
      then quiet (record app { count_buf = push app.count_buf c })
      else act_on key app
  plain_key _ key app = act_on key app

  abbrev pub key_in : Overlay → KeyEvent → App → Updated
  key_in (Overlay.command buf) key app = handle_command_input key.code buf app
  key_in Overlay.help key app = quiet (handle_help key.code app)
  key_in Overlay.filter key app = quiet (handle_filter key.code app)
  key_in (Overlay.confirm dialog) key app = handle_confirm key.code dialog app
  key_in Overlay.closed key app = plain_key key.code key app

  unfoldable pub handle_key : KeyEvent → App → Updated
  unfolding handle_command_input handle_help handle_filter handle_confirm act dispatch read_count
  handle_key key app = key_in app.overlay key app

  unfoldable pub update : AppMsg → App → Updated
  unfolding upsert_runs upsert_run clamp_cursors apply_server_event handle_key
  update AppMsg.quit app = (app, Effect.quit ∷ [])
  update (AppMsg.resize w h) app = quiet app
  update AppMsg.sse_disconnected app =
      quiet (say "SSE disconnected — reconnecting…" (record app { sse_connected = false }))
  update AppMsg.sse_reconnected app = quiet (say "Connected" (record app { sse_connected = true }))
  update AppMsg.tick app = quiet (record app { tick = (app.tick + 1) % 2 ^ 64 })
  update (AppMsg.runs_loaded runs next_cursor) app =
      quiet (record (upsert_runs runs (record app { runs = []; run_index = [] })) {
        next_cursor = next_cursor;
        loading = false;
        status_bar = "Ready";
      })
  update (AppMsg.more_runs_loaded runs next_cursor) app = quiet (record (upsert_runs runs app) {
    next_cursor = next_cursor;
    status_bar = append "Loaded " (append (show_nat (length runs)) " more runs");
  })
  update (AppMsg.cmd_ok msg) app = quiet (say msg app)
  update (AppMsg.cmd_err msg) app = quiet (say (append "Error: " msg) app)
  update (AppMsg.import_progress done total errors) app =
      quiet (say (import_text done total errors) app)
  update (AppMsg.server_event sequenced) app =
      apply_server_event sequenced.event (record app { last_seen_seq = sequenced.seq })
  update (AppMsg.run_fetched run) app =
      quiet (say (append "New run: " run.jira_issue_id) (clamp_cursors (upsert_run run app)))
  update (AppMsg.key key) app = handle_key key app
