-- ===== src/Runs/App/Message.antt =====
-- The messages that the client's update takes (crates/runs/src/app/msg.rs), the commands that it
-- gives the network (crates/runs/src/network.rs), and its effects (crates/runs/src/app/update.rs).
use ensurer_v.Prelude.{ℕ, String, Option, List}
use ensurer_v.Common.Event.{SequencedEvent}
use ensurer_v.Common.Model.{RunId, CalcId, Run, NewCalc}
use ensurer_v.Runs.App.Keybindings.{KeyEvent}

pub data AppMsg : Type 0 where
  key : KeyEvent → AppMsg
  server_event : SequencedEvent → AppMsg
  runs_loaded : List Run → Option String → AppMsg
  more_runs_loaded : List Run → Option String → AppMsg
  run_fetched : Run → AppMsg
  cmd_ok : String → AppMsg
  cmd_err : String → AppMsg
  sse_disconnected sse_reconnected : AppMsg
  resize : ℕ → ℕ → AppMsg
  import_progress : (done total errors : ℕ) → AppMsg
  quit tick : AppMsg

-- A path is its text.
pub data NetworkCmd : Type 0 where
  submit_run : (jira_issue_id : String) (calcs : List NewCalc) → NetworkCmd
  cancel_run : (run_id : RunId) → NetworkCmd
  cancel_calc : (run_id : RunId) (calc_id : CalcId) → NetworkCmd
  retry_calc : (run_id : RunId) (calc_id : CalcId) → NetworkCmd
  import_directory : (path : String) → NetworkCmd
  load_more_runs : (cursor : String) → NetworkCmd
  refresh_runs : NetworkCmd
  fetch_run : (run_id : RunId) → NetworkCmd

pub data Effect : Type 0 where
  network : NetworkCmd → Effect
  quit : Effect
  save_result : (calc_id : CalcId) → Effect
  yank : String → Effect
