-- ===== src/Runsd/Actor/Db.antt =====
-- crates/runsd/src/actor/db.rs: the database actor. Every other actor sends it commands, and it
-- serves them one at a time, so what the daemon does to the tables is a list of commands.
pub mod History
pub mod Spared
pub mod Keyed
use ensurer_v.Prelude.{ℕ, String, Option, List, [], ◌∷◌, Result, err, Bool, if◌then◌else◌}
use ensurer_v.Common.CalcStatus.{CalcStatus}
use ensurer_v.Common.RunStatus.{RunStatus}
use ensurer_v.Common.Model.{Calculation, Run, RunId, CalcId}
use ensurer_v.Runsd.Codec.{Codec}
use ensurer_v.Runsd.Error.{AppError}
use ensurer_v.Runsd.Db.Tables.{Db}
use ensurer_v.Runsd.Db.Queries.Runs
use ensurer_v.Runsd.Db.Queries.Calculations
use ensurer_v.Runsd.Db.Queries.Events

-- The reply channels are left out: `Reply` has the type of what is sent on each.
pub data DbCmd : Type 0 where
  insert_run : (id : RunId) (jira_issue_id submitted_by : String) → DbCmd
  update_run_status : (id : RunId) (status : RunStatus) → DbCmd
  get_run : (id : RunId) → DbCmd
  list_runs :
      (status_filter : Option String) (limit : ℕ) (cursor_created_at : Option ℕ)
      (cursor_id : Option String)
      → DbCmd
  insert_calculation : (calc : Calculation) → DbCmd
  get_calculation : (id : CalcId) → DbCmd
  list_calculations_for_run : (run_id : RunId) → DbCmd
  calc_started : (id : CalcId) (lease_owner : String) (lease_expires_at : ℕ) → DbCmd
  calc_heartbeat : (id : CalcId) (lease_expires_at : ℕ) → DbCmd
  calc_succeeded : (id : CalcId) (result_path : String) → DbCmd
  calc_failed : (id : CalcId) (error_kind error_message : String) → DbCmd
  calc_retrying : (id : CalcId) (attempt next_attempt_at : ℕ) → DbCmd
  calc_cancelled : (id : CalcId) → DbCmd
  calc_reset_pending : (id : CalcId) → DbCmd
  insert_event : (run_id calculation_id : Option String) (kind payload_json : String) → DbCmd
  list_expired_leases : (now : ℕ) → DbCmd
  list_ready_retries : (now : ℕ) → DbCmd
  list_active_run_ids : DbCmd
  get_calc_statuses_for_run : (run_id : RunId) → DbCmd
  prune_events : (older_than_ms : ℕ) → DbCmd

abbrev pub Reply : DbCmd → Type 0
Reply (get_run _) = Option Run
Reply (list_runs _ _ _ _) = List Run
Reply (get_calculation _) = Option Calculation
Reply (list_calculations_for_run _) = List Calculation
Reply (insert_event _ _ _ _) = ℕ
Reply (list_expired_leases _) = List Calculation
Reply (list_ready_retries _) = List Calculation
Reply list_active_run_ids = List RunId
Reply (get_calc_statuses_for_run _) = List CalcStatus
Reply (prune_events _) = ℕ
Reply _ = Unit

-- `process` of a command whose statements SQLite carries out. `now` is read from the clock.
unfoldable pub process : Codec → ℕ → (cmd : DbCmd) → Db → Result AppError (Reply cmd) × Db
unfolding Runs.insert_run Runs.update_run_status Runs.get_run Runs.list_runs
    Calculations.insert_calculation Calculations.get_calculation
    Calculations.list_calculations_for_run Calculations.update_calc_started
    Calculations.update_calc_heartbeat Calculations.update_calc_succeeded
    Calculations.update_calc_failed Calculations.update_calc_retrying
    Calculations.update_calc_cancelled Calculations.update_calc_pending
    Calculations.list_expired_leases Calculations.list_ready_retries
    Calculations.list_active_run_ids Calculations.get_calc_statuses_for_run Events.insert_event
    Events.prune_old_events
process codec now (insert_run id jira_issue_id submitted_by) tables =
    Runs.insert_run codec now id jira_issue_id submitted_by tables
process codec now (update_run_status id status) tables =
    Runs.update_run_status codec now id status tables
process codec now (get_run id) tables = (Runs.get_run codec id tables, tables)
process codec now (list_runs status_filter limit cursor_created_at cursor_id) tables =
    (Runs.list_runs codec status_filter limit cursor_created_at cursor_id tables, tables)
process codec now (insert_calculation calc) tables =
    Calculations.insert_calculation codec now calc tables
process codec now (get_calculation id) tables =
    (Calculations.get_calculation codec id tables, tables)
process codec now (list_calculations_for_run run_id) tables =
    (Calculations.list_calculations_for_run codec run_id tables, tables)
process codec now (calc_started id lease_owner lease_expires_at) tables =
    Calculations.update_calc_started codec now id lease_owner lease_expires_at tables
process codec now (calc_heartbeat id lease_expires_at) tables =
    Calculations.update_calc_heartbeat codec now id lease_expires_at tables
process codec now (calc_succeeded id result_path) tables =
    Calculations.update_calc_succeeded codec now id result_path tables
process codec now (calc_failed id error_kind error_message) tables =
    Calculations.update_calc_failed codec now id error_kind error_message tables
process codec now (calc_retrying id attempt next_attempt_at) tables =
    Calculations.update_calc_retrying codec now id attempt next_attempt_at tables
process codec now (calc_cancelled id) tables =
    Calculations.update_calc_cancelled codec now id tables
process codec now (calc_reset_pending id) tables =
    Calculations.update_calc_pending codec now id tables
process codec now (insert_event run_id calculation_id kind payload_json) tables =
    Events.insert_event now run_id calculation_id kind payload_json tables
process codec now (list_expired_leases t) tables =
    (Calculations.list_expired_leases codec t tables, tables)
process codec now (list_ready_retries t) tables =
    (Calculations.list_ready_retries codec t tables, tables)
process codec now list_active_run_ids tables =
    (Calculations.list_active_run_ids codec tables, tables)
process codec now (get_calc_statuses_for_run run_id) tables =
    (Calculations.get_calc_statuses_for_run codec run_id tables, tables)
process codec now (prune_events older_than_ms) tables = Events.prune_old_events older_than_ms tables

-- One command as the actor finds it: the reading of the clock, and whether SQLite refuses the
-- statement for a reason of its own (a full disk, a locked file).
pub record Served : Type 0 where
  pub now : ℕ
  pub refused : Bool

-- A refused statement changes nothing, and the reply is the error.
unfoldable pub answer : Codec → Served → (cmd : DbCmd) → Db → Result AppError (Reply cmd) × Db
unfolding process
answer codec served cmd tables =
    if served.refused
    then (err (AppError.db "sqlx::Error"), tables)
    else process codec served.now cmd tables

-- The loop of `spawn`, over the commands that arrive.
unfoldable pub serve : Codec → List (Served × DbCmd) → Db → Db
unfolding answer
serve codec [] tables = tables
serve codec ((served, cmd) ∷ rest) tables = serve codec rest (answer codec served cmd tables).1
