-- ===== src/Runsd/Db/Queries/Calculations.antt =====
-- The statements on the table `calculations` of crates/runsd/src/db/queries.rs.
use ensurer_v.Prelude.{
  ℕ, String, ◌==◌, Option, none, List, [], ◌∷◌, ◌++◌, map, any, select, Result, ok, err, map_err,
  transpose, traverse, if◌then◌else◌,
}
use ensurer_v.Common.CalcStatus
use ensurer_v.Common.CalcStatus.{CalcStatus}
use ensurer_v.Common.Model.{Calculation, CalcId, RunId}
use ensurer_v.Runsd.Codec.{Codec}
use ensurer_v.Runsd.Error.{AppError, db, row_conversion, unknown_variant}
use ensurer_v.Runsd.Db.Row.{CalcRow, RunRow, parse_uuid, try_into_calc}
use ensurer_v.Runsd.Db.Changes.{
  find_calc, older, started_row, heartbeat_row, succeeded_row, failed_row, retrying_row,
  cancelled_row, pending_row, has_expired_lease, is_ready_retry, is_unfinished,
}
use ensurer_v.Runsd.Db.Tables.{Db, set_calc, order_by, distinct}

abbrev pub Write : Type 0
Write = Result AppError (Unit {0}) × Db

unfoldable pub parse_status : CalcRow → Result AppError CalcStatus
parse_status r =
    map_err (λ _. row_conversion (unknown_variant "calculations.status" r.status))
      (CalcStatus.from_str r.status)

module _ (codec : Codec) where
  -- The row that `insert_calculation` writes: the columns that it does not name are NULL.
  unfoldable pub new_row : ℕ → Calculation → CalcRow
  new_row now calc = record {
    id = codec.uuid_text calc.id;
    run_id = codec.uuid_text calc.run_id;
    kind = calc.kind;
    input_json = codec.json_text calc.input_json;
    idempotency_key = calc.idempotency_key;
    status = CalcStatus.to_string calc.status;
    attempt = calc.attempt;
    max_attempts = calc.max_attempts;
    next_attempt_at = none;
    lease_owner = none;
    lease_expires_at = none;
    error_kind = none;
    error_message = none;
    result_path = none;
    created_at = now;
    started_at = none;
    completed_at = none;
    updated_at = now;
  }

  -- `id` is the primary key and `run_id` refers to a run. The CHECK on `status` holds of the text
  -- of every `CalcStatus`.
  unfoldable pub insert_calculation : ℕ → Calculation → Db → Write
  unfolding new_row
  insert_calculation now calc tables =
      let row = new_row now calc in
      if any (λ (r : CalcRow). r.id == row.id) tables.calculations
      then (err (db "UNIQUE constraint failed: calculations.id"), tables)
      else if any (λ (r : RunRow). r.id == row.run_id) tables.runs
      then (ok tt, record tables { calculations = tables.calculations ++ row ∷ [] })
      else (err (db "FOREIGN KEY constraint failed"), tables)

  unfoldable pub get_calculation : CalcId → Db → Result AppError (Option Calculation)
  unfolding try_into_calc
  get_calculation id tables =
      map_err row_conversion
        (transpose (try_into_calc codec) (find_calc (codec.uuid_text id) tables.calculations))

  unfoldable pub list_calculations_for_run : RunId → Db → Result AppError (List Calculation)
  unfolding try_into_calc order_by
  list_calculations_for_run run_id tables = map_err row_conversion (
      traverse (try_into_calc codec) (
        order_by older
          (select (λ (r : CalcRow). r.run_id == codec.uuid_text run_id) tables.calculations)))

  -- `UPDATE calculations SET f WHERE id = ?`
  unfoldable pub update_calc : CalcId → (CalcRow → CalcRow) → Db → Write
  unfolding set_calc
  update_calc id f tables =
      (ok tt, record tables { calculations = set_calc (codec.uuid_text id) f tables.calculations })

  unfoldable pub update_calc_started : ℕ → CalcId → String → ℕ → Db → Write
  unfolding update_calc started_row
  update_calc_started now id lease_owner lease_expires_at =
      update_calc id (started_row now lease_owner lease_expires_at)

  unfoldable pub update_calc_heartbeat : ℕ → CalcId → ℕ → Db → Write
  unfolding update_calc heartbeat_row
  update_calc_heartbeat now id lease_expires_at =
      update_calc id (heartbeat_row now lease_expires_at)

  unfoldable pub update_calc_succeeded : ℕ → CalcId → String → Db → Write
  unfolding update_calc succeeded_row
  update_calc_succeeded now id result_path = update_calc id (succeeded_row now result_path)

  unfoldable pub update_calc_failed : ℕ → CalcId → String → String → Db → Write
  unfolding update_calc failed_row
  update_calc_failed now id error_kind error_message =
      update_calc id (failed_row now error_kind error_message)

  unfoldable pub update_calc_retrying : ℕ → CalcId → ℕ → ℕ → Db → Write
  unfolding update_calc retrying_row
  update_calc_retrying now id attempt next_attempt_at =
      update_calc id (retrying_row now attempt next_attempt_at)

  unfoldable pub update_calc_cancelled : ℕ → CalcId → Db → Write
  unfolding update_calc cancelled_row
  update_calc_cancelled now id = update_calc id (cancelled_row now)

  unfoldable pub update_calc_pending : ℕ → CalcId → Db → Write
  unfolding update_calc pending_row
  update_calc_pending now id = update_calc id (pending_row now)

  unfoldable pub list_expired_leases : ℕ → Db → Result AppError (List Calculation)
  unfolding try_into_calc
  list_expired_leases now tables =
      map_err row_conversion
        (traverse (try_into_calc codec) (select (has_expired_lease now) tables.calculations))

  unfoldable pub list_ready_retries : ℕ → Db → Result AppError (List Calculation)
  unfolding try_into_calc
  list_ready_retries now tables =
      map_err row_conversion
        (traverse (try_into_calc codec) (select (is_ready_retry now) tables.calculations))

  unfoldable pub list_active_run_ids : Db → Result AppError (List RunId)
  unfolding parse_uuid distinct
  list_active_run_ids tables = map_err row_conversion (
      traverse (parse_uuid codec "calculations.run_id")
        (distinct (map (λ (r : CalcRow). r.run_id) (select is_unfinished tables.calculations))))

  unfoldable pub get_calc_statuses_for_run : RunId → Db → Result AppError (List CalcStatus)
  unfolding parse_status
  get_calc_statuses_for_run run_id tables =
      traverse parse_status
        (select (λ (r : CalcRow). r.run_id == codec.uuid_text run_id) tables.calculations)
