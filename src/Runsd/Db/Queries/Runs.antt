-- ===== src/Runsd/Db/Queries/Runs.antt =====
-- The statements on the table `runs` of crates/runsd/src/db/queries.rs.
use ensurer_v.Prelude.{
  ℕ, String, ◌==◌, Bool, ◌&&◌, ◌||◌, Option, none, some, List, [], ◌∷◌, ◌++◌, any, select,
  find_first, take, Result, ok, err, ◌>>=◌, map_err, traverse, ltb, nat_eq, if◌then◌else◌,
}
use ensurer_v.Common.RunStatus
use ensurer_v.Common.RunStatus.{RunStatus}
use ensurer_v.Common.Model.{Run, RunId}
use ensurer_v.Runsd.Codec.{Codec}
use ensurer_v.Runsd.Error.{AppError, db, row_conversion}
use ensurer_v.Runsd.Db.Row.{RunRow, parse_id, try_into_run}
use ensurer_v.Runsd.Db.Tables.{Db, set_run, order_by, text_lt}
use ensurer_v.Runsd.Db.Queries.Calculations.{Write, list_calculations_for_run}

-- ORDER BY created_at DESC, id DESC
abbrev pub newer : RunRow → RunRow → Bool
newer a b = ltb b.created_at a.created_at || nat_eq a.created_at b.created_at && text_lt b.id a.id

-- created_at < ? OR (created_at = ? AND id < ?)
abbrev pub is_past : ℕ → String → RunRow → Bool
is_past created_at id r =
    ltb r.created_at created_at || nat_eq r.created_at created_at && text_lt r.id id

-- The WHERE of the four statements of `list_runs`. The last is for every other case: a cursor
-- with one half missing selects it too, with a filter or without.
unfoldable pub run_filter : Option String → Option ℕ → Option String → RunRow → Bool
run_filter (some s) (some cat) (some cid) r = r.status == s && is_past cat cid r
run_filter (some s) none none r = r.status == s
run_filter none (some cat) (some cid) r = is_past cat cid r
run_filter _ _ _ r = Bool.true

unfoldable pub list_rows : Option String → ℕ → Option ℕ → Option String → List RunRow → List RunRow
unfolding run_filter order_by
list_rows status_filter limit cursor_created_at cursor_id rows =
    take limit (order_by newer (select (run_filter status_filter cursor_created_at cursor_id) rows))

module _ (codec : Codec) where
  unfoldable pub insert_run : ℕ → RunId → String → String → Db → Write
  insert_run now id jira_issue_id submitted_by tables =
      let row : RunRow = record {
        id = codec.uuid_text id;
        jira_issue_id = jira_issue_id;
        submitted_by = submitted_by;
        status = "pending";
        created_at = now;
        updated_at = now;
      } in
      if any (λ (r : RunRow). r.id == row.id) tables.runs
      then (err (db "UNIQUE constraint failed: runs.id"), tables)
      else (ok tt, record tables { runs = tables.runs ++ row ∷ [] })

  unfoldable pub update_run_status : ℕ → RunId → RunStatus → Db → Write
  unfolding set_run
  update_run_status now id status tables = (
    ok tt,
    record tables {
      runs =
          set_run (codec.uuid_text id)
            (λ r. record r { status = RunStatus.to_string status; updated_at = now }) tables.runs;
    },
  )

  -- The match on the row that was fetched.
  unfoldable pub with_calcs : RunId → Db → Option RunRow → Result AppError (Option Run)
  unfolding list_calculations_for_run try_into_run
  with_calcs id tables none = ok none
  with_calcs id tables (some r) = do
    calcs ← list_calculations_for_run codec id tables
    run ← map_err row_conversion (try_into_run codec r calcs)
    ok (some run)

  unfoldable pub get_run : RunId → Db → Result AppError (Option Run)
  unfolding with_calcs
  get_run id tables =
      with_calcs id tables (find_first (λ (r : RunRow). r.id == codec.uuid_text id) tables.runs)

  -- One round of the loop over the rows of `list_runs`.
  unfoldable pub load_run : Db → RunRow → Result AppError Run
  unfolding parse_id list_calculations_for_run try_into_run
  load_run tables row = do
    run_id ← map_err row_conversion (parse_id codec row)
    calcs ← list_calculations_for_run codec run_id tables
    map_err row_conversion (try_into_run codec row calcs)

  unfoldable pub list_runs :
      Option String → ℕ → Option ℕ → Option String → Db → Result AppError (List Run)
  unfolding list_rows load_run
  list_runs status_filter limit cursor_created_at cursor_id tables =
      traverse (load_run tables)
        (list_rows status_filter limit cursor_created_at cursor_id tables.runs)
