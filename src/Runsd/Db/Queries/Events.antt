-- ===== src/Runsd/Db/Queries/Events.antt =====
-- The statements on the table `events` of crates/runsd/src/db/queries.rs.
use ensurer_v.Prelude.{
  ℕ, suc, ◌-◌, String, ◌==◌, Bool, false, not, ◌&&◌, Option, none, some, List, [], ◌∷◌, ◌++◌,
  select, take, length, Result, ok, ltb,
}
use ensurer_v.Common.Model.{RunId}
use ensurer_v.Runsd.Codec.{Codec}
use ensurer_v.Runsd.Error.{AppError}
use ensurer_v.Runsd.Db.Row.{EventRow}
use ensurer_v.Runsd.Db.Tables.{Db, order_by}

-- AUTOINCREMENT gives a row the number after the largest ever given.
unfoldable pub insert_event :
    ℕ → Option String → Option String → String → String → Db → Result AppError ℕ × Db
insert_event now run_id calculation_id kind payload_json tables =
    let row : EventRow = record {
      seq = suc tables.last_seq;
      run_id = run_id;
      calculation_id = calculation_id;
      kind = kind;
      payload_json = payload_json;
      created_at = now;
    } in
    (
      ok (suc tables.last_seq),
      record tables { events = tables.events ++ row ∷ []; last_seq = suc tables.last_seq },
    )

abbrev pub by_seq : EventRow → EventRow → Bool
by_seq a b = ltb a.seq b.seq

unfoldable pub list_events_since : ℕ → ℕ → Db → Result AppError (List EventRow)
unfolding order_by
list_events_since since_seq limit tables =
    ok (take limit (order_by by_seq (select (λ (e : EventRow). ltb since_seq e.seq) tables.events)))

-- `run_id = ?` is not true of NULL.
abbrev pub is_text : Option String → String → Bool
is_text none t = false
is_text (some s) t = s == t

unfoldable pub list_events_for_run : Codec → RunId → ℕ → Db → Result AppError (List EventRow)
unfolding order_by
list_events_for_run codec run_id since_seq tables = ok (
    order_by by_seq (
      select (λ (e : EventRow). is_text e.run_id (codec.uuid_text run_id) && ltb since_seq e.seq)
        tables.events))

abbrev pub is_kept : ℕ → EventRow → Bool
is_kept older_than_ms e = not (ltb e.created_at older_than_ms)

-- The result is the number of rows that are gone.
unfoldable pub prune_old_events : ℕ → Db → Result AppError ℕ × Db
prune_old_events older_than_ms tables =
    let kept = select (is_kept older_than_ms) tables.events in
    (ok (length tables.events - length kept), record tables { events = kept })
