-- ===== src/Runsd/Actor/Db/Keyed.antt =====
-- The keys of the tables after any commands of the actor of crates/runsd/src/actor/db.rs.
use ensurer_v.Prelude.{
  ℕ, suc, ◌≤◌, ◌≡◌, refl, String, true, List, [], ◌∷◌, ◌++◌, arith, All-append, All-mono,
  All-select, Bool-cases, inl, inr, subst, sym,
}
use ensurer_v.Common.Model.{Calculation}
use ensurer_v.Runsd.Codec.{Codec}
use ensurer_v.Runsd.Db.Row.{RunRow, CalcRow, EventRow}
use ensurer_v.Runsd.Db.Tables.{Db, empty, set_calc, set_run}
use ensurer_v.Runsd.Db.Changes.{
  started_row, heartbeat_row, succeeded_row, failed_row, retrying_row, cancelled_row, pending_row,
}
use ensurer_v.Runsd.Db.Queries.Events.{is_kept}
use ensurer_v.Runsd.Db.Keys.{
  Unique, has_run, has_calc, IsKeyed, LeavesKeys, calc_ids-set_calc, run_ids-set_run,
  has_run-set_run, has_run-append, Unique-insert_run, Unique-insert_calc, Ascends-append,
  Ascends-select,
}
use ensurer_v.Runsd.Db.Sound.Keeps.{All-set_calc}
use ensurer_v.Runsd.Actor.Db.{
  DbCmd, insert_run, update_run_status, insert_calculation, calc_started, calc_heartbeat,
  calc_succeeded, calc_failed, calc_retrying, calc_cancelled, calc_reset_pending, insert_event,
  prune_events, process, Served, answer, serve,
}

calcs-IsKeyed :
    (id : String) (f : CalcRow → CalcRow) (tables : Db)
    → LeavesKeys f
    → IsKeyed tables
    → IsKeyed (record tables { calculations = set_calc id f tables.calculations })
calcs-IsKeyed id f tables keep h = record {
  runs_unique = h.runs_unique;
  calcs_unique =
      subst Unique (sym (calc_ids-set_calc id f tables.calculations keep)) h.calcs_unique;
  runs_exist = All-set_calc id f tables.calculations (λ r k. rw (keep r).1 k) h.runs_exist;
  seqs_ascend = h.seqs_ascend;
  seqs_given = h.seqs_given;
}

runs-IsKeyed :
    (id : String) (f : RunRow → RunRow) (tables : Db)
    → ((r : RunRow) → (f r).id ≡ r.id)
    → IsKeyed tables
    → IsKeyed (record tables { runs = set_run id f tables.runs })
runs-IsKeyed id f tables keep h = record {
  runs_unique = subst Unique (sym (run_ids-set_run id f tables.runs keep)) h.runs_unique;
  calcs_unique = h.calcs_unique;
  runs_exist =
      All-mono tables.calculations (λ r k. rw (has_run-set_run id f tables.runs r.run_id keep) k)
        h.runs_exist;
  seqs_ascend = h.seqs_ascend;
  seqs_given = h.seqs_given;
}

module _ (codec : Codec) where
  insert_run-IsKeyed :
      (now : ℕ) (id : ℕ) (jira by : String) (tables : Db)
      → IsKeyed tables
      → IsKeyed (process codec now (insert_run id jira by) tables).1
  unfolding process
  insert_run-IsKeyed now id jira by tables h =
      elim (Bool-cases (has_run tables.runs (codec.uuid_text id))) [
        | inl e ↦ rw e h
        | inr e ↦ rw e (record {
          runs_unique = Unique-insert_run tables.runs _ e h.runs_unique;
          calcs_unique = h.calcs_unique;
          runs_exist =
              All-mono tables.calculations (λ r k. has_run-append tables.runs _ r.run_id k)
                h.runs_exist;
          seqs_ascend = h.seqs_ascend;
          seqs_given = h.seqs_given;
        })
      ]

  insert_calculation-IsKeyed :
      (now : ℕ) (calc : Calculation) (tables : Db)
      → IsKeyed tables
      → IsKeyed (process codec now (insert_calculation calc) tables).1
  unfolding process
  insert_calculation-IsKeyed now calc tables h =
      elim (Bool-cases (has_calc tables.calculations (codec.uuid_text calc.id))) [
        | inl e ↦ rw e h
        | inr e ↦ rw e (elim (Bool-cases (has_run tables.runs (codec.uuid_text calc.run_id))) [
          | inl f ↦ rw f (record {
            runs_unique = h.runs_unique;
            calcs_unique = Unique-insert_calc tables.calculations _ e h.calcs_unique;
            runs_exist =
                All-append (λ (r : CalcRow). has_run tables.runs r.run_id ≡ true)
                  tables.calculations _ h.runs_exist (f, tt);
            seqs_ascend = h.seqs_ascend;
            seqs_given = h.seqs_given;
          })
          | inr f ↦ rw f h
        ])
      ]

  insert_event-IsKeyed :
      (now : ℕ) (event : EventRow) (tables : Db)
      → event.seq ≡ suc tables.last_seq
      → IsKeyed tables
      → IsKeyed
          (record tables { events = tables.events ++ event ∷ []; last_seq = suc tables.last_seq })
  insert_event-IsKeyed now event tables n h = record {
    runs_unique = h.runs_unique;
    calcs_unique = h.calcs_unique;
    runs_exist = h.runs_exist;
    seqs_ascend =
        Ascends-append 0 tables.last_seq tables.events event n (omega arith) h.seqs_given
          h.seqs_ascend;
    seqs_given =
        All-append (λ (e : EventRow). e.seq ≤ suc tables.last_seq) tables.events _
          (All-mono tables.events (λ e k. omega (arith, k)) h.seqs_given) (omega (arith, n), tt);
  }

  process-IsKeyed :
      (now : ℕ) (cmd : DbCmd) (tables : Db)
      → IsKeyed tables
      → IsKeyed (process codec now cmd tables).1
  unfolding process started_row heartbeat_row succeeded_row failed_row retrying_row cancelled_row
      pending_row
  process-IsKeyed now (insert_run id jira by) tables h = insert_run-IsKeyed now id jira by tables h
  process-IsKeyed now (insert_calculation calc) tables h =
      insert_calculation-IsKeyed now calc tables h
  process-IsKeyed now (update_run_status id status) tables h = runs-IsKeyed _ _ tables (λ r. refl) h
  process-IsKeyed now (calc_started id o e) tables h =
      calcs-IsKeyed _ _ tables (λ r. (refl, refl)) h
  process-IsKeyed now (calc_heartbeat id e) tables h =
      calcs-IsKeyed _ _ tables (λ r. (refl, refl)) h
  process-IsKeyed now (calc_succeeded id p) tables h =
      calcs-IsKeyed _ _ tables (λ r. (refl, refl)) h
  process-IsKeyed now (calc_failed id k m) tables h = calcs-IsKeyed _ _ tables (λ r. (refl, refl)) h
  process-IsKeyed now (calc_retrying id a n) tables h =
      calcs-IsKeyed _ _ tables (λ r. (refl, refl)) h
  process-IsKeyed now (calc_cancelled id) tables h = calcs-IsKeyed _ _ tables (λ r. (refl, refl)) h
  process-IsKeyed now (calc_reset_pending id) tables h =
      calcs-IsKeyed _ _ tables (λ r. (refl, refl)) h
  process-IsKeyed now (insert_event r c k p) tables h = insert_event-IsKeyed now _ tables refl h
  process-IsKeyed now (prune_events t) tables h = record {
    runs_unique = h.runs_unique;
    calcs_unique = h.calcs_unique;
    runs_exist = h.runs_exist;
    seqs_ascend = Ascends-select (is_kept t) 0 tables.events h.seqs_ascend;
    seqs_given =
        All-select (λ (e : EventRow). e.seq ≤ tables.last_seq) (is_kept t) tables.events
          h.seqs_given;
  }
  process-IsKeyed now _ tables h = h

  pub answer-IsKeyed :
      (served : Served) (cmd : DbCmd) (tables : Db)
      → IsKeyed tables
      → IsKeyed (answer codec served cmd tables).1
  unfolding answer
  answer-IsKeyed served cmd tables h = elim (Bool-cases served.refused) [
    | inl e ↦ rw e h
    | inr e ↦ rw e (process-IsKeyed served.now cmd tables h)
  ]

  pub serve-IsKeyed :
      (history : List (Served × DbCmd)) (tables : Db)
      → IsKeyed tables
      → IsKeyed (serve codec history tables)
  unfolding serve
  serve-IsKeyed [] tables h = h
  serve-IsKeyed ((served, cmd) ∷ rest) tables h =
      serve-IsKeyed rest (answer codec served cmd tables).1 (answer-IsKeyed served cmd tables h)

  -- After any commands whatever, from empty tables and with some commands refused by SQLite, the
  -- ids of the runs are unique and so are those of the calculations, every calculation belongs to
  -- a run that is there, and the numbers of the events increase in the order of their insertion
  -- and are at most the last one given.
  pub history_keeps_keys : (history : List (Served × DbCmd)) → IsKeyed (serve codec history empty)
  history_keeps_keys history = serve-IsKeyed history empty (record {
    runs_unique = tt;
    calcs_unique = tt;
    runs_exist = tt;
    seqs_ascend = tt;
    seqs_given = tt;
  })
