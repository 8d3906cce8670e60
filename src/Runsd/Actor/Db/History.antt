-- ===== src/Runsd/Actor/Db/History.antt =====
-- What the tables hold after any commands that the actors send, in any order (the actor loop of
-- crates/runsd/src/actor/db.rs).
use ensurer_v.Prelude.{
  ℕ, ◌≡◌, refl, String, ◌==◌, Bool, true, false, some, List, [], ◌∷◌, arith, All, All-append,
  Bool-cases, inl, inr, is_ok, any,
}
use ensurer_v.Common.CalcStatus
use ensurer_v.Common.RunStatus
use ensurer_v.Common.Model.{Calculation}
use ensurer_v.Runsd.Codec.{Codec, IsFaithful}
use ensurer_v.Runsd.Db.Row.{RunRow, CalcRow}
use ensurer_v.Runsd.Db.Tables.{Db, empty, set_calc}
use ensurer_v.Runsd.Db.Sound.{IsSound, IsSoundRun, IsSoundDb, IsDate, IsKind}
use ensurer_v.Runsd.Db.Sound.Keeps.{
  All-set_calc, All-set_run, started-IsSound, heartbeat-IsSound, succeeded-IsSound, failed-IsSound,
  retrying-IsSound, cancelled-IsSound, pending-IsSound, new_row-IsSound, status-IsSoundRun,
}
use ensurer_v.Runsd.Db.Sound.Reads.{
  get_run-ok, list_runs-ok, get_calculation-ok, list_calculations_for_run-ok,
  list_expired_leases-ok, list_ready_retries-ok, list_active_run_ids-ok,
  get_calc_statuses_for_run-ok,
}
use ensurer_v.Runsd.Actor.Db.{
  DbCmd, insert_run, update_run_status, get_run, list_runs, insert_calculation, get_calculation,
  list_calculations_for_run, calc_started, calc_heartbeat, calc_succeeded, calc_failed,
  calc_retrying, calc_cancelled, calc_reset_pending, insert_event, list_expired_leases,
  list_ready_retries, list_active_run_ids, get_calc_statuses_for_run, prune_events, process, Served,
  answer, serve,
}

-- Neither of the two commands that a constraint of the schema may refuse.
abbrev pub is_unconstrained : DbCmd → Bool
is_unconstrained (insert_run _ _ _) = false
is_unconstrained (insert_calculation _) = false
is_unconstrained _ = true

module _ (codec : Codec) where
  -- What the senders see to: times that chrono can hold, error kinds that are the text of one, and
  -- new calculations that are pending at attempt 0.
  abbrev pub IsIssued : DbCmd → Type 0
  IsIssued (insert_calculation calc) = (calc.status ≡ CalcStatus.pending) × (calc.attempt ≡ 0)
  IsIssued (calc_started _ _ lease_expires_at) = IsDate codec lease_expires_at
  IsIssued (calc_heartbeat _ lease_expires_at) = IsDate codec lease_expires_at
  IsIssued (calc_failed _ error_kind _) = IsKind (some error_kind)
  IsIssued (calc_retrying _ _ next_attempt_at) = IsDate codec next_attempt_at
  IsIssued _ = Unit

  abbrev pub IsServable : Served × DbCmd → Type 0
  IsServable (served, cmd) = IsDate codec served.now × IsIssued cmd

  calcs-IsSoundDb :
      (id : String) (f : CalcRow → CalcRow) (tables : Db)
      → ((r : CalcRow) → IsSound codec r → IsSound codec (f r))
      → IsSoundDb codec tables
      → IsSoundDb codec (record tables { calculations = set_calc id f tables.calculations })
  calcs-IsSoundDb id f tables keep h = record {
    runs_sound = h.runs_sound;
    calcs_sound = All-set_calc id f tables.calculations keep h.calcs_sound;
  }

  insert_run-IsSoundDb :
      IsFaithful codec
      → (now : ℕ) → IsDate codec now
      → (id : ℕ) (jira by : String) (tables : Db) → IsSoundDb codec tables
      → IsSoundDb codec (process codec now (insert_run id jira by) tables).1
  unfolding process RunStatus.from_str
  insert_run-IsSoundDb laws now d id jira by tables h =
      elim (Bool-cases (any (λ (r : RunRow). r.id == codec.uuid_text id) tables.runs)) [
        | inl e ↦ rw e h
        | inr e ↦ rw e (record {
          runs_sound =
              All-append (IsSoundRun codec) tables.runs _ h.runs_sound
                (ground (arith, laws.uuid_round id), tt);
          calcs_sound = h.calcs_sound;
        })
      ]

  insert_calculation-IsSoundDb :
      IsFaithful codec
      → (now : ℕ) → IsDate codec now
      → (calc : Calculation) → IsIssued (insert_calculation calc)
      → (tables : Db) → IsSoundDb codec tables
      → IsSoundDb codec (process codec now (insert_calculation calc) tables).1
  unfolding process
  insert_calculation-IsSoundDb laws now d calc i tables h =
      elim (Bool-cases
        (any (λ (r : CalcRow). r.id == codec.uuid_text calc.id) tables.calculations)) [
          | inl e ↦ rw e h
          | inr e ↦
              rw e
                (elim (Bool-cases
                  (any (λ (r : RunRow). r.id == codec.uuid_text calc.run_id) tables.runs)) [
                    | inl f ↦ rw f (record {
                      runs_sound = h.runs_sound;
                      calcs_sound =
                          All-append (IsSound codec) tables.calculations _ h.calcs_sound
                            (new_row-IsSound codec now d laws calc i.0 i.1, tt);
                    })
                    | inr f ↦ rw f h
                  ])
        ]

  process-IsSoundDb :
      IsFaithful codec
      → (now : ℕ) → IsDate codec now
      → (cmd : DbCmd) → IsIssued cmd
      → (tables : Db) → IsSoundDb codec tables
      → IsSoundDb codec (process codec now cmd tables).1
  unfolding process
  process-IsSoundDb laws now d (insert_run id jira by) i tables h =
      insert_run-IsSoundDb laws now d id jira by tables h
  process-IsSoundDb laws now d (update_run_status id status) i tables h = record {
    runs_sound = All-set_run _ _ tables.runs (status-IsSoundRun codec now d status) h.runs_sound;
    calcs_sound = h.calcs_sound;
  }
  process-IsSoundDb laws now d (insert_calculation calc) i tables h =
      insert_calculation-IsSoundDb laws now d calc i tables h
  process-IsSoundDb laws now d (calc_started id owner expires) i tables h =
      calcs-IsSoundDb _ _ tables (started-IsSound codec now d owner expires i) h
  process-IsSoundDb laws now d (calc_heartbeat id expires) i tables h =
      calcs-IsSoundDb _ _ tables (heartbeat-IsSound codec now d expires i) h
  process-IsSoundDb laws now d (calc_succeeded id path) i tables h =
      calcs-IsSoundDb _ _ tables (succeeded-IsSound codec now d path) h
  process-IsSoundDb laws now d (calc_failed id kind message) i tables h =
      calcs-IsSoundDb _ _ tables (failed-IsSound codec now d kind message i) h
  process-IsSoundDb laws now d (calc_retrying id attempt next) i tables h =
      calcs-IsSoundDb _ _ tables (retrying-IsSound codec now d attempt next i) h
  process-IsSoundDb laws now d (calc_cancelled id) i tables h =
      calcs-IsSoundDb _ _ tables (cancelled-IsSound codec now d) h
  process-IsSoundDb laws now d (calc_reset_pending id) i tables h =
      calcs-IsSoundDb _ _ tables (pending-IsSound codec now d) h
  process-IsSoundDb laws now d (insert_event r c k p) i tables h = record {
    runs_sound = h.runs_sound;
    calcs_sound = h.calcs_sound;
  }
  process-IsSoundDb laws now d (prune_events t) i tables h = record {
    runs_sound = h.runs_sound;
    calcs_sound = h.calcs_sound;
  }
  process-IsSoundDb laws now d _ i tables h = h

  pub answer-IsSoundDb :
      IsFaithful codec
      → (served : Served) (cmd : DbCmd) → IsServable (served, cmd)
      → (tables : Db) → IsSoundDb codec tables
      → IsSoundDb codec (answer codec served cmd tables).1
  unfolding answer
  answer-IsSoundDb laws served cmd i tables h = elim (Bool-cases served.refused) [
    | inl e ↦ rw e h
    | inr e ↦ rw e (process-IsSoundDb laws served.now i.0 cmd i.1 tables h)
  ]

  pub serve-IsSoundDb :
      IsFaithful codec
      → (history : List (Served × DbCmd)) → All IsServable history
      → (tables : Db) → IsSoundDb codec tables
      → IsSoundDb codec (serve codec history tables)
  unfolding serve
  serve-IsSoundDb laws [] i tables h = h
  serve-IsSoundDb laws ((served, cmd) ∷ rest) i tables h =
      serve-IsSoundDb laws rest i.1 (answer codec served cmd tables).1
        (answer-IsSoundDb laws served cmd i.0 tables h)

  pub process-ok :
      (now : ℕ) (cmd : DbCmd)
      → is_unconstrained cmd ≡ true
      → (tables : Db) → IsSoundDb codec tables
      → is_ok (process codec now cmd tables).0 ≡ true
  unfolding process
  process-ok now (insert_run id jira by) u tables h = cc
  process-ok now (insert_calculation calc) u tables h = cc
  process-ok now (get_run id) u tables h = get_run-ok codec id tables h
  process-ok now (list_runs s l c i) u tables h = list_runs-ok codec s l c i tables h
  process-ok now (get_calculation id) u tables h = get_calculation-ok codec id tables h
  process-ok now (list_calculations_for_run id) u tables h =
      list_calculations_for_run-ok codec id tables h
  process-ok now (list_expired_leases t) u tables h = list_expired_leases-ok codec t tables h
  process-ok now (list_ready_retries t) u tables h = list_ready_retries-ok codec t tables h
  process-ok now list_active_run_ids u tables h = list_active_run_ids-ok codec tables h
  process-ok now (get_calc_statuses_for_run id) u tables h =
      get_calc_statuses_for_run-ok codec id tables h
  process-ok now _ u tables h = refl

  -- If the other crates keep the laws of `IsFaithful`: after any commands that the actors issue, at
  -- times that chrono can hold and some of them refused by SQLite, every row of the two tables can
  -- be read back: a command that SQLite carries out and that no constraint can refuse is answered
  -- without an error.
  pub history_reads :
      IsFaithful codec
      → (history : List (Served × DbCmd)) → All IsServable history
      → (now : ℕ) (cmd : DbCmd) → is_unconstrained cmd ≡ true
      → is_ok (process codec now cmd (serve codec history empty)).0 ≡ true
  history_reads laws history i now cmd u =
      process-ok now cmd u (serve codec history empty)
        (serve-IsSoundDb laws history i empty (record { runs_sound = tt; calcs_sound = tt }))
