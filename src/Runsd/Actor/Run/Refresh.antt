-- ===== src/Runsd/Actor/Run/Refresh.antt =====
-- What the refresh of a run (crates/runsd/src/actor/run.rs) leaves in the tables.
use ensurer_v.Prelude.{
  ℕ, suc, ◌≡◌, refl, sym, ap, subst, ◌∙◌, String, ◌==◌, false, List, [], ◌∷◌, select, All,
  Bool-cases, inl, inr, ok, Result-cases,
}
use ensurer_v.Common.CalcStatus.{CalcStatus}
use ensurer_v.Common.RunStatus
use ensurer_v.Common.RunStatus.{derive_run_status}
use ensurer_v.Common.Model.{RunId}
use ensurer_v.Runsd.Db.Row.{RunRow}
use ensurer_v.Runsd.Db.Tables.{Db, set_run}
use ensurer_v.Runsd.Db.Queries.Calculations.{get_calc_statuses_for_run}
use ensurer_v.Runsd.Db.Sound.{IsSoundDb}
use ensurer_v.Runsd.Db.Sound.Reads.{get_calc_statuses_for_run-ok}
use ensurer_v.Runsd.Actor.Db.{DbCmd, process, answer, serve}
use ensurer_v.Runsd.Actor.World.{Env, World, send}
use ensurer_v.Runsd.Actor.Run.{refreshed, refresh_run_status}

-- Nobody else sends commands, and SQLite carries out every statement.
pub record IsQuiet (env : Env) : Type 0 where
  pub others_none : (n : ℕ) → env.others n ≡ []
  pub not_refused : (n : ℕ) → (env.served n).refused ≡ false

module _ (env : Env) (quiet : IsQuiet env) where
  pub send-quiet :
      (cmd : DbCmd) (w : World)
      → send env cmd w ≡ (
        (process env.codec (env.served w.step).now cmd w.tables).0,
        record w {
          step = suc w.step;
          tables = (process env.codec (env.served w.step).now cmd w.tables).1;
        },
      )
  unfolding send answer serve
  send-quiet cmd w = rw (quiet.others_none w.step, quiet.not_refused w.step) refl

-- What `update_run_status` sets in the rows of a run.
select-set_run :
    (id text : String) (now : ℕ) (rows : List RunRow)
    → All
        (λ (r : RunRow). r.status ≡ text)
        (select
          (λ (r : RunRow). r.id == id)
          (set_run id (λ r. record r { status = text; updated_at = now }) rows))
unfolding set_run
select-set_run id text now [] = tt
select-set_run id text now (r ∷ rs) = elim (Bool-cases (r.id == id)) [
  | inl e ↦ rw e (rw e (refl, select-set_run id text now rs))
  | inr e ↦ rw e (rw e (select-set_run id text now rs))
]

module _ (env : Env) where
  -- The status that the tables hold for a run agrees with its calculations.
  abbrev pub Agrees : RunId → Db → Type 0
  Agrees run_id tables =
      (statuses : List CalcStatus) × (get_calc_statuses_for_run env.codec run_id tables
        ≡ ok statuses)
      × All (λ (r : RunRow). r.status ≡ RunStatus.to_string (derive_run_status statuses))
          (select (λ (r : RunRow). r.id == env.codec.uuid_text run_id) tables.runs)

  -- The status that is read is set.
  abbrev refreshed_tables : ℕ → RunId → List CalcStatus → Db → Db
  refreshed_tables now run_id statuses tables = record tables {
    runs =
        set_run (env.codec.uuid_text run_id)
          (λ r. record r {
            status = RunStatus.to_string (derive_run_status statuses);
            updated_at = now;
          })
          tables.runs;
  }

  refresh_run_status-quiet :
      IsQuiet env
      → (run_id : RunId) (w : World) (statuses : List CalcStatus)
      → get_calc_statuses_for_run env.codec run_id w.tables ≡ ok statuses
      → (refresh_run_status env run_id w).1.tables
        ≡ refreshed_tables (env.served (suc w.step)).now run_id statuses w.tables
  unfolding refresh_run_status refreshed process
  refresh_run_status-quiet quiet run_id w statuses e =
      ap (λ p. (refreshed env run_id p.0 p.1).1.tables)
        (send-quiet env quiet (DbCmd.get_calc_statuses_for_run run_id) w)
      ∙ ap (λ r. (refreshed env run_id r (record w { step = suc w.step })).1.tables) e
      ∙ ap (λ p. p.1.tables)
          (send-quiet env quiet (DbCmd.update_run_status run_id (derive_run_status statuses))
            (record w { step = suc w.step }))

  -- While nobody else sends commands and SQLite refuses none, the refresh of a run on sound tables
  -- leaves the run with the status that is derived from its calculations.
  pub refresh-Agrees :
      IsQuiet env
      → (run_id : RunId) (w : World) → IsSoundDb env.codec w.tables
      → Agrees run_id (refresh_run_status env run_id w).1.tables
  unfolding get_calc_statuses_for_run
  refresh-Agrees quiet run_id w h =
      elim (Result-cases (get_calc_statuses_for_run env.codec run_id w.tables)) [
        | inl (ss, e) ↦ subst (Agrees run_id) (sym (refresh_run_status-quiet quiet run_id w ss e)) (
          ss,
          e,
          select-set_run (env.codec.uuid_text run_id) _ (env.served (suc w.step)).now w.tables.runs,
        )
        | inr (x, e) ↦ absurd (cc (get_calc_statuses_for_run-ok env.codec run_id w.tables h, e))
      ]
