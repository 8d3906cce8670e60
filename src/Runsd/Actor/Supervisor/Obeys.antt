-- ===== src/Runsd/Actor/Supervisor/Obeys.antt =====
-- The tables stay sound under the supervisor's start and its loop
-- (crates/runsd/src/actor/supervisor.rs).
use ensurer_v.Prelude.{List, [], ◌∷◌, Result, ok, err}
use ensurer_v.Common.Model.{RunId}
use ensurer_v.Runsd.Error.{AppError}
use ensurer_v.Runsd.Actor.Db.{DbCmd}
use ensurer_v.Runsd.Actor.World.{Env, World, send}
use ensurer_v.Runsd.Actor.Calc.Sound.{IsFair, IsGood, send-IsGood}
use ensurer_v.Runsd.Actor.Supervisor.{
  Setup, Supervisor, restored, restore_runs, restore_all, restore_active_runs,
}
use ensurer_v.Runsd.Actor.Supervisor.Keeps.{
  submit_run-IsGood, retry_calc-IsGood, reschedule_calc-IsGood,
}
use ensurer_v.Runsd.Actor.Supervisor.Commands.{SupervisorCmd, run}

module _ (env : Env) (setup : Setup) (fair : IsFair env) where
  restore_runs-IsGood :
      (ids : List RunId) (s : Supervisor) (w : World)
      → IsGood env w
      → IsGood env (restore_runs env setup ids s w).1
  unfolding restore_runs
  restore_runs-IsGood [] s w h = h
  restore_runs-IsGood (run_id ∷ rest) s w h =
      let cmd = DbCmd.list_calculations_for_run run_id in
      restore_runs-IsGood rest (restored env setup run_id s (send env cmd w).0) (send env cmd w).1
        (send-IsGood env fair cmd w tt h)

  restore_all-IsGood :
      (s : Supervisor) (r : Result AppError (List RunId)) (w : World)
      → IsGood env w
      → IsGood env (restore_all env setup s r w).1
  unfolding restore_all
  restore_all-IsGood s (err e) w h = h
  restore_all-IsGood s (ok ids) w h = restore_runs-IsGood ids s w h

  run_cmds-IsGood :
      (cmds : List SupervisorCmd) (s : Supervisor) (w : World)
      → IsGood env w
      → IsGood env (run env setup cmds s w).1
  unfolding run
  run_cmds-IsGood [] s w h = h
  run_cmds-IsGood (SupervisorCmd.submit_run jira by calcs ∷ rest) s w h =
      run_cmds-IsGood rest _ _ (submit_run-IsGood env setup fair jira by calcs s w h)
  run_cmds-IsGood (SupervisorCmd.cancel_run run_id ∷ rest) s w h = run_cmds-IsGood rest _ w h
  run_cmds-IsGood (SupervisorCmd.cancel_calc run_id calc_id ∷ rest) s w h =
      run_cmds-IsGood rest _ w h
  run_cmds-IsGood (SupervisorCmd.reschedule_calc run_id calc_id ∷ rest) s w h =
      run_cmds-IsGood rest _ _ (reschedule_calc-IsGood env setup fair run_id calc_id s w h)
  run_cmds-IsGood (SupervisorCmd.retry_calc run_id calc_id ∷ rest) s w h =
      run_cmds-IsGood rest _ _ (retry_calc-IsGood env setup fair run_id calc_id s w h)
  run_cmds-IsGood (SupervisorCmd.shutdown ∷ rest) s w h = h

  -- For an environment in which the others send only what the actors issue, and chrono can hold the
  -- times that the database actor reads, sound tables with proper keys stay so while the supervisor
  -- restores the active runs and then obeys any commands.
  pub restored_run-IsGood :
      (cmds : List SupervisorCmd) (s : Supervisor) (w : World)
      → IsGood env w
      → let ((reply, s'), v) = restore_active_runs env setup s w in
        IsGood env (run env setup cmds s' v).1
  unfolding restore_active_runs
  restored_run-IsGood cmds s w h = run_cmds-IsGood cmds _ _ (
      restore_all-IsGood s (send env DbCmd.list_active_run_ids w).0 _
        (send-IsGood env fair DbCmd.list_active_run_ids w tt h))
