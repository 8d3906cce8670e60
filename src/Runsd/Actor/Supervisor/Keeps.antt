-- ===== src/Runsd/Actor/Supervisor/Keeps.antt =====
-- The tables stay sound under the operations of crates/runsd/src/actor/supervisor.rs.
use ensurer_v.Prelude.{ℕ, refl, String, List, [], ◌∷◌, Result, ok, err}
use ensurer_v.Common.Model.{RunId, CalcId, NewCalc, Calculation}
use ensurer_v.Runsd.Error.{AppError}
use ensurer_v.Runsd.Actor.Db.{DbCmd}
use ensurer_v.Runsd.Actor.World.{Env, World, Act, next, send}
use ensurer_v.Runsd.Actor.Calc.Sound.{IsFair, IsGood, send-IsGood}
use ensurer_v.Runsd.Actor.Run.{CalcSpec}
use ensurer_v.Runsd.Actor.Supervisor.{
  Setup, Supervisor, new_calculation, inserted, insert_calcs, submit_calcs, submit_run,
  reschedule_calc, retry_reset, retry_calc,
}

module _ (env : Env) (setup : Setup) (fair : IsFair env) where
  inserted-IsGood :
      (calc : Calculation) (others : Act (Result AppError (List CalcSpec)))
      → ((w : World) → IsGood env w → IsGood env (others w).1)
      → (r : Result AppError (Unit {0})) (w : World) → IsGood env w
      → IsGood env (inserted env setup calc others r w).1
  unfolding inserted
  inserted-IsGood calc others keep (err e) w h = h
  inserted-IsGood calc others keep (ok u) w h = keep w h

  insert_calcs-IsGood :
      (run_id : RunId) (now : ℕ) (calcs : List NewCalc) (w : World)
      → IsGood env w
      → IsGood env (insert_calcs env setup run_id now calcs w).1
  unfolding insert_calcs new_calculation
  insert_calcs-IsGood run_id now [] w h = h
  insert_calcs-IsGood run_id now (nc ∷ rest) w h =
      let calc = new_calculation env setup run_id (setup.new_uuid w.step) now nc in
      let (reply, v) = send env (DbCmd.insert_calculation calc) (next w) in
      inserted-IsGood calc (insert_calcs env setup run_id now rest)
        (insert_calcs-IsGood run_id now rest) reply v
        (send-IsGood env fair (DbCmd.insert_calculation calc) (next w) (refl, refl) h)

  submit_calcs-IsGood :
      (run_id : RunId) (calcs : List NewCalc) (s : Supervisor) (r : Result AppError (Unit {0}))
      (w : World)
      → IsGood env w
      → IsGood env (submit_calcs env setup run_id calcs s r w).1
  unfolding submit_calcs
  submit_calcs-IsGood run_id calcs s (err e) w h = h
  submit_calcs-IsGood run_id calcs s (ok u) w h =
      insert_calcs-IsGood run_id (env.clock w.step) calcs (next w) h

  -- For an environment in which the others send only what the actors issue, and chrono can hold the
  -- times that the database actor reads, sound tables with proper keys stay so during a submission,
  -- also one that fails halfway.
  pub submit_run-IsGood :
      (jira_issue_id submitted_by : String) (calcs : List NewCalc) (s : Supervisor) (w : World)
      → IsGood env w
      → IsGood env (submit_run env setup jira_issue_id submitted_by calcs s w).1
  unfolding submit_run
  submit_run-IsGood jira_issue_id submitted_by calcs s w h =
      let run_id = setup.new_uuid w.step in
      let cmd = DbCmd.insert_run run_id jira_issue_id submitted_by in
      let (reply, v) = send env cmd (next w) in
      submit_calcs-IsGood run_id calcs s reply v (send-IsGood env fair cmd (next w) tt h)

  pub reschedule_calc-IsGood :
      (run_id : RunId) (calc_id : CalcId) (s : Supervisor) (w : World)
      → IsGood env w
      → IsGood env (reschedule_calc env setup run_id calc_id s w).1
  unfolding reschedule_calc
  reschedule_calc-IsGood run_id calc_id s w h =
      send-IsGood env fair (DbCmd.get_calculation calc_id) w tt h

  retry_reset-IsGood :
      (run_id : RunId) (calc_id : CalcId) (s : Supervisor) (r : Result AppError (Unit {0}))
      (w : World)
      → IsGood env w
      → IsGood env (retry_reset env setup run_id calc_id s r w).1
  unfolding retry_reset
  retry_reset-IsGood run_id calc_id s (err e) w h = h
  retry_reset-IsGood run_id calc_id s (ok u) w h = reschedule_calc-IsGood run_id calc_id s w h

  -- For an environment in which the others send only what the actors issue, and chrono can hold the
  -- times that the database actor reads, sound tables with proper keys stay so during a retry that
  -- the API asks for.
  pub retry_calc-IsGood :
      (run_id : RunId) (calc_id : CalcId) (s : Supervisor) (w : World)
      → IsGood env w
      → IsGood env (retry_calc env setup run_id calc_id s w).1
  unfolding retry_calc
  retry_calc-IsGood run_id calc_id s w h =
      let (reply, v) = send env (DbCmd.calc_reset_pending calc_id) w in
      retry_reset-IsGood run_id calc_id s reply v
        (send-IsGood env fair (DbCmd.calc_reset_pending calc_id) w tt h)
