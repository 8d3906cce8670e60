-- ===== src/Runsd/Actor/Supervisor/Commands.antt =====
-- The supervisor's loop over its commands (crates/runsd/src/actor/supervisor.rs).
use ensurer_v.Prelude.{String, List, [], ◌∷◌, Result, ok}
use ensurer_v.Common.Model.{RunId, CalcId, NewCalc}
use ensurer_v.Runsd.Error.{AppError}
use ensurer_v.Runsd.Actor.World.{Env, Act}
use ensurer_v.Runsd.Actor.Supervisor
use ensurer_v.Runsd.Actor.Supervisor.{Supervisor, Setup}

-- The reply channels are left out: the loop gives the replies in their order.
pub data SupervisorCmd : Type 0 where
  submit_run : (jira_issue_id submitted_by : String) (calcs : List NewCalc) → SupervisorCmd
  cancel_run : RunId → SupervisorCmd
  cancel_calc reschedule_calc retry_calc : RunId → CalcId → SupervisorCmd
  shutdown : SupervisorCmd

pub data SupervisorReply : Type 0 where
  submitted : Result AppError RunId → SupervisorReply
  done : Result AppError (Unit {0}) → SupervisorReply

abbrev Obeyed : Type 0
Obeyed = List SupervisorReply × Supervisor

abbrev and_reply : {A : Type 0} → (A → SupervisorReply) → A × Obeyed → Obeyed
and_reply f (a, (replies, s)) = (f a ∷ replies, s)

module _ (env : Env) (setup : Setup) where
  unfoldable pub run : List SupervisorCmd → Supervisor → Act Obeyed
  unfolding Supervisor.submit_run Supervisor.cancel_run Supervisor.cancel_calc
      Supervisor.reschedule_calc Supervisor.retry_calc
  run [] s w = (([], s), w)
  run (submit_run jira_issue_id submitted_by calcs ∷ rest) s w =
      let ((reply, s'), w') =
        Supervisor.submit_run env setup jira_issue_id submitted_by calcs s w in
      let (obeyed, v) = run rest s' w' in (and_reply submitted (reply, obeyed), v)
  run (cancel_run run_id ∷ rest) s w =
      let (obeyed, v) = run rest (Supervisor.cancel_run env setup run_id s) w in
      (and_reply done (ok tt, obeyed), v)
  run (cancel_calc run_id calc_id ∷ rest) s w =
      let (obeyed, v) = run rest (Supervisor.cancel_calc env setup calc_id s) w in
      (and_reply done (ok tt, obeyed), v)
  run (reschedule_calc run_id calc_id ∷ rest) s w =
      let (s', w') = Supervisor.reschedule_calc env setup run_id calc_id s w in run rest s' w'
  run (retry_calc run_id calc_id ∷ rest) s w =
      let ((reply, s'), w') = Supervisor.retry_calc env setup run_id calc_id s w in
      let (obeyed, v) = run rest s' w' in (and_reply done (reply, obeyed), v)
  run (shutdown ∷ rest) s w = (([], s), w)
