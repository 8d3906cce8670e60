-- ===== src/Examples/Supervisor.antt =====
-- crates/runsd/src/actor/supervisor.rs at concrete inputs.
use ensurer_v.Prelude.{◌≡◌, [], ◌∷◌}
use ensurer_v.Common.Json.{Json}
use ensurer_v.Common.Model.{NewCalc}
use ensurer_v.Runsd.Actor.Supervisor.{Supervisor, new, submit_run, cancel_calc}
use ensurer_v.Runsd.Actor.Supervisor.Cancels.{at_start, after_submit, cancel_calc-ignored}
use ensurer_v.Runsd.Actor.Supervisor.Spawns.{Spawns, submit_run-Spawns}
use ensurer_v.Examples.Samples.{flaky, submitted, start_world, setup}

abbrev pricing : NewCalc
pricing = record { kind = "pricing"; input = Json.null }

submit_run-Spawns_example :
    Spawns flaky setup
      (pricing ∷ [])
      new
      (submit_run flaky setup "JIRA-2" "anonymous" (pricing ∷ []) new (start_world submitted)).0
submit_run-Spawns_example =
    submit_run-Spawns flaky setup "JIRA-2" "anonymous" (pricing ∷ []) new (start_world submitted)

abbrev busy : Supervisor
busy = (submit_run flaky setup "JIRA-2" "anonymous" (pricing ∷ []) new (start_world submitted)).0.1

cancel_calc-ignored_example : cancel_calc flaky setup 102 busy ≡ busy
cancel_calc-ignored_example =
    cancel_calc-ignored flaky setup busy
      (after_submit at_start "JIRA-2" "anonymous" (pricing ∷ []) (start_world submitted)) 102
