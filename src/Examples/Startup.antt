-- ===== src/Examples/Startup.antt =====
-- The start of the daemon (crates/runsd/src/main.rs) after a crash: calculation 7 is running.
use ensurer_v.Prelude.{arith, ◌≡◌, suc, map, [], ◌∷◌}
use ensurer_v.Runsd.Db.Swept.{recover}
use ensurer_v.Runsd.Actor.Calc.Sound.{IsGood, retry_ahead}
use ensurer_v.Runsd.Actor.Supervisor.{new, restore_active_runs}
use ensurer_v.Runsd.Actor.Supervisor.Commands.{SupervisorCmd, run}
use ensurer_v.Runsd.Startup.{startup}
use ensurer_v.Runsd.Startup.Ready.{startup-IsGood}
use ensurer_v.Examples.Samples.{
  flaky, flaky-IsFair, flaky-IsTimely, crashed, crashed-IsGood, setup, start_world,
}

startup-IsGood_example :
    let w = start_world crashed in
    (startup flaky setup w
      ≡ restore_active_runs flaky setup new (record w {
        step = suc w.step;
        tables = record w.tables {
          calculations = map (recover (flaky.clock w.step)) w.tables.calculations;
        };
      }))
    × (let ((reply, s), v) = startup flaky setup w in
        IsGood flaky (run flaky setup (SupervisorCmd.retry_calc 3 7 ∷ []) s v).1)
startup-IsGood_example =
    startup-IsGood flaky setup flaky-IsFair (flaky-IsTimely retry_ahead (omega arith))
      (SupervisorCmd.retry_calc 3 7 ∷ []) (start_world crashed) crashed-IsGood
