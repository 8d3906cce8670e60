-- ===== src/Examples/Actors.antt =====
-- crates/runsd/src/actor at concrete inputs.
use ensurer_v.Prelude.{All, true, ◌≡◌, ◌↔◌, [], ◌∷◌, map, arith, ok, some, refl}
use ensurer_v.Runsd.Db.Tables.{empty}
use ensurer_v.Runsd.Db.Keys.{IsKeyed}
use ensurer_v.Runsd.Db.Queries.Calculations.{insert_calculation, get_calculation}
use ensurer_v.Runsd.Db.Queries.Recovery.{crash_recovery_sweep}
use ensurer_v.Runsd.Db.RoundTrip.{stored, get_calculation-insert_calculation}
use ensurer_v.Runsd.Db.Swept.{recover, sweep-recovers}
use ensurer_v.Runsd.Actor.Db.{serve}
use ensurer_v.Runsd.Actor.Db.Keyed.{history_keeps_keys}
use ensurer_v.Runsd.Actor.Calc.{start, cancel, run, stopped}
use ensurer_v.Runsd.Actor.Calc.Sound.{IsGood, run-IsGood}
use ensurer_v.Runsd.Actor.Run.{
  CalcSpec, notification, calc_finished, command, cancel_run, refresh_run_status, run_actor,
}
use ensurer_v.Runsd.Actor.Run.Refresh.{Agrees, refresh-Agrees}
use ensurer_v.Runsd.Actor.Run.Follows.{run_actor-ends, run_actor-cancels}
use ensurer_v.Runsd.Actor.Run.Ids.{has}
use ensurer_v.Examples.Samples.{
  plain, plain-IsFaithful, calc_7, opened, submission, crashed, crashed-IsGood, submitted,
  submitted-IsGood, flaky, flaky-IsFair, flaky-IsQuiet, flaky-IsTimely, flaky-IsRange, actor_7,
  run_3, start_world,
}

sweep-recovers_example :
    crash_recovery_sweep plain 500000 crashed
    ≡ (ok tt, record crashed { calculations = map (recover 500000) crashed.calculations })
sweep-recovers_example = sweep-recovers plain 500000 crashed crashed-IsGood.0 crashed-IsGood.1

run-IsGood_example :
    IsGood flaky (run flaky actor_7 (start ∷ cancel ∷ []) (start_world submitted)).1
run-IsGood_example =
    run-IsGood flaky flaky-IsFair flaky-IsRange 300000 (flaky-IsTimely 300000 (omega arith)) actor_7
      (start ∷ cancel ∷ []) (start_world submitted) (omega arith, omega arith) submitted-IsGood

history_keeps_keys_example : IsKeyed (serve plain submission empty)
history_keeps_keys_example = history_keeps_keys plain submission

refresh-Agrees_example :
    Agrees flaky 3 (refresh_run_status flaky 3 (start_world submitted)).1.tables
refresh-Agrees_example =
    refresh-Agrees flaky flaky-IsQuiet 3 (start_world submitted) submitted-IsGood.0

run_actor-ends_example :
    ((run_actor flaky run_3
        (notification (calc_finished 8) ∷ notification (calc_finished 7) ∷ [])
        (start_world submitted)).0.0
      ≡ stopped)
    ↔ All (λ (s : CalcSpec). has s.id (8 ∷ 7 ∷ []) ≡ true) run_3.calcs
run_actor-ends_example =
    run_actor-ends flaky run_3 (8 ∷ 7 ∷ []) (start_world submitted) (omega arith) (refl, (refl, tt))
      (refl, (refl, tt))

run_actor-cancels_example :
    (run_actor flaky run_3
      (notification (calc_finished 8) ∷ command cancel_run ∷ [])
      (start_world submitted)).0.1.sent
    ≡ (7, start) ∷ (8, start) ∷ (7, cancel) ∷ []
run_actor-cancels_example =
    run_actor-cancels flaky run_3 (8 ∷ []) (start_world submitted) (omega arith)

get_calculation-insert_calculation_example :
    ((insert_calculation plain 2 calc_7 opened).0 ≡ ok tt)
    × (get_calculation plain 7 (insert_calculation plain 2 calc_7 opened).1
        ≡ ok (some (stored 2 calc_7)))
unfolding serve
get_calculation-insert_calculation_example =
    get_calculation-insert_calculation plain plain-IsFaithful 2 calc_7 opened refl refl
      (record {
        attempt_fits = omega arith;
        max_attempts_fits = omega arith;
        next_attempt_none = refl;
        lease_owner_none = refl;
        lease_expires_none = refl;
        error_kind_none = refl;
        error_message_none = refl;
        result_path_none = refl;
        started_none = refl;
        completed_none = refl;
      })
      refl refl
