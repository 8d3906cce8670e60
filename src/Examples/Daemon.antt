-- ===== src/Examples/Daemon.antt =====
-- crates/runsd at concrete inputs.
use ensurer_v.Prelude.{◌≤◌, ◌≡◌, refl, ◌⊎◌, [], ◌∷◌, true, is_ok, ◌+◌, ◌*◌, ok, none, some}
use ensurer_v.Runsd.Db.Tables.{empty}
use ensurer_v.Runsd.Db.Tables.{Db}
use ensurer_v.Runsd.Db.Queries.Events.{list_events_since}
use ensurer_v.Runsd.Db.Replay.{list_events_since-pages}
use ensurer_v.Runsd.Actor.Db.Keyed.{history_keeps_keys}
use ensurer_v.Runsd.Actor.Db.{DbCmd, process, serve}
use ensurer_v.Runsd.Actor.Db.History.{history_reads}
use ensurer_v.Runsd.Actor.Calc.{start, cancel, run, stopped, on_start, heartbeat}
use ensurer_v.Runsd.Actor.Calc.Effects.{notifies_once, calls-le-starts}
use ensurer_v.Runsd.Actor.Calc.Sends.{IsSpared, HasRow}
use ensurer_v.Runsd.Actor.Calc.Rows.{IsLeft, on_start-HasRow}
use ensurer_v.Runsd.Actor.World.{Env, transient_error}
use ensurer_v.Runsd.Db.Row.{CalcRow}
use ensurer_v.Runsd.Db.Changes.{find_calc}
use ensurer_v.Runsd.Db.Queries.Calculations.{new_row, insert_calculation}
use ensurer_v.Runsd.Db.Queries.Runs.{insert_run}
use ensurer_v.Examples.Samples.{
  plain, plain-IsFaithful, submission, noted, flaky, in_time, actor_7, calc_7, submitted,
  start_world,
}

history_reads_example :
    is_ok (process plain 9 (DbCmd.get_run 3) (serve plain submission empty)).0 ≡ true
history_reads_example =
    history_reads plain plain-IsFaithful submission ((refl, tt), ((refl, (refl, refl)), tt)) 9
      (DbCmd.get_run 3) refl

notifies_once_example :
    let (ended, v) = run flaky actor_7 (start ∷ cancel ∷ []) (start_world empty) in
    (v.notified ≡ []) ⊎ ((ended ≡ stopped) × (v.notified ≡ 7 ∷ []))
notifies_once_example = notifies_once flaky actor_7 (start ∷ cancel ∷ []) (start_world empty)

calls-le-starts_example : (run flaky actor_7 (start ∷ start ∷ []) (start_world empty)).1.calls ≤ 2
calls-le-starts_example = calls-le-starts flaky actor_7 (start ∷ start ∷ []) (start_world empty)

-- The row of calculation 7 after the submission.
abbrev row_7 : CalcRow
row_7 = new_row plain 2 calc_7

submitted-row_7 : find_calc "iiiiiii" submitted.calculations ≡ some row_7
unfolding serve process insert_run insert_calculation new_row
submitted-row_7 = refl

-- A heartbeat of the actor comes before each of its commands.
abbrev beating : Env
beating = record flaky {
  others = λ n. (in_time 5000, heartbeat actor_7 (n * 1000)) ∷ [];
  served = λ _. in_time 5000;
}

beating-IsSpared : IsSpared beating 7
unfolding heartbeat
beating-IsSpared = record { others_spare = λ n. (tt, tt); not_refused = λ n. refl }

on_start-HasRow_example :
    HasRow beating actor_7
      (IsLeft actor_7 (transient_error "HTTP 503"))
      (on_start beating actor_7 [] (start_world submitted)).1
on_start-HasRow_example =
    on_start-HasRow beating actor_7 beating-IsSpared [] (transient_error "HTTP 503")
      (start_world submitted) row_7 (λ n. refl) (λ n. refl) submitted-row_7

abbrev noted_tables : Db
noted_tables = serve plain noted empty

list_events_since-pages_example :
    list_events_since 0 (2 + 5) noted_tables
    ≡ ok (
        record {
          seq = 1;
          run_id = none;
          calculation_id = none;
          kind = "run.submitted";
          payload_json = "{}";
          created_at = 1;
        }
        ∷ record {
          seq = 2;
          run_id = none;
          calculation_id = none;
          kind = "calculation.status_changed";
          payload_json = "{}";
          created_at = 2;
        }
        ∷ record {
          seq = 3;
          run_id = none;
          calculation_id = none;
          kind = "calculation.status_changed";
          payload_json = "{}";
          created_at = 3;
        }
        ∷ [])
unfolding list_events_since serve
list_events_since-pages_example =
    list_events_since-pages 0 2 5 noted_tables (history_keeps_keys plain noted) _ _ refl refl
