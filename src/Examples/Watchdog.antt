-- ===== src/Examples/Watchdog.antt =====
-- crates/runsd/src/actor/watchdog.rs at concrete inputs: calculation 7 was left running, and its lease
-- is over when the clock reads 500000.
use ensurer_v.Prelude.{◌≡◌, ok, []}
use ensurer_v.Runsd.Db.Queries.Calculations.{list_expired_leases}
use ensurer_v.Runsd.Actor.World.{World}
use ensurer_v.Runsd.Actor.Watchdog.{tick}
use ensurer_v.Runsd.Actor.Watchdog.Settles.{tick-settles}
use ensurer_v.Examples.Samples.{plain, crashed, crashed-IsGood, flaky, flaky-IsQuiet, start_world}

abbrev late : World
late = record (start_world crashed) { step = 500 }

tick-settles_example : list_expired_leases plain 500000 (tick flaky late).1.tables ≡ ok []
tick-settles_example = tick-settles flaky flaky-IsQuiet late crashed-IsGood.0
