-- ===== src/Runsd/Startup.antt =====
-- crates/runsd/src/main.rs: what the daemon does to the database before it serves requests, and the pruning of
-- old events. The command line, the sockets, the log and the signals are left out.
pub mod Ready
use ensurer_v.Prelude.{ℕ, ◌-◌, ◌*◌, Bool, true, false, List, [], ◌∷◌, Result, ok, err, ltb}
use ensurer_v.Runsd.Config.{Config}
use ensurer_v.Runsd.Error.{AppError}
use ensurer_v.Runsd.Db.Tables.{Db}
use ensurer_v.Runsd.Db.Queries.Recovery.{crash_recovery_sweep}
use ensurer_v.Runsd.Actor.Db.{DbCmd}
use ensurer_v.Runsd.Actor.World.{Env, World, Act, next, send}
use ensurer_v.Runsd.Actor.Supervisor.{Supervisor, Setup, new, restore_active_runs}

-- `Utc::now().timestamp_millis() - retention_days * 86_400_000`; a time before 1970 is 0, which no event is
-- older than either.
abbrev pub cutoff_ms : ℕ → ℕ → ℕ
cutoff_ms now retention_days = now - retention_days * 86400000

module _ (env : Env) (setup : Setup) where
  -- The supervisor is the new one; an error ends the daemon.
  abbrev pub recovered : Result AppError (Unit {0}) → Act (Result AppError (Unit {0}) × Supervisor)
  recovered (err e) w = ((err e, new), w)
  recovered (ok _) w = restore_active_runs env setup new w

  -- From the sweep to the supervisor's restoration. The sweep runs on the pool itself, before the database actor
  -- is spawned.
  unfoldable pub startup : Act (Result AppError (Unit {0}) × Supervisor)
  unfolding crash_recovery_sweep restore_active_runs
  startup w =
      let (reply, after) = crash_recovery_sweep env.codec (env.clock w.step) w.tables in
      recovered reply (record w { step = (next w).step; tables = after })

  -- One tick of the pruning task; what it answers is only logged.
  unfoldable pub prune_tick : ℕ → World → World
  unfolding send
  prune_tick retention_days w =
      (send env (DbCmd.prune_events (cutoff_ms (env.clock w.step) retention_days)) (next w)).1

  -- The task, for so many ticks; it is not spawned for 0 days.
  unfoldable pub prune_ticks : (ticks retention_days : ℕ) → World → World
  unfolding prune_tick
  prune_ticks ℕ.zero retention_days w = w
  prune_ticks (ℕ.suc n) retention_days w =
      let later = prune_ticks n retention_days (prune_tick retention_days w) in
      elim (ltb 0 retention_days) [ true ↦ later | false ↦ w ]
