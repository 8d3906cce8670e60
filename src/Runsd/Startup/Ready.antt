-- ===== src/Runsd/Startup/Ready.antt =====
-- What the start of the daemon (crates/runsd/src/main.rs) leaves.
use ensurer_v.Prelude.{
  ℕ, suc, ◌+◌, ◌≤◌, ◌*◌, ◌≡◌, refl, subst, sym, ap, ◌∙◌, true, some, Bool-cases, inl, inr, List, [],
  ◌∷◌, map, All, Result, ltb, arith,
}
use ensurer_v.Common.CalcStatus
use ensurer_v.Common.CalcStatus.{failed, retrying}
use ensurer_v.Common.ErrorKind
use ensurer_v.Runsd.Codec.{Codec}
use ensurer_v.Runsd.Error.{AppError}
use ensurer_v.Runsd.Db.Row.{RunRow, CalcRow, as_u32}
use ensurer_v.Runsd.Db.Keys.{Unique, calc_ids, has_run}
use ensurer_v.Runsd.Db.Sound.{IsSound, IsDate, IsKind}
use ensurer_v.Runsd.Db.Queries.Recovery.{recovered_row, exhausted_row, is_abandoned}
use ensurer_v.Runsd.Db.Swept.{recover, revive, sweep-recovers}
use ensurer_v.Runsd.Actor.World.{Env, World}
use ensurer_v.Runsd.Actor.Calc.Sound.{IsFair, IsTimely, IsGood, retry_ahead, retry_ahead-le}
use ensurer_v.Runsd.Actor.Supervisor.{Supervisor, Setup, new, restore_active_runs}
use ensurer_v.Runsd.Actor.Supervisor.Obeys.{restored_run-IsGood}
use ensurer_v.Runsd.Actor.Supervisor.Commands.{SupervisorCmd, run}
use ensurer_v.Runsd.Startup.{startup}

crash-IsKind : IsKind (some "crash_exhausted")
unfolding ErrorKind.from_str
crash-IsKind = refl

module _ (codec : Codec) (now : ℕ)
    (later : (extra : ℕ) → extra ≤ retry_ahead → IsDate codec (now + extra)) where
  now-IsDate : IsDate codec now
  now-IsDate = subst (λ t. IsDate codec t) (omega arith) (later 0 (omega arith))

  exhausted-IsSound : (r : CalcRow) → IsSound codec r → IsSound codec (exhausted_row now r)
  unfolding exhausted_row CalcStatus.to_string
  exhausted-IsSound r (s, h) = (failed, ground (arith, now-IsDate, crash-IsKind))

  revive-IsSound : (x r : CalcRow) → IsSound codec r → IsSound codec (revive now x r)
  unfolding recovered_row CalcStatus.to_string
  revive-IsSound x r (s, h) =
      elim (Bool-cases (ltb (as_u32 x.max_attempts) (as_u32 (as_u32 x.attempt + 1)))) [
        | inl e ↦ rw e (exhausted-IsSound r (s, h))
        | inr e ↦ rw e (
          retrying,
          ground (
            arith,
            now-IsDate,
            later (as_u32 (as_u32 x.attempt + 1) * 5000)
                (omega (arith, retry_ahead-le (as_u32 x.attempt + 1))),
          ),
        )
      ]

  recover-IsSound : (r : CalcRow) → IsSound codec r → IsSound codec (recover now r)
  recover-IsSound r h = elim (Bool-cases (is_abandoned now r)) [
    | inl e ↦ rw e (revive-IsSound r r h)
    | inr e ↦ rw e h
  ]

  All-recover :
      (rows : List CalcRow)
      → All (IsSound codec) rows
      → All (IsSound codec) (map (recover now) rows)
  All-recover [] h = tt
  All-recover (r ∷ rs) h = (recover-IsSound r h.0, All-recover rs h.1)

recover-keys :
    (now : ℕ) (r : CalcRow) → ((recover now r).id ≡ r.id) × ((recover now r).run_id ≡ r.run_id)
unfolding recovered_row exhausted_row
recover-keys now r = ground arith

calc_ids-recover :
    (now : ℕ) (rows : List CalcRow) → calc_ids (map (recover now) rows) ≡ calc_ids rows
calc_ids-recover now [] = refl
calc_ids-recover now (r ∷ rs) = rw ((recover-keys now r).0, calc_ids-recover now rs) refl

runs_exist-recover :
    (now : ℕ) (runs : List RunRow) (rows : List CalcRow)
    → All (λ (r : CalcRow). has_run runs r.run_id ≡ true) rows
    → All (λ (r : CalcRow). has_run runs r.run_id ≡ true) (map (recover now) rows)
runs_exist-recover now runs [] h = tt
runs_exist-recover now runs (r ∷ rs) h =
    (ap (has_run runs) (recover-keys now r).1 ∙ h.0, runs_exist-recover now runs rs h.1)

module _ (env : Env) (setup : Setup) (fair : IsFair env) (timely : IsTimely env retry_ahead) where
  swept-IsGood :
      (w : World) (n k : ℕ)
      → IsGood env w
      → IsGood env (record w {
        step = k;
        tables = record w.tables {
          calculations = map (recover (env.clock n)) w.tables.calculations;
        };
      })
  swept-IsGood w n k (s, keyed) = (
    record {
      runs_sound = s.runs_sound;
      calcs_sound =
          All-recover env.codec (env.clock n) (timely n) w.tables.calculations s.calcs_sound;
    },
    record {
      runs_unique = keyed.runs_unique;
      calcs_unique =
          subst Unique (sym (calc_ids-recover (env.clock n) w.tables.calculations))
            keyed.calcs_unique;
      runs_exist =
          runs_exist-recover (env.clock n) w.tables.runs w.tables.calculations keyed.runs_exist;
      seqs_ascend = keyed.seqs_ascend;
      seqs_given = keyed.seqs_given;
    },
  )

  startup_lem :
      (w : World)
      → IsGood env w
      → startup env setup w
        ≡ restore_active_runs env setup new (record w {
          step = suc w.step;
          tables = record w.tables {
            calculations = map (recover (env.clock w.step)) w.tables.calculations;
          };
        })
  unfolding startup
  startup_lem w h = rw (sweep-recovers env.codec (env.clock w.step) w.tables h.0 h.1) refl

  -- For an environment in which the others send only what the actors issue, and chrono can hold the
  -- times that are read and those of the longest retry after them, on sound tables with proper
  -- keys: at the start of the daemon the sweep does not fail, and the active runs are restored on
  -- the tables in which each abandoned calculation is recovered. The tables stay sound with proper
  -- keys, also during any commands that the supervisor then obeys.
  pub startup-IsGood :
      (cmds : List SupervisorCmd) (w : World)
      → IsGood env w
      → (startup env setup w
          ≡ restore_active_runs env setup new (record w {
            step = suc w.step;
            tables = record w.tables {
              calculations = map (recover (env.clock w.step)) w.tables.calculations;
            };
          }))
        × (let ((reply, s), v) = startup env setup w in IsGood env (run env setup cmds s v).1)
  startup-IsGood cmds w h =
      let e = startup_lem w h in
      (
        e,
        subst
            (λ (p : (Result AppError (Unit {0}) × Supervisor) × World).
              IsGood env (run env setup cmds p.0.1 p.1).1)
            (sym e)
            (restored_run-IsGood env setup fair cmds new _ (swept-IsGood w w.step (suc w.step) h)),
      )
