-- ===== src/Runsd/Actor/Run.antt =====
-- crates/runsd/src/actor/run.rs: the actor of a run, which spawns an actor for each calculation and
-- follows them to the end.
pub mod Ids
pub mod Followed
pub mod Follows
pub mod Refresh
use ensurer_v.Prelude.{
  ℕ, suc, ◌+◌, String, append, Bool, true, false, not, List, [], ◌∷◌, ◌++◌, map, select, length,
  leb, nat_eq, Result, ok, err, if◌then◌else◌,
}
use ensurer_v.Common.CalcStatus.{CalcStatus}
use ensurer_v.Common.RunStatus.{derive_run_status}
use ensurer_v.Common.Json.{Json}
use ensurer_v.Common.Model.{RunId, CalcId}
use ensurer_v.Runsd.Config.{RetryConfig, LeaseConfig}
use ensurer_v.Runsd.Error.{AppError}
use ensurer_v.Runsd.Actor.Db.{get_calc_statuses_for_run, update_run_status}
use ensurer_v.Runsd.Actor.World.{Env, World, Act, ◌>>=◌, pure, send}
use ensurer_v.Runsd.Actor.Calc.{CalcActor, CalcCmd, start, cancel, Ended, stopped, waiting}

pub data RunNotification : Type 0 where
  calc_finished : CalcId → RunNotification
  cancelled : RunNotification  -- `RunNotification::Cancel`

pub data RunCmd : Type 0 where
  cancel_run : RunCmd  -- `RunCmd::Cancel`

-- The tuple (id, kind, input, idem_key, attempt, max).
pub record CalcSpec : Type 0 where
  pub id : CalcId
  pub kind : String
  pub input_json : Json
  pub idem_key : String
  pub attempt : ℕ
  pub max_attempts : ℕ

pub record RunActor : Type 0 where
  pub run_id : RunId
  pub retry_cfg : RetryConfig
  pub lease_cfg : LeaseConfig
  pub calcs : List CalcSpec

-- The local state of `run`: the keys of `calc_txs`, `finished`, what was sent to the actors of
-- the calculations, oldest first, and these actors.
pub record Following : Type 0 where
  pub calc_txs : List CalcId
  pub finished : ℕ
  pub sent : List (CalcId × CalcCmd)
  pub spawned : List CalcActor

-- What the `select!` gives in one round.
pub data Arrival : Type 0 where
  command : RunCmd → Arrival
  commands_closed notifications_closed : Arrival
  notification : RunNotification → Arrival

abbrev pub without : CalcId → List CalcId → List CalcId
without id = select (λ x. not (nat_eq x id))

abbrev pub unspawned : Following
unspawned = record { calc_txs = []; finished = 0; sent = []; spawned = [] }

-- `Cancel` to every actor that is left. The order of a `HashMap` is not specified; here it is
-- that of the spawning.
unfoldable pub cancel_all : Following → Following
cancel_all f = record f { sent = f.sent ++ map (λ id. (id, cancel)) f.calc_txs }

unfoldable pub calc_done : CalcId → Following → Following
calc_done id f = record f { calc_txs = without id f.calc_txs; finished = suc f.finished }

module _ (env : Env) where
  -- The actor that is spawned for a calculation.
  unfoldable pub calc_actor : RunActor → CalcSpec → CalcActor
  calc_actor a s = record {
    id = s.id;
    run_id = a.run_id;
    kind = s.kind;
    input_json = s.input_json;
    idempotency_key = s.idem_key;
    attempt = s.attempt;
    max_attempts = s.max_attempts;
    retry_cfg = a.retry_cfg;
    lease_cfg = a.lease_cfg;
    worker_id = append "worker-" (env.codec.uuid_text a.run_id);
  }

  -- The first loop: a later calculation of the same id takes the place of an earlier one.
  unfoldable pub spawn_calcs : RunActor → List CalcSpec → Following → Following
  unfolding calc_actor
  spawn_calcs a [] f = f
  spawn_calcs a (s ∷ rest) f = spawn_calcs a rest (record f {
    calc_txs = without s.id f.calc_txs ++ s.id ∷ [];
    sent = f.sent ++ (s.id, start) ∷ [];
    spawned = f.spawned ++ calc_actor a s ∷ [];
  })

  unfoldable pub refreshed : RunId → Result AppError (List CalcStatus) → Act (Unit {0})
  unfolding ◌>>=◌ pure send derive_run_status
  refreshed run_id (err e) = pure tt
  refreshed run_id (ok statuses) = do
    _ ← send env (update_run_status run_id (derive_run_status statuses))
    pure tt

  unfoldable pub refresh_run_status : RunId → Act (Unit {0})
  unfolding ◌>>=◌ send refreshed
  refresh_run_status run_id = do
    statuses ← send env (get_calc_statuses_for_run run_id)
    refreshed run_id statuses

  -- The second loop, over what arrives.
  unfoldable pub follow : RunId → ℕ → List Arrival → Following → World → (Ended × Following) × World
  unfolding refresh_run_status cancel_all calc_done
  follow run_id total [] f w = ((waiting, f), w)
  follow run_id total (command cancel_run ∷ rest) f w = ((stopped, cancel_all f), w)
  follow run_id total (commands_closed ∷ rest) f w = ((stopped, cancel_all f), w)
  follow run_id total (notifications_closed ∷ rest) f w = ((stopped, f), w)
  follow run_id total (notification cancelled ∷ rest) f w = ((stopped, f), w)
  follow run_id total (notification (calc_finished id) ∷ rest) f w =
      let g = calc_done id f in
      let v = (refresh_run_status run_id w).1 in
      let goes_on = follow run_id total rest g v in
      if leb total g.finished then ((stopped, g), v) else goes_on

  -- `total` counts the keys, so that a repeated id is counted once.
  unfoldable pub run_actor : RunActor → List Arrival → World → (Ended × Following) × World
  unfolding spawn_calcs follow
  run_actor a arrivals w =
      let f = spawn_calcs a a.calcs unspawned in follow a.run_id (length f.calc_txs) arrivals f w
