-- ===== src/Runsd/Actor/Watchdog.antt =====
-- crates/runsd/src/actor/watchdog.rs: one tick of the watchdog. The result of an action is the calls
-- of `SupervisorHandle::reschedule_calc`, in order.
pub mod Keeps
pub mod Settles
use ensurer_v.Prelude.{ℕ, ◌+◌, ◌*◌, List, [], ◌∷◌, ◌++◌, map, Result, ok, err, ltb, if◌then◌else◌}
use ensurer_v.Common.Model.{Calculation, RunId, CalcId}
use ensurer_v.Runsd.Error.{AppError}
use ensurer_v.Runsd.Db.Row.{as_u32}
use ensurer_v.Runsd.Actor.Db.{calc_failed, calc_retrying, list_expired_leases, list_ready_retries}
use ensurer_v.Runsd.Actor.World.{Env, Act, ◌>>=◌, pure, read_clock, send}

abbrev pub Requests : Type 0
Requests = List (RunId × CalcId)

abbrev pub request_for : Calculation → RunId × CalcId
request_for calc = (calc.run_id, calc.id)

-- Nothing is rescheduled after an error.
abbrev pub request_if_ok : Calculation → Result AppError (Unit {0}) → Requests
request_if_ok calc (ok _) = request_for calc ∷ []
request_if_ok calc (err e) = []

module _ (env : Env) where
  -- One round of the loop over the expired leases. An u32 that overflows wraps around in a release
  -- build.
  unfoldable pub expire : ℕ → Calculation → Act Requests
  unfolding ◌>>=◌ pure send
  expire now calc =
      let next_attempt = as_u32 (calc.attempt + 1) in
      if ltb calc.max_attempts next_attempt
      then (do
        _ ← send env (calc_failed calc.id "crash_exhausted" "lease expired; attempts exhausted")
        pure [])
      else (do
        reply ← send env (calc_retrying calc.id next_attempt (now + 5000 * next_attempt))
        pure (request_if_ok calc reply))

  unfoldable pub expire_all : ℕ → List Calculation → Act Requests
  unfolding ◌>>=◌ pure expire
  expire_all now [] = pure []
  expire_all now (calc ∷ calcs) = do
    first ← expire now calc
    rest ← expire_all now calcs
    pure (first ++ rest)

  unfoldable pub on_expired : ℕ → Result AppError (List Calculation) → Act Requests
  unfolding pure expire_all
  on_expired now (err e) = pure []
  on_expired now (ok calcs) = expire_all now calcs

  unfoldable pub on_ready : Result AppError (List Calculation) → Requests
  on_ready (err e) = []
  on_ready (ok calcs) = map request_for calcs

  unfoldable pub tick : Act Requests
  unfolding ◌>>=◌ pure read_clock send on_expired on_ready
  tick = do
    now ← read_clock env
    expired ← send env (list_expired_leases now)
    requests ← on_expired now expired
    ready ← send env (list_ready_retries now)
    pure (requests ++ on_ready ready)
