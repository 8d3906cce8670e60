-- ===== src/Runsd/Actor/Watchdog/Keeps.antt =====
-- The tables stay sound during a tick of crates/runsd/src/actor/watchdog.rs.
use ensurer_v.Prelude.{ℕ, ◌+◌, ◌≤◌, refl, List, [], ◌∷◌, Result, ok, err, ltb, Bool-cases, inl, inr}
use ensurer_v.Common.ErrorKind
use ensurer_v.Common.Model.{Calculation}
use ensurer_v.Runsd.Error.{AppError}
use ensurer_v.Runsd.Db.Row.{as_u32}
use ensurer_v.Runsd.Db.Sound.{IsDate}
use ensurer_v.Runsd.Actor.Db.{DbCmd}
use ensurer_v.Runsd.Actor.World.{Env, World, next, send}
use ensurer_v.Runsd.Actor.Calc.Sound.{
  IsFair, IsTimely, IsGood, retry_ahead, retry_ahead-le, send-IsGood,
}
use ensurer_v.Runsd.Actor.Watchdog.{expire, expire_all, on_expired, tick}

module _ (env : Env) (fair : IsFair env) (now : ℕ)
    (later : (extra : ℕ) → extra ≤ retry_ahead → IsDate env.codec (now + extra)) where
  expire-IsGood :
      (calc : Calculation) (w : World) → IsGood env w → IsGood env (expire env now calc w).1
  unfolding expire ErrorKind.from_str
  expire-IsGood calc w h = elim (Bool-cases (ltb calc.max_attempts (as_u32 (calc.attempt + 1)))) [
    | inl e ↦ rw e (send-IsGood env fair (DbCmd.calc_failed calc.id "crash_exhausted" _) w refl h)
    | inr e ↦ rw e (
        send-IsGood env fair (DbCmd.calc_retrying calc.id _ _) w
          (later _ (retry_ahead-le (calc.attempt + 1))) h)
  ]

  expire_all-IsGood :
      (calcs : List Calculation) (w : World)
      → IsGood env w
      → IsGood env (expire_all env now calcs w).1
  unfolding expire_all
  expire_all-IsGood [] w h = h
  expire_all-IsGood (calc ∷ calcs) w h =
      expire_all-IsGood calcs (expire env now calc w).1 (expire-IsGood calc w h)

  pub on_expired-IsGood :
      (r : Result AppError (List Calculation)) (w : World)
      → IsGood env w
      → IsGood env (on_expired env now r w).1
  unfolding on_expired
  on_expired-IsGood (err e) w h = h
  on_expired-IsGood (ok calcs) w h = expire_all-IsGood calcs w h

-- For an environment in which the others send only what the actors issue, and chrono can hold the
-- times that are read and those of the longest retry after them, sound tables with proper keys stay
-- so during a tick of the watchdog, whatever the others do in between.
pub tick-IsGood :
    (env : Env)
    → IsFair env
    → IsTimely env retry_ahead
    → (w : World) → IsGood env w
    → IsGood env (tick env w).1
unfolding tick
tick-IsGood env fair timely w h =
    let now = env.clock w.step in
    let (expired, v) = send env (DbCmd.list_expired_leases now) (next w) in
    let kept = send-IsGood env fair (DbCmd.list_expired_leases now) (next w) tt h in
    send-IsGood env fair (DbCmd.list_ready_retries now) (on_expired env now expired v).1 tt
      (on_expired-IsGood env fair now (timely w.step) expired v kept)
