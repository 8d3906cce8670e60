-- ===== src/Runsd/Actor/Calc.antt =====
-- crates/runsd/src/actor/calc.rs: the actor of one calculation.
pub mod Backoff
pub mod Effects
pub mod Sends
pub mod Rows
pub mod Sound
use ensurer_v.Prelude.{
  ℕ, zero, suc, ◌+◌, ◌*◌, ◌/◌, ◌^◌, min, String, Bool, true, false, some, List, [], ◌∷◌, Result, ok,
  err, ltb, if◌then◌else◌,
}
use ensurer_v.Common.CalcStatus.{CalcStatus, pending, running, retrying}
use ensurer_v.Common.ErrorKind
use ensurer_v.Common.Event.{ServerEvent, calc_status_changed, event_kind_str}
use ensurer_v.Common.Json.{Json}
use ensurer_v.Common.Model.{RunId, CalcId}
use ensurer_v.Runsd.Config.{RetryConfig, LeaseConfig}
use ensurer_v.Runsd.Error.{AppError}
use ensurer_v.Runsd.Db.Row.{as_u32}
use ensurer_v.Runsd.Actor.Db.{
  DbCmd, calc_heartbeat, calc_started, calc_succeeded, calc_failed, calc_retrying, calc_cancelled,
  calc_reset_pending, insert_event,
}
use ensurer_v.Runsd.Actor.World.{
  ApiOutcome, succeeded, transient_error, permanent_error, Env, World, Act, ◌>>=◌, ◌>>◌, pure,
  read_clock, send, acquire, submit, draw_up_to, sleep_first, publish, notify,
}

pub data CalcCmd : Type 0 where
  start cancel heartbeat_tick : CalcCmd

-- The handles to the database, the bus, the pool and the API are the `Env`.
pub record CalcActor : Type 0 where
  pub id : CalcId
  pub run_id : RunId
  pub kind : String
  pub input_json : Json
  pub idempotency_key : String
  pub attempt : ℕ  -- u32
  pub max_attempts : ℕ  -- u32
  pub retry_cfg : RetryConfig
  pub lease_cfg : LeaseConfig
  pub worker_id : String

-- `exp.min(max_ms as f64) as u64`. The attempt is below 2 ^ 31, and the delays are below 2 ^ 53, so
-- that the floats are exact. 2 to the power -1 is taken at attempt 0.
unfoldable pub backoff_cap : ℕ → ℕ → ℕ → ℕ
backoff_cap zero base_ms max_ms = min (base_ms / 2) max_ms
backoff_cap (suc k) base_ms max_ms = min (base_ms * 2 ^ k) max_ms

-- How `run` ends: it left its loop, or it waits for a message while a sender is left.
pub data Ended : Type 0 where
  stopped waiting : Ended

-- One turn of the loop: the loop is left, or it goes on with the mailbox as it is or less one
-- message.
pub data Turn : Type 0 where
  done : Ended → Turn
  kept : CalcActor → Turn
  took : CalcActor → Turn

abbrev unwrap_or : {A : Type 0} → Result AppError A → A → A
unwrap_or (ok a) d = a
unwrap_or (err e) d = d

-- What a `select!` of a sleep and the mailbox gives: the sleep is over, or a message came, or none
-- can come any more.
pub data Woken : Type 0 where
  slept closed : Woken
  received : CalcCmd → Woken

-- While a sender is left an empty mailbox gives nothing, and the sleep ends.
abbrev pub woken : Bool → Bool → List CalcCmd → Woken
woken true closes mailbox = slept
woken false true [] = closed
woken false false [] = slept
woken false closes (cmd ∷ rest) = received cmd

-- What the heartbeat task sends when the clock reads `now`.
unfoldable pub heartbeat : CalcActor → ℕ → DbCmd
heartbeat a now = calc_heartbeat a.id (now + a.lease_cfg.expiry_s * 1000)

module _ (env : Env) where
  unfoldable pub jittered_backoff : ℕ → ℕ → ℕ → Act ℕ
  unfolding draw_up_to backoff_cap
  jittered_backoff attempt base_ms max_ms = draw_up_to env (backoff_cap attempt base_ms max_ms)

  unfoldable pub emit_status : CalcActor → CalcStatus → CalcStatus → Act (Unit {0})
  unfolding ◌>>=◌ read_clock send publish event_kind_str
  emit_status a from to = do
    at ← read_clock env
    let event : ServerEvent = calc_status_changed a.run_id a.id from to a.attempt at
    reply ← send env (
        insert_event (some (env.codec.uuid_text a.run_id)) (some (env.codec.uuid_text a.id))
          (event_kind_str event) (env.codec.event_text event))
    publish (record { seq = unwrap_or reply 0; event = event })

  unfoldable pub handle_success : CalcActor → String → Act (Unit {0})
  unfolding ◌>>=◌ send emit_status notify
  handle_success a result_path = do
    _ ← send env (calc_succeeded a.id result_path)
    emit_status a running CalcStatus.succeeded
    notify a.id

  unfoldable pub handle_permanent_error : CalcActor → String → Act (Unit {0})
  unfolding ◌>>=◌ send emit_status notify ErrorKind.to_string
  handle_permanent_error a message = do
    _ ← send env (calc_failed a.id (ErrorKind.to_string ErrorKind.permanent) message)
    emit_status a running CalcStatus.failed
    notify a.id

  unfoldable pub handle_cancel : CalcActor → Act (Unit {0})
  unfolding ◌>>=◌ send emit_status notify
  handle_cancel a = do
    _ ← send env (calc_cancelled a.id)
    emit_status a running CalcStatus.cancelled
    notify a.id

  -- The end of `handle_transient_error`, by what the `select!` gives.
  unfoldable pub after_wait : CalcActor → Woken → Act Turn
  unfolding ◌>>=◌ send handle_cancel pure
  after_wait a slept = do _ ← send env (calc_reset_pending a.id); pure (kept a)
  after_wait a closed = do handle_cancel a; pure (done stopped)
  after_wait a (received cancel) = do handle_cancel a; pure (done stopped)
  after_wait a (received _) = do _ ← send env (calc_reset_pending a.id); pure (took a)

  -- Its first part, when the attempts are used up.
  unfoldable pub give_up : CalcActor → String → Act Turn
  unfolding ◌>>=◌ send emit_status notify pure ErrorKind.to_string
  give_up a message = do
    _ ← send env (calc_failed a.id (ErrorKind.to_string ErrorKind.transient_exhausted) message)
    emit_status a running CalcStatus.failed
    notify a.id
    pure (done stopped)

  -- Its second part: the row waits for its next attempt, and the actor for a time or a message.
  unfoldable pub back_off : CalcActor → List CalcCmd → Act Turn
  unfolding ◌>>=◌ jittered_backoff read_clock send emit_status sleep_first after_wait
  back_off a mailbox = do
    delay ← jittered_backoff a.attempt a.retry_cfg.base_delay_ms a.retry_cfg.max_delay_ms
    now ← read_clock env
    _ ← send env (calc_retrying a.id a.attempt (now + delay))
    emit_status a running retrying
    first ← sleep_first env
    after_wait a (woken first env.closes mailbox)

  unfoldable pub handle_transient_error : CalcActor → String → List CalcCmd → Act Turn
  unfolding give_up back_off
  handle_transient_error a message mailbox =
      let b = record a { attempt = as_u32 (a.attempt + 1) } in
      if ltb b.max_attempts b.attempt then give_up b message else back_off b mailbox

  unfoldable pub handle_outcome : CalcActor → List CalcCmd → ApiOutcome → Act Turn
  unfolding ◌>>=◌ handle_success handle_transient_error handle_permanent_error pure
  handle_outcome a mailbox (succeeded path) = do handle_success a path; pure (done stopped)
  handle_outcome a mailbox (transient_error message) = handle_transient_error a message mailbox
  handle_outcome a mailbox (permanent_error message) = do
    handle_permanent_error a message
    pure (done stopped)

  -- After the lease is asked for. The branch of the `select!` on the cancel channel is left out:
  -- its sender lives to the end of the turn and is never used, so it never ends.
  unfoldable pub leased : CalcActor → List CalcCmd → Result AppError (Unit {0}) → Act Turn
  unfolding ◌>>=◌ pure emit_status submit handle_outcome
  leased a mailbox (err e) = pure (done stopped)
  leased a mailbox (ok _) = do
    emit_status a pending running
    outcome ← submit env
    handle_outcome a mailbox outcome

  -- With a permit of the pool. The task that is spawned here sends a `heartbeat` at once and then
  -- at each interval, on its own: these are among the `others`, also one that is under way when the
  -- task is aborted.
  unfoldable pub permitted : CalcActor → List CalcCmd → Bool → Act Turn
  unfolding ◌>>=◌ pure read_clock send leased
  permitted a mailbox false = pure (done stopped)
  permitted a mailbox true = do
    now ← read_clock env
    reply ← send env (calc_started a.id a.worker_id (now + a.lease_cfg.expiry_s * 1000))
    leased a mailbox reply

  -- The case `CalcCmd::Start` of the loop.
  unfoldable pub on_start : CalcActor → List CalcCmd → Act Turn
  unfolding ◌>>=◌ acquire permitted
  on_start a mailbox = do permit ← acquire env; permitted a mailbox permit

  abbrev pub at_end : Ended
  at_end = if env.closes then stopped else waiting

  -- The loop over the messages that the mailbox ever holds.
  unfoldable pub run : CalcActor → List CalcCmd → World → Ended × World
  unfolding on_start handle_cancel
  run a [] w = (at_end, w)
  run a (cancel ∷ rest) w = (stopped, (handle_cancel a w).1)
  run a (heartbeat_tick ∷ rest) w = run a rest w
  run a (start ∷ []) w =
      let (turn, w') = on_start a [] w in
      elim turn [ done e ↦ (e, w') | kept b ↦ (at_end, w') | took b ↦ (at_end, w') ]
  run a (start ∷ cmd ∷ rest) w =
      let (turn, w') = on_start a (cmd ∷ rest) w in
      elim turn [ done e ↦ (e, w') | kept b ↦ run b (cmd ∷ rest) w' | took b ↦ run b rest w' ]
