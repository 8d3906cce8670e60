-- ===== src/Runsd/Actor/Calc/Sound.antt =====
-- The tables stay sound while the actor of crates/runsd/src/actor/calc.rs runs, whatever the others
-- send to the database in between.
use ensurer_v.Prelude.{
  ℕ, ◌+◌, ◌*◌, ◌^◌, ◌≤◌, refl, arith, String, Bool, true, false, List, [], ◌∷◌, All, Bool-cases,
  inl, inr, Result, ok, err, ltb,
}
use ensurer_v.Common.CalcStatus.{CalcStatus}
use ensurer_v.Common.ErrorKind
use ensurer_v.Runsd.Codec.{IsFaithful}
use ensurer_v.Runsd.Error.{AppError}
use ensurer_v.Runsd.Db.Row.{as_u32}
use ensurer_v.Runsd.Db.Keys.{IsKeyed}
use ensurer_v.Runsd.Db.Sound.{IsSoundDb, IsDate}
use ensurer_v.Runsd.Actor.Db.{DbCmd, calc_reset_pending}
use ensurer_v.Runsd.Actor.Db.History.{IsIssued, IsServable, serve-IsSoundDb, answer-IsSoundDb}
use ensurer_v.Runsd.Actor.Db.Keyed.{serve-IsKeyed, answer-IsKeyed}
use ensurer_v.Runsd.Actor.World.{
  ApiOutcome, succeeded, transient_error, permanent_error, Env, World, IsRange, next, send,
}
use ensurer_v.Runsd.Actor.Calc.Backoff.{jittered_backoff-le-max}
use ensurer_v.Runsd.Actor.Calc.Effects.{StartOf, advance, on_start-StartOf}
use ensurer_v.Runsd.Actor.Calc.{
  CalcCmd, start, cancel, heartbeat_tick, CalcActor, Ended, Turn, done, kept, took, Woken, slept,
  closed, received, emit_status, handle_success, handle_permanent_error, handle_cancel, after_wait,
  give_up, back_off, handle_transient_error, handle_outcome, leased, permitted, on_start, run,
}

-- What the others send is what the actors issue, and chrono can hold the times that the database
-- actor reads.
pub record IsFair (env : Env) : Type 0 where
  pub laws : IsFaithful env.codec
  pub others_servable : (n : ℕ) → All (IsServable env.codec) (env.others n)
  pub served_date : (n : ℕ) → IsDate env.codec (env.served n).now

-- chrono can hold the times that the clock reads, and those up to so many milliseconds later.
abbrev pub IsTimely : Env → ℕ → Type 0
IsTimely env ahead = (n extra : ℕ) → extra ≤ ahead → IsDate env.codec (env.clock n + extra)

-- The longest retry that the watchdog and the recovery set: 5 s for each attempt, an u32.
abbrev pub retry_ahead : ℕ
retry_ahead = 5000 * 2 ^ 32

pub retry_ahead-le : (n : ℕ) → 5000 * as_u32 n ≤ retry_ahead
retry_ahead-le n = omega arith

abbrev pub IsGood : Env → World → Type 0
IsGood env w = IsSoundDb env.codec w.tables × IsKeyed w.tables

module _ (env : Env) (fair : IsFair env) where
  pub send-IsGood :
      (cmd : DbCmd) (w : World)
      → IsIssued env.codec cmd
      → IsGood env w
      → IsGood env (send env cmd w).1
  unfolding send
  send-IsGood cmd w i h = (
    answer-IsSoundDb env.codec fair.laws (env.served w.step) cmd (fair.served_date w.step, i) _
        (serve-IsSoundDb env.codec fair.laws (env.others w.step) (fair.others_servable w.step)
          w.tables h.0),
    answer-IsKeyed env.codec (env.served w.step) cmd _
        (serve-IsKeyed env.codec (env.others w.step) w.tables h.1),
  )

  emit_status-IsGood :
      (a : CalcActor) (from to : CalcStatus) (w : World)
      → IsGood env w
      → IsGood env (emit_status env a from to w).1
  unfolding emit_status
  emit_status-IsGood a from to w h = send-IsGood (DbCmd.insert_event _ _ _ _) (next w) tt h

  ended-IsGood :
      (cmd : DbCmd) (a : CalcActor) (from to : CalcStatus) (w : World)
      → IsIssued env.codec cmd
      → IsGood env w
      → IsGood env (emit_status env a from to (send env cmd w).1).1
  ended-IsGood cmd a from to w i h =
      emit_status-IsGood a from to (send env cmd w).1 (send-IsGood cmd w i h)

  handle_cancel-IsGood :
      (a : CalcActor) (w : World) → IsGood env w → IsGood env (handle_cancel env a w).1
  unfolding handle_cancel
  handle_cancel-IsGood a w h = ended-IsGood (DbCmd.calc_cancelled a.id) a _ _ w tt h

  after_wait-IsGood :
      (a : CalcActor) (r : Woken) (w : World) → IsGood env w → IsGood env (after_wait env a r w).1
  unfolding after_wait
  after_wait-IsGood a slept w h = send-IsGood (calc_reset_pending a.id) w tt h
  after_wait-IsGood a closed w h = handle_cancel-IsGood a w h
  after_wait-IsGood a (received start) w h = send-IsGood (calc_reset_pending a.id) w tt h
  after_wait-IsGood a (received cancel) w h = handle_cancel-IsGood a w h
  after_wait-IsGood a (received heartbeat_tick) w h = send-IsGood (calc_reset_pending a.id) w tt h

  give_up-IsGood :
      (a : CalcActor) (message : String) (w : World)
      → IsGood env w
      → IsGood env (give_up env a message w).1
  unfolding give_up ErrorKind.to_string ErrorKind.from_str
  give_up-IsGood a message w h =
      ended-IsGood
        (DbCmd.calc_failed a.id (ErrorKind.to_string ErrorKind.transient_exhausted) message) a _ _ w
        refl h

-- The lease and the delays of the actor do not go further than `ahead`.
abbrev pub IsAhead : ℕ → CalcActor → Type 0
IsAhead ahead a = (a.lease_cfg.expiry_s * 1000 ≤ ahead) × (a.retry_cfg.max_delay_ms ≤ ahead)

module _ (env : Env) (fair : IsFair env) (range : IsRange env) (ahead : ℕ)
    (timely : IsTimely env ahead) where
  back_off-IsGood :
      (a : CalcActor) (mailbox : List CalcCmd) (w : World)
      → IsAhead ahead a
      → IsGood env w
      → IsGood env (back_off env a mailbox w).1
  unfolding back_off
  back_off-IsGood a mailbox w f h =
      let delay =
        jittered_backoff-le-max env range a.attempt a.retry_cfg.base_delay_ms
          a.retry_cfg.max_delay_ms w in
      after_wait-IsGood env fair a _ _ (
        ended-IsGood env fair (DbCmd.calc_retrying a.id a.attempt _) a _ _ (next (next w))
          (timely _ _ (omega (arith, delay, f.1))) h)

  handle_outcome-IsGood :
      (a : CalcActor) (mailbox : List CalcCmd) (o : ApiOutcome) (w : World)
      → IsAhead ahead a
      → IsGood env w
      → IsGood env (handle_outcome env a mailbox o w).1
  unfolding handle_outcome handle_success handle_permanent_error handle_transient_error
      ErrorKind.to_string ErrorKind.from_str
  handle_outcome-IsGood a mailbox (succeeded path) w f h =
      ended-IsGood env fair (DbCmd.calc_succeeded a.id path) a _ _ w tt h
  handle_outcome-IsGood a mailbox (permanent_error message) w f h =
      ended-IsGood env fair
        (DbCmd.calc_failed a.id (ErrorKind.to_string ErrorKind.permanent) message) a _ _ w refl h
  handle_outcome-IsGood a mailbox (transient_error message) w f h =
      elim (Bool-cases (ltb a.max_attempts (as_u32 (a.attempt + 1)))) [
        | inl e ↦ rw e (give_up-IsGood env fair (advance env a) message w h)
        | inr e ↦ rw e (back_off-IsGood (advance env a) mailbox w f h)
      ]

  leased-IsGood :
      (a : CalcActor) (mailbox : List CalcCmd) (r : Result AppError (Unit {0})) (w : World)
      → IsAhead ahead a
      → IsGood env w
      → IsGood env (leased env a mailbox r w).1
  unfolding leased
  leased-IsGood a mailbox (err e) w f h = h
  leased-IsGood a mailbox (ok u) w f h =
      handle_outcome-IsGood a mailbox _ _ f (emit_status-IsGood env fair a _ _ w h)

  permitted-IsGood :
      (a : CalcActor) (mailbox : List CalcCmd) (b : Bool) (w : World)
      → IsAhead ahead a
      → IsGood env w
      → IsGood env (permitted env a mailbox b w).1
  unfolding permitted
  permitted-IsGood a mailbox false w f h = h
  permitted-IsGood a mailbox true w f h =
      leased-IsGood a mailbox _ _ f
        (send-IsGood env fair (DbCmd.calc_started a.id a.worker_id _) (next w) (timely _ _ f.0) h)

  -- The turn, and the actor that goes on from it.
  abbrev IsGoodTurn : Turn × World → Type 0
  IsGoodTurn (done e, v) = IsGood env v
  IsGoodTurn (kept b, v) = IsAhead ahead b × IsGood env v
  IsGoodTurn (took b, v) = IsAhead ahead b × IsGood env v

  IsGoodTurn-of_StartOf :
      (a : CalcActor) (n : List ℕ) (c : ℕ) (p : Turn × World)
      → IsAhead ahead a
      → StartOf env a n c p
      → IsGood env p.1
      → IsGoodTurn p
  IsGoodTurn-of_StartOf a n c (done e, v) f k h = h
  IsGoodTurn-of_StartOf a n c (kept b, v) f k h = (rw k.2.0 f, h)
  IsGoodTurn-of_StartOf a n c (took b, v) f k h = (rw k.2.0 f, h)

  started-IsGood :
      (a : CalcActor) (mailbox : List CalcCmd) (w : World)
      → IsAhead ahead a
      → IsGood env w
      → IsGood env (on_start env a mailbox w).1
  unfolding on_start
  started-IsGood a mailbox w f h = permitted-IsGood a mailbox _ _ f h

  on_start-IsGoodTurn :
      (a : CalcActor) (mailbox : List CalcCmd) (w : World)
      → IsAhead ahead a
      → IsGood env w
      → IsGoodTurn (on_start env a mailbox w)
  on_start-IsGoodTurn a mailbox w f h =
      IsGoodTurn-of_StartOf a w.notified w.calls (on_start env a mailbox w) f
        (on_start-StartOf env a mailbox w) (started-IsGood a mailbox w f h)

  -- For an environment in which the others send only what the actors issue, the random source stays
  -- in its range, and chrono can hold the times that are read and those that are at most as far
  -- ahead as the actor's lease and its longest delay: sound tables with proper keys stay so while
  -- the actor handles any mailbox, whatever the API answers, SQLite refuses and the others do in
  -- between.
  pub run-IsGood :
      (a : CalcActor) (mailbox : List CalcCmd) (w : World)
      → IsAhead ahead a
      → IsGood env w
      → IsGood env (run env a mailbox w).1
  unfolding run
  run-IsGood a [] w f h = h
  run-IsGood a (cancel ∷ rest) w f h = handle_cancel-IsGood env fair a w h
  run-IsGood a (heartbeat_tick ∷ rest) w f h = run-IsGood a rest w f h
  run-IsGood a (start ∷ []) w f h = go (on_start env a [] w) (on_start-IsGoodTurn a [] w f h)
    where
      go :
          (p : Turn × World)
          → IsGoodTurn p
          → IsGood env
              (elim p.0 as (λ x. Ended × World) [
                | done e ↦ (e, p.1)
                | kept b ↦ run env b [] p.1
                | took b ↦ run env b [] p.1
              ]).1
      go (done e, v) k = k
      go (kept b, v) k = k.1
      go (took b, v) k = k.1
  run-IsGood a (start ∷ cmd ∷ rest) w f h =
      go (on_start env a (cmd ∷ rest) w) (on_start-IsGoodTurn a (cmd ∷ rest) w f h)
        (λ b v. run-IsGood b (cmd ∷ rest) v) (λ b v. run-IsGood b rest v)
    where
      go :
          (p : Turn × World)
          → IsGoodTurn p
          → ((b : CalcActor) (v : World)
              → IsAhead ahead b
              → IsGood env v
              → IsGood env (run env b (cmd ∷ rest) v).1)
          → ((b : CalcActor) (v : World)
              → IsAhead ahead b
              → IsGood env v
              → IsGood env (run env b rest v).1)
          → IsGood env
              (elim p.0 as (λ x. Ended × World) [
                | done e ↦ (e, p.1)
                | kept b ↦ run env b (cmd ∷ rest) p.1
                | took b ↦ run env b rest p.1
              ]).1
      go (done e, v) k ik it = k
      go (kept b, v) k ik it = ik b v k.0 k.1
      go (took b, v) k ik it = it b v k.0 k.1
