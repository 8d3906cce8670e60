-- ===== src/Runsd/Actor/Calc/Rows.antt =====
-- The row that the actor of a calculation (crates/runsd/src/actor/calc.rs) leaves.
use ensurer_v.Prelude.{
  ℕ, ◌+◌, ◌*◌, ◌≡◌, refl, ap, subst, String, Bool, true, false, Bool-cases, ◌⊎◌, inl, inr, none,
  some, List, Result, ok, err, ltb,
}
use ensurer_v.Common.CalcStatus.{CalcStatus}
use ensurer_v.Common.ErrorKind
use ensurer_v.Runsd.Error.{AppError}
use ensurer_v.Runsd.Db.Row.{CalcRow, as_u32}
use ensurer_v.Runsd.Db.Changes.{
  find_calc, started_row, heartbeat_row, succeeded_row, failed_row, retrying_row, cancelled_row,
  pending_row,
}
use ensurer_v.Runsd.Actor.Db.{DbCmd, process}
use ensurer_v.Runsd.Actor.Db.Spared.{Survives}
use ensurer_v.Runsd.Actor.World.{
  ApiOutcome, succeeded, transient_error, permanent_error, Env, World, next, send, submit,
}
use ensurer_v.Runsd.Actor.Calc.{
  CalcCmd, start, cancel, heartbeat_tick, CalcActor, Woken, slept, closed, received, emit_status,
  handle_cancel, handle_success, handle_permanent_error, after_wait, give_up, back_off,
  handle_transient_error, handle_outcome, leased, permitted, on_start, jittered_backoff,
}
use ensurer_v.Runsd.Actor.Calc.Sends.{
  IsSpared, HasRow, IsThere, send-spared, send-HasRow, emit_status-HasRow,
}

abbrev pub IsFailed : (kind message : String) → CalcRow → Type 0
IsFailed kind message r =
    (r.status ≡ "failed") × (r.error_kind ≡ some kind) × (r.error_message ≡ some message)

-- The actor's count of attempts is used up by one more.
abbrev pub is_last : CalcActor → Bool
is_last a = ltb a.max_attempts (as_u32 (a.attempt + 1))

-- The statuses of a row that is to be tried again, or that a message has cancelled.
abbrev pub IsDropped : CalcRow → Type 0
IsDropped r = ((r.status ≡ "pending") × (r.attempt ≡ 0)) ⊎ (r.status ≡ "cancelled")

abbrev pub IsWritten : CalcActor → ApiOutcome → CalcRow → Type 0
IsWritten a (succeeded path) r = (r.status ≡ "succeeded") × (r.result_path ≡ some path)
IsWritten a (permanent_error message) r = IsFailed "permanent" message r
IsWritten a (transient_error message) r =
    ((is_last a ≡ true) × IsFailed "transient_exhausted" message r)
    ⊎ ((is_last a ≡ false) × IsDropped r)

-- The row of an outcome, without the owner of a lease.
abbrev pub IsLeft : CalcActor → ApiOutcome → CalcRow → Type 0
IsLeft a o r = (r.lease_owner ≡ none) × IsWritten a o r

module _ (env : Env) (a : CalcActor) (spared : IsSpared env a.id) where
  -- No owner of a lease, and to be tried again or cancelled.
  abbrev IsFree : CalcRow → Type 0
  IsFree r = (r.lease_owner ≡ none) × IsDropped r

  IsFree-Survives : Survives env.codec a.id IsFree
  unfolding heartbeat_row
  IsFree-Survives now t r h = h

  handle_cancel-HasRow :
      (w : World) → IsThere env a w → HasRow env a IsFree (handle_cancel env a w).1
  unfolding handle_cancel process cancelled_row
  handle_cancel-HasRow w h =
      emit_status-HasRow env a spared IsFree a _ _ (send env (DbCmd.calc_cancelled a.id) w).1
        IsFree-Survives
        (send-HasRow env a spared IsFree (DbCmd.calc_cancelled a.id) w
          (cancelled_row, (λ now t. refl), (λ now r. refl), (λ now r. (refl, inr refl))) h)

  reset-HasRow :
      (w : World)
      → IsThere env a w
      → HasRow env a IsFree (send env (DbCmd.calc_reset_pending a.id) w).1
  unfolding process pending_row
  reset-HasRow w h =
      send-HasRow env a spared IsFree (DbCmd.calc_reset_pending a.id) w
        (pending_row, (λ now t. refl), (λ now r. refl), (λ now r. (refl, inl (refl, refl)))) h

  after_wait-HasRow :
      (r : Woken) (w : World) → IsThere env a w → HasRow env a IsFree (after_wait env a r w).1
  unfolding after_wait
  after_wait-HasRow slept w h = reset-HasRow w h
  after_wait-HasRow closed w h = handle_cancel-HasRow w h
  after_wait-HasRow (received start) w h = reset-HasRow w h
  after_wait-HasRow (received cancel) w h = handle_cancel-HasRow w h
  after_wait-HasRow (received heartbeat_tick) w h = reset-HasRow w h

  back_off-HasRow :
      (mailbox : List CalcCmd) (w : World)
      → IsThere env a w
      → HasRow env a IsFree (back_off env a mailbox w).1
  unfolding back_off process retrying_row
  back_off-HasRow mailbox w h =
      let delay =
        (jittered_backoff env a.attempt a.retry_cfg.base_delay_ms a.retry_cfg.max_delay_ms w).0 in
      let cmd = DbCmd.calc_retrying a.id a.attempt (env.clock (next w).step + delay) in
      let v = (send env cmd (next (next w))).1 in
      after_wait-HasRow _ (next (emit_status env a CalcStatus.running CalcStatus.retrying v).1) (
        emit_status-HasRow env a spared (λ _. Unit {0}) a CalcStatus.running CalcStatus.retrying v
          (λ now t r u. tt)
          (send-HasRow env a spared (λ _. Unit {0}) cmd (next (next w))
            ((λ now r. retrying_row now _ _ r), (λ now t. refl), (λ now r. refl), (λ now r. tt)) h))

  -- The end of an actor whose calculation has failed.
  fail-HasRow :
      (kind message : String) (w : World)
      → IsThere env a w
      → HasRow env a
          (λ r. (r.lease_owner ≡ none) × IsFailed kind message r)
          (emit_status env a CalcStatus.running CalcStatus.failed
            (send env (DbCmd.calc_failed a.id kind message) w).1).1
  unfolding process failed_row heartbeat_row
  fail-HasRow kind message w h =
      let P : CalcRow → Type 0 = λ r. (r.lease_owner ≡ none) × IsFailed kind message r in
      emit_status-HasRow env a spared P a _ _ (send env (DbCmd.calc_failed a.id kind message) w).1
        (λ now t r h. h)
        (send-HasRow env a spared P (DbCmd.calc_failed a.id kind message) w
          (
            (λ now r. failed_row now kind message r),
            (λ now t. refl),
            (λ now r. refl),
            (λ now r. (refl, (refl, refl, refl))),
          )
          h)

module _ (env : Env) (a : CalcActor) (spared : IsSpared env a.id) (mailbox : List CalcCmd) where
  handle_transient_error-HasRow :
      (message : String) (w : World)
      → IsThere env a w
      → HasRow env a
          (IsLeft a (transient_error message))
          (handle_transient_error env a message mailbox w).1
  unfolding handle_transient_error give_up ErrorKind.to_string
  handle_transient_error-HasRow message w h =
      let b = record a { attempt = as_u32 (a.attempt + 1) } in
      elim (Bool-cases (is_last a)) [
        | inl e ↦
            let (r, there, p) = fail-HasRow env b spared "transient_exhausted" message w h in
            rw e (r, there, (p.0, inl (refl, p.1)))
        | inr e ↦
            let (r, there, p) = back_off-HasRow env b spared mailbox w h in
            rw e (r, there, (p.0, inr (refl, p.1)))
      ]

  handle_outcome-HasRow :
      (o : ApiOutcome) (w : World)
      → IsThere env a w
      → HasRow env a (IsLeft a o) (handle_outcome env a mailbox o w).1
  unfolding handle_outcome handle_success handle_permanent_error process succeeded_row heartbeat_row
      ErrorKind.to_string
  handle_outcome-HasRow (succeeded path) w h =
      emit_status-HasRow env a spared (IsLeft a (succeeded path)) a _ _
        (send env (DbCmd.calc_succeeded a.id path) w).1 (λ now t r h. h)
        (send-HasRow env a spared (IsLeft a (succeeded path)) (DbCmd.calc_succeeded a.id path) w
          (
            (λ now r. succeeded_row now path r),
            (λ now t. refl),
            (λ now r. refl),
            (λ now r. (refl, (refl, refl))),
          )
          h)
  handle_outcome-HasRow (permanent_error message) w h =
      fail-HasRow env a spared "permanent" message w h
  handle_outcome-HasRow (transient_error message) w h = handle_transient_error-HasRow message w h

  leased-HasRow :
      (o : ApiOutcome) (r : Result AppError (Unit {0})) (w : World)
      → ((n : ℕ) → env.api n ≡ o)
      → r ≡ ok tt
      → IsThere env a w
      → HasRow env a (IsLeft a o) (leased env a mailbox r w).1
  unfolding leased
  leased-HasRow o (err e) w says k h = cc k
  leased-HasRow o (ok _) w says k h =
      let v = (emit_status env a CalcStatus.pending CalcStatus.running w).1 in
      subst
        (λ x.
          HasRow env a (IsLeft a x)
            (handle_outcome env a mailbox (env.api v.step) (submit env v).1).1)
        (says v.step)
        (handle_outcome-HasRow (env.api v.step) (submit env v).1 (
          emit_status-HasRow env a spared (λ _. Unit {0}) a CalcStatus.pending CalcStatus.running w
            (λ now t r u. tt) h))

  -- While nobody else sends commands about the calculation but heartbeats, at any time and of any
  -- number, SQLite refuses none of the actor's and the pool gives permits: a Start of an actor
  -- whose row is there leaves the row without an owner of a lease. It is succeeded with the path if
  -- the API answers so, and failed with the message if its error is permanent, or is transient and
  -- the actor's attempts are used up. After any other transient error the row is pending with no
  -- attempt counted, or is cancelled: it does not stay retrying.
  pub on_start-HasRow :
      (o : ApiOutcome) (w : World) (r : CalcRow)
      → ((n : ℕ) → env.api n ≡ o)
      → ((n : ℕ) → env.permits n ≡ true)
      → find_calc (env.codec.uuid_text a.id) w.tables.calculations ≡ some r
      → HasRow env a (IsLeft a o) (on_start env a mailbox w).1
  unfolding on_start permitted process started_row
  on_start-HasRow o w r says permits there =
      let until = env.clock (next w).step + a.lease_cfg.expiry_s * 1000 in
      let cmd = DbCmd.calc_started a.id a.worker_id until in
      let at = next (next w) in
      rw (permits w.step) (
        leased-HasRow o (send env cmd at).0 (send env cmd at).1 says
          (ap (λ p. p.0) (send-spared env a spared cmd at))
          (send-HasRow env a spared (λ _. Unit {0}) cmd at
            (
              (λ now r. started_row now a.worker_id until r),
              (λ now t. refl),
              (λ now r. refl),
              (λ now r. tt),
            )
            (r, there, tt)))
