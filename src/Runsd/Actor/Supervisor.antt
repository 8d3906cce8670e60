-- ===== src/Runsd/Actor/Supervisor.antt =====
-- crates/runsd/src/actor/supervisor.rs: the supervisor, which submits runs and holds the senders to
-- the actors that it spawned.
pub mod Spawns
pub mod Keeps
pub mod Cancels
pub mod Commands
pub mod Obeys
use ensurer_v.Prelude.{
  ℕ, zero, suc, String, append, not, ◌&&◌, Option, none, some, List, [], ◌∷◌, ◌++◌, map, select,
  find_first, length, nat_eq, is_empty, Result, ok, err, if◌then◌else◌,
}
use ensurer_v.Common.CalcStatus
use ensurer_v.Common.CalcStatus.{is_terminal}
use ensurer_v.Common.Idempotency.{Digest, compute_idempotency_key}
use ensurer_v.Common.Model.{RunId, CalcId, NewCalc, Calculation}
use ensurer_v.Runsd.Config.{RetryConfig, LeaseConfig}
use ensurer_v.Runsd.Error.{AppError}
use ensurer_v.Runsd.Actor.Db.{
  DbCmd, insert_run, insert_calculation, get_calculation, calc_reset_pending, list_active_run_ids,
  list_calculations_for_run,
}
use ensurer_v.Runsd.Actor.World.{Env, World, Act, ◌>>=◌, ◌>>◌, pure, next, read_clock, send}
use ensurer_v.Runsd.Actor.Calc.{CalcActor}
use ensurer_v.Runsd.Actor.Run.{RunActor, CalcSpec}

pub data Spawned : Type 0 where
  a_run : RunActor → Spawned
  a_calc : CalcActor → Spawned

-- What is sent to a spawned actor.
pub data Message : Type 0 where
  cancel_the_run start_the_calc cancel_the_calc : Message

-- A sender is the place of its actor among those spawned, oldest first. `sent` is oldest first too.
pub record Supervisor : Type 0 where
  pub run_actors : List (RunId × ℕ)
  pub calc_actors : List (CalcId × (RunId × ℕ))
  pub spawned : List Spawned
  pub sent : List (ℕ × Message)

-- `Supervisor::new`
abbrev pub new : Supervisor
new = record { run_actors = []; calc_actors = []; spawned = []; sent = [] }

-- The entries of a map without those of a key.
abbrev pub dropped {ℓ} : {A : Type ℓ} → ℕ → List (ℕ × A) → List (ℕ × A)
dropped key = select (λ e. not (nat_eq e.0 key))

abbrev pub entry_of {ℓ} : {A : Type ℓ} → ℕ → List (ℕ × A) → Option (ℕ × A)
entry_of key = find_first (λ e. nat_eq e.0 key)

abbrev pub map_ok : {A B : Type 0} → (A → B) → Result AppError A → Result AppError B
map_ok f (ok a) = ok (f a)
map_ok f (err e) = err e

-- The settings, the digest of the idempotency key, and `Uuid::new_v4` by the number of the step.
pub record Setup : Type 0 where
  pub retry_cfg : RetryConfig
  pub lease_cfg : LeaseConfig
  pub digest : Digest
  pub new_uuid : ℕ → ℕ

module _ (env : Env) (setup : Setup) where
  unfoldable pub new_id : Act ℕ
  new_id w = (setup.new_uuid w.step, next w)

  unfoldable pub new_calculation : RunId → CalcId → ℕ → NewCalc → Calculation
  unfolding compute_idempotency_key
  new_calculation run_id calc_id now nc = record {
    id = calc_id;
    run_id = run_id;
    kind = nc.kind;
    input_json = nc.input;
    idempotency_key = compute_idempotency_key setup.digest nc.kind nc.input;
    status = CalcStatus.pending;
    attempt = 0;
    max_attempts = setup.retry_cfg.max_attempts;
    next_attempt_at = none;
    lease_owner = none;
    lease_expires_at = none;
    error_kind = none;
    error_message = none;
    result_path = none;
    created_at = now;
    started_at = none;
    completed_at = none;
    updated_at = now;
  }

  abbrev pub spec_of : Calculation → CalcSpec
  spec_of calc = record {
    id = calc.id;
    kind = calc.kind;
    input_json = calc.input_json;
    idem_key = calc.idempotency_key;
    attempt = calc.attempt;
    max_attempts = calc.max_attempts;
  }

  -- One round of the loop: an error ends it, else the others follow.
  unfoldable pub inserted :
      Calculation
      → Act (Result AppError (List CalcSpec))
      → Result AppError (Unit {0})
      → Act (Result AppError (List CalcSpec))
  unfolding ◌>>=◌ pure
  inserted calc others (err e) = pure (err e)
  inserted calc others (ok _) = do specs ← others; pure (map_ok (λ l. spec_of calc ∷ l) specs)

  -- The loop over the new calculations.
  unfoldable pub insert_calcs : RunId → ℕ → List NewCalc → Act (Result AppError (List CalcSpec))
  unfolding ◌>>=◌ pure send new_id new_calculation inserted
  insert_calcs run_id now [] = pure (ok [])
  insert_calcs run_id now (nc ∷ rest) = do
    calc_id ← new_id
    let calc : Calculation = new_calculation run_id calc_id now nc
    reply ← send env (insert_calculation calc)
    inserted calc (insert_calcs run_id now rest) reply

  unfoldable pub spawn_run_actor : RunId → List CalcSpec → Supervisor → Supervisor
  spawn_run_actor run_id specs s = record s {
    run_actors = dropped run_id s.run_actors ++ (run_id, length s.spawned) ∷ [];
    spawned =
        s.spawned
        ++ a_run (record {
          run_id = run_id;
          retry_cfg = setup.retry_cfg;
          lease_cfg = setup.lease_cfg;
          calcs = specs;
        })
          ∷ [];
  }

  -- The end of `submit_run`.
  unfoldable pub submitted :
      RunId → Supervisor → Result AppError (List CalcSpec) → Result AppError RunId × Supervisor
  unfolding spawn_run_actor
  submitted run_id s (err e) = (err e, s)
  submitted run_id s (ok specs) = (ok run_id, spawn_run_actor run_id specs s)

  -- After the run is inserted.
  unfoldable pub submit_calcs :
      RunId
      → List NewCalc
      → Supervisor
      → Result AppError (Unit {0})
      → Act (Result AppError RunId × Supervisor)
  unfolding ◌>>=◌ pure read_clock insert_calcs submitted
  submit_calcs run_id calcs s (err e) = pure (err e, s)
  submit_calcs run_id calcs s (ok _) = do
    now ← read_clock env
    specs ← insert_calcs run_id now calcs
    pure (submitted run_id s specs)

  unfoldable pub submit_run :
      String → String → List NewCalc → Supervisor → Act (Result AppError RunId × Supervisor)
  unfolding ◌>>=◌ send new_id submit_calcs
  submit_run jira_issue_id submitted_by calcs s = do
    run_id ← new_id
    reply ← send env (insert_run run_id jira_issue_id submitted_by)
    submit_calcs run_id calcs s reply

  -- `cancel_run` and `cancel_calc` reply `Ok` whether the sender is there or not.
  unfoldable pub cancel_run : RunId → Supervisor → Supervisor
  cancel_run run_id s = elim (entry_of run_id s.run_actors) [
    | none ↦ s
    | some e ↦ record s {
      run_actors = dropped run_id s.run_actors;
      sent = s.sent ++ (e.1, cancel_the_run) ∷ [];
    }
  ]

  unfoldable pub cancel_calc : CalcId → Supervisor → Supervisor
  cancel_calc calc_id s = elim (entry_of calc_id s.calc_actors) [
    | none ↦ s
    | some e ↦ record s {
      calc_actors = dropped calc_id s.calc_actors;
      sent = s.sent ++ (e.1.1, cancel_the_calc) ∷ [];
    }
  ]

  -- The actor that is spawned for a calculation that was read.
  unfoldable pub spawn_calc : RunId → CalcId → Calculation → Supervisor → Supervisor
  spawn_calc run_id calc_id calc s = record s {
    calc_actors = dropped calc_id s.calc_actors ++ (calc_id, (run_id, length s.spawned)) ∷ [];
    spawned =
        s.spawned
        ++ a_calc (record {
          id = calc.id;
          run_id = run_id;
          kind = calc.kind;
          input_json = calc.input_json;
          idempotency_key = calc.idempotency_key;
          attempt = calc.attempt;
          max_attempts = calc.max_attempts;
          retry_cfg = setup.retry_cfg;
          lease_cfg = setup.lease_cfg;
          worker_id = append "watchdog-" (env.codec.uuid_text calc.id);
        })
          ∷ [];
    sent = s.sent ++ (length s.spawned, start_the_calc) ∷ [];
  }

  unfoldable pub respawn :
      RunId → CalcId → Supervisor → Result AppError (Option Calculation) → Supervisor
  unfolding spawn_calc
  respawn run_id calc_id s (ok (some calc)) = spawn_calc run_id calc_id calc s
  respawn run_id calc_id s (ok none) = s
  respawn run_id calc_id s (err e) = s

  unfoldable pub reschedule_calc : RunId → CalcId → Supervisor → Act Supervisor
  unfolding ◌>>=◌ pure send respawn
  reschedule_calc run_id calc_id s = do
    reply ← send env (get_calculation calc_id)
    pure (respawn run_id calc_id s reply)

  unfoldable pub retry_reset :
      RunId
      → CalcId
      → Supervisor
      → Result AppError (Unit {0})
      → Act (Result AppError (Unit {0}) × Supervisor)
  unfolding ◌>>=◌ pure reschedule_calc
  retry_reset run_id calc_id s (err e) = pure (err e, s)
  retry_reset run_id calc_id s (ok _) = do t ← reschedule_calc run_id calc_id s; pure (ok tt, t)

  unfoldable pub retry_calc :
      RunId → CalcId → Supervisor → Act (Result AppError (Unit {0}) × Supervisor)
  unfolding ◌>>=◌ send retry_reset
  retry_calc run_id calc_id s = do
    reply ← send env (calc_reset_pending calc_id)
    retry_reset run_id calc_id s reply

  -- The specifications of the calculations that have not ended.
  abbrev pub open_specs : List Calculation → List CalcSpec
  open_specs [] = []
  open_specs (calc ∷ calcs) =
      let rest = open_specs calcs in if is_terminal calc.status then rest else spec_of calc ∷ rest

  -- One round of the loop of `restore_active_runs`; a run that cannot be read is passed over.
  unfoldable pub restored : RunId → Supervisor → Result AppError (List Calculation) → Supervisor
  unfolding spawn_run_actor is_terminal
  restored run_id s (err e) = s
  restored run_id s (ok calcs) =
      let specs = open_specs calcs in if is_empty specs then s else spawn_run_actor run_id specs s

  unfoldable pub restore_runs : List RunId → Supervisor → Act Supervisor
  unfolding ◌>>=◌ pure send restored
  restore_runs [] s = pure s
  restore_runs (run_id ∷ rest) s = do
    reply ← send env (list_calculations_for_run run_id)
    restore_runs rest (restored run_id s reply)

  unfoldable pub restore_all :
      Supervisor → Result AppError (List RunId) → Act (Result AppError (Unit {0}) × Supervisor)
  unfolding ◌>>=◌ pure restore_runs
  restore_all s (err e) = pure (err e, s)
  restore_all s (ok run_ids) = do t ← restore_runs run_ids s; pure (ok tt, t)

  unfoldable pub restore_active_runs : Supervisor → Act (Result AppError (Unit {0}) × Supervisor)
  unfolding ◌>>=◌ send restore_all
  restore_active_runs s = do reply ← send env list_active_run_ids; restore_all s reply
