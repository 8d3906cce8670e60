-- ===== src/Runsd/Actor/Supervisor/Cancels.antt =====
-- What a cancellation of a calculation does in crates/runsd/src/actor/supervisor.rs while nothing is
-- rescheduled.
use ensurer_v.Prelude.{
  ◌≡◌, refl, ap, ◌∙◌, String, List, [], ◌∷◌, Bool-cases, Option-cases, inl, inr, Result, ok, err,
  is_empty,
}
use ensurer_v.Common.Model.{RunId, CalcId, NewCalc, Calculation}
use ensurer_v.Runsd.Error.{AppError}
use ensurer_v.Runsd.Actor.Db.{DbCmd}
use ensurer_v.Runsd.Actor.World.{Env, World, send}
use ensurer_v.Runsd.Actor.Supervisor.{
  Setup, Supervisor, new, entry_of, open_specs, spawn_run_actor, submit_run, cancel_run,
  cancel_calc, restored, restore_runs, restore_all, restore_active_runs,
}
use ensurer_v.Runsd.Actor.Supervisor.Spawns.{Spawns, submit_run-Spawns}

module _ (env : Env) (setup : Setup) where
  -- The supervisors that come from submissions, cancellations and the restoring at the start.
  pub data IsReached : Supervisor → Type 0 where
    at_start : IsReached new
    after_submit :
        {s : Supervisor}
        → IsReached s
        → (jira_issue_id submitted_by : String) (calcs : List NewCalc) (w : World)
        → IsReached (submit_run env setup jira_issue_id submitted_by calcs s w).0.1
    after_restore :
        {s : Supervisor}
        → IsReached s
        → (w : World) → IsReached (restore_active_runs env setup s w).0.1
    after_cancel_run :
        {s : Supervisor}
        → IsReached s
        → (run_id : RunId) → IsReached (cancel_run env setup run_id s)
    after_cancel_calc :
        {s : Supervisor}
        → IsReached s
        → (calc_id : CalcId) → IsReached (cancel_calc env setup calc_id s)

  calc_actors-submit :
      (calcs : List NewCalc) (s : Supervisor) (p : Result AppError RunId × Supervisor)
      → Spawns env setup calcs s p
      → p.1.calc_actors ≡ s.calc_actors
  calc_actors-submit calcs s (err e, t) h = rw h refl
  calc_actors-submit calcs s (ok run_id, t) h = h.5

  calc_actors-restored :
      (run_id : RunId) (s : Supervisor) (r : Result AppError (List Calculation))
      → (restored env setup run_id s r).calc_actors ≡ s.calc_actors
  unfolding restored spawn_run_actor
  calc_actors-restored run_id s (err e) = refl
  calc_actors-restored run_id s (ok calcs) =
      elim (Bool-cases (is_empty (open_specs env setup calcs))) [
        | inl e ↦ rw e refl
        | inr e ↦ rw e refl
      ]

  calc_actors-restore_runs :
      (run_ids : List RunId) (s : Supervisor) (w : World)
      → (restore_runs env setup run_ids s w).0.calc_actors ≡ s.calc_actors
  unfolding restore_runs
  calc_actors-restore_runs [] s w = refl
  calc_actors-restore_runs (run_id ∷ rest) s w =
      let (reply, v) = send env (DbCmd.list_calculations_for_run run_id) w in
      calc_actors-restore_runs rest (restored env setup run_id s reply) v
      ∙ calc_actors-restored run_id s reply

  calc_actors-restore_all :
      (s : Supervisor) (r : Result AppError (List RunId)) (w : World)
      → (restore_all env setup s r w).0.1.calc_actors ≡ s.calc_actors
  unfolding restore_all
  calc_actors-restore_all s (err e) w = refl
  calc_actors-restore_all s (ok run_ids) w = calc_actors-restore_runs run_ids s w

  calc_actors-cancel_run :
      (run_id : RunId) (s : Supervisor)
      → (cancel_run env setup run_id s).calc_actors ≡ s.calc_actors
  unfolding cancel_run
  calc_actors-cancel_run run_id s = elim (Option-cases (entry_of run_id s.run_actors)) [
    | inl e ↦ rw (e, cancel_run) refl
    | inr (x, e) ↦ rw (e, cancel_run) refl
  ]

  cancel_calc-none :
      (calc_id : CalcId) (s : Supervisor) → s.calc_actors ≡ [] → cancel_calc env setup calc_id s ≡ s
  unfolding cancel_calc
  cancel_calc-none calc_id s h = rw h refl

  no_calc_actors : {s : Supervisor} → IsReached s → s.calc_actors ≡ []
  unfolding restore_active_runs
  no_calc_actors at_start = refl
  no_calc_actors (after_submit {s} h jira by calcs w) =
      calc_actors-submit calcs s _ (submit_run-Spawns env setup jira by calcs s w)
      ∙ no_calc_actors h
  no_calc_actors (after_restore {s} h w) =
      let (reply, v) = send env DbCmd.list_active_run_ids w in
      calc_actors-restore_all s reply v ∙ no_calc_actors h
  no_calc_actors (after_cancel_run {s} h run_id) =
      calc_actors-cancel_run run_id s ∙ no_calc_actors h
  no_calc_actors (after_cancel_calc {s} h calc_id) =
      ap (λ (t : Supervisor). t.calc_actors) (cancel_calc-none calc_id s (no_calc_actors h))
      ∙ no_calc_actors h

  -- While the supervisor has only submitted, restored and cancelled, the cancellation of a
  -- calculation sends nothing and changes nothing, whatever the calculation.
  pub cancel_calc-ignored :
      (s : Supervisor) → IsReached s → (calc_id : CalcId) → cancel_calc env setup calc_id s ≡ s
  cancel_calc-ignored s h calc_id = cancel_calc-none calc_id s (no_calc_actors h)
