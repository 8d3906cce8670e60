-- ===== src/Runsd/Actor/Supervisor/Spawns.antt =====
-- What a submission to crates/runsd/src/actor/supervisor.rs spawns.
use ensurer_v.Prelude.{
  ℕ, ◌≡◌, refl, ap, String, List, [], ◌∷◌, ◌++◌, map, length, All, arith, some, Result, ok, err,
  nat_eq_iff,
}
use ensurer_v.Common.Json.{Json}
use ensurer_v.Common.Model.{RunId, CalcId, NewCalc}
use ensurer_v.Runsd.Error.{AppError}
use ensurer_v.Runsd.Actor.World.{Env, World, Act, next}
use ensurer_v.Runsd.Actor.Run.{RunActor, CalcSpec}
use ensurer_v.Runsd.Actor.Supervisor.{
  Setup, Supervisor, a_run, map_ok, dropped, entry_of, new_calculation, spec_of, inserted,
  insert_calcs, submitted, submit_calcs, submit_run,
}

-- A specification as the request had it.
abbrev pub asked : CalcSpec → String × Json
asked s = (s.kind, s.input_json)

abbrev pub asked_for : NewCalc → String × Json
asked_for nc = (nc.kind, nc.input)

entry_of-last :
    {A : Type 0} (key : ℕ) (a : A) (entries : List (ℕ × A))
    → entry_of key (dropped key entries ++ (key, a) ∷ []) ≡ some (key, a)
entry_of-last key a [] = ground (arith, nat_eq_iff key key)
entry_of-last key a (e ∷ es) = ground (arith, entry_of-last key a es)

module _ (env : Env) (setup : Setup) where
  -- The specifications are those of the request, in its order, at attempt 0.
  abbrev pub Fit : List NewCalc → List CalcSpec → Type 0
  Fit calcs specs =
      (map asked specs ≡ map asked_for calcs)
      × All (λ (s : CalcSpec). (s.attempt ≡ 0) × (s.max_attempts ≡ setup.retry_cfg.max_attempts))
          specs

  abbrev FitResult : List NewCalc → Result AppError (List CalcSpec) → Type 0
  FitResult calcs (err e) = Unit
  FitResult calcs (ok specs) = Fit calcs specs

  FitResult-cons :
      (run_id : RunId) (calc_id : CalcId) (now : ℕ) (nc : NewCalc) (rest : List NewCalc)
      (r : Result AppError (List CalcSpec))
      → FitResult rest r
      → FitResult
          (nc ∷ rest)
          (map_ok (λ l. spec_of env setup (new_calculation env setup run_id calc_id now nc) ∷ l) r)
  unfolding new_calculation
  FitResult-cons run_id calc_id now nc rest (err e) h = tt
  FitResult-cons run_id calc_id now nc rest (ok specs) h =
      (ap (λ l. asked_for nc ∷ l) h.0, ((refl, refl), h.1))

  inserted-Fit :
      (run_id : RunId) (calc_id : CalcId) (now : ℕ) (nc : NewCalc) (rest : List NewCalc)
      (others : Act (Result AppError (List CalcSpec)))
      → ((w : World) → FitResult rest (others w).0)
      → (r : Result AppError (Unit {0})) (w : World)
      → FitResult
          (nc ∷ rest)
          (inserted env setup (new_calculation env setup run_id calc_id now nc) others r w).0
  unfolding inserted
  inserted-Fit run_id calc_id now nc rest others h (err e) w = tt
  inserted-Fit run_id calc_id now nc rest others h (ok u) w =
      FitResult-cons run_id calc_id now nc rest (others w).0 (h w)

  insert_calcs-Fit :
      (run_id : RunId) (now : ℕ) (calcs : List NewCalc) (w : World)
      → FitResult calcs (insert_calcs env setup run_id now calcs w).0
  unfolding insert_calcs
  insert_calcs-Fit run_id now [] w = (refl, tt)
  insert_calcs-Fit run_id now (nc ∷ rest) w =
      inserted-Fit run_id (setup.new_uuid w.step) now nc rest
        (insert_calcs env setup run_id now rest) (insert_calcs-Fit run_id now rest) _ _

  -- What a submission of `calcs` to the supervisor `s` leaves: nothing after an error, else one
  -- more actor, of the run that is answered, which the supervisor finds by the run's id.
  abbrev pub Spawns : List NewCalc → Supervisor → Result AppError RunId × Supervisor → Type 0
  Spawns calcs s (err e, t) = t ≡ s
  Spawns calcs s (ok run_id, t) =
      (a : RunActor) × (t.spawned ≡ s.spawned ++ a_run a ∷ [])
      × (a.run_id ≡ run_id)
      × Fit calcs a.calcs
      × (entry_of run_id t.run_actors ≡ some (run_id, length s.spawned))
      × (t.calc_actors ≡ s.calc_actors)

  submitted-Spawns :
      (run_id : RunId) (calcs : List NewCalc) (s : Supervisor) (r : Result AppError (List CalcSpec))
      → FitResult calcs r
      → Spawns calcs s (submitted env setup run_id s r)
  unfolding submitted
  submitted-Spawns run_id calcs s (err e) h = refl
  submitted-Spawns run_id calcs s (ok specs) h =
      (_, refl, refl, h, entry_of-last run_id (length s.spawned) s.run_actors, refl)

  submit_calcs-Spawns :
      (run_id : RunId) (calcs : List NewCalc) (s : Supervisor) (r : Result AppError (Unit {0}))
      (w : World)
      → Spawns calcs s (submit_calcs env setup run_id calcs s r w).0
  unfolding submit_calcs
  submit_calcs-Spawns run_id calcs s (err e) w = refl
  submit_calcs-Spawns run_id calcs s (ok u) w =
      submitted-Spawns run_id calcs s _ (insert_calcs-Fit run_id (env.clock w.step) calcs (next w))

  -- In any environment, a submission that is answered with an error leaves the supervisor as it
  -- was; one that is answered with a run spawns one actor more, of that run, with the requested
  -- calculations in their order, each at attempt 0 with the configured maximum, and the
  -- supervisor finds the actor by the id of the run.
  pub submit_run-Spawns :
      (jira_issue_id submitted_by : String) (calcs : List NewCalc) (s : Supervisor) (w : World)
      → Spawns calcs s (submit_run env setup jira_issue_id submitted_by calcs s w).0
  unfolding submit_run
  submit_run-Spawns jira_issue_id submitted_by calcs s w = submit_calcs-Spawns _ calcs s _ _
