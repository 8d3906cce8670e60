-- ===== src/Runsd/Actor/Run/Follows.antt =====
-- When the actor of a run (crates/runsd/src/actor/run.rs) ends, and whom it tells.
use ensurer_v.Prelude.{
  ℕ, suc, ◌+◌, ◌≤◌, ◌<◌, ◌≡◌, refl, sym, ◌↔◌, ◌∙◌, ap, List, [], ◌∷◌, ◌++◌, map, length, leb, arith,
  All, select, not, true, Bool-cases, inl, inr, leb→le,
}
use ensurer_v.Common.Model.{RunId, CalcId}
use ensurer_v.Runsd.Actor.World.{Env, World}
use ensurer_v.Runsd.Actor.Calc.{CalcCmd, start, cancel, stopped}
use ensurer_v.Runsd.Actor.Run.Ids.{
  has, minus, Distinct, append_assoc, append-nil, minus-nil, minus-without,
}
use ensurer_v.Runsd.Actor.Run.Followed.{
  ids_of, followed, length-followed, length-followed-le, spawn_calcs-calc_txs,
}
use ensurer_v.Runsd.Actor.Run.{
  RunActor, CalcSpec, Following, Arrival, command, notification, calc_finished, cancel_run,
  spawn_calcs, unspawned, cancel_all, calc_done, follow, run_actor, refresh_run_status,
}

abbrev pub finishes : List CalcId → List Arrival
finishes = map (λ id. notification (calc_finished id))

-- Each specification's id with its `Start`.
abbrev pub all_started : List CalcSpec → List (CalcId × CalcCmd)
all_started [] = []
all_started (s ∷ rest) = (s.id, start) ∷ all_started rest

module _ (env : Env) where
  spawn_calcs-sent :
      (a : RunActor) (specs : List CalcSpec) (f : Following)
      → (spawn_calcs env a specs f).sent ≡ f.sent ++ all_started specs
  unfolding spawn_calcs
  spawn_calcs-sent a [] f = sym (append-nil f.sent)
  spawn_calcs-sent a (s ∷ rest) f =
      spawn_calcs-sent a rest _ ∙ append_assoc f.sent ((s.id, start) ∷ []) (all_started rest)

  spawn_calcs-finished :
      (a : RunActor) (specs : List CalcSpec) (f : Following)
      → (spawn_calcs env a specs f).finished ≡ f.finished
  unfolding spawn_calcs
  spawn_calcs-finished a [] f = refl
  spawn_calcs-finished a (s ∷ rest) f = spawn_calcs-finished a rest _

  follow-ends :
      (run_id : RunId) (total : ℕ) (ids : List CalcId) (f : Following) (w : World)
      → f.finished < total
      → ((follow env run_id total (finishes ids) f w).0.0 ≡ stopped)
        ↔ (total ≤ f.finished + length ids)
  unfolding follow calc_done
  follow-ends run_id total [] f w h = ground arith
  follow-ends run_id total (id ∷ ids) f w h = elim (Bool-cases (leb total (suc f.finished))) [
    | inl e ↦ rw e ((λ _. omega (arith, leb→le total (suc f.finished) e)), λ _. refl)
    | inr e ↦ rw e (
        let (to, from) =
          follow-ends run_id total ids (calc_done id f) (refresh_run_status env run_id w).1
            (ground arith) in
        ((λ s. omega (arith, to s)), (λ k. from (omega arith))))
  ]

  follow-cancel :
      (run_id : RunId) (total : ℕ) (ids : List CalcId) (f : Following) (w : World)
      → f.finished + length ids < total
      → (follow env run_id total (finishes ids ++ command cancel_run ∷ []) f w).0.1.sent
        ≡ f.sent ++ map (λ id. (id, cancel)) (minus ids f.calc_txs)
  unfolding follow cancel_all calc_done
  follow-cancel run_id total [] f w h =
      ap (λ l. f.sent ++ map (λ id. (id, cancel)) l) (sym (minus-nil f.calc_txs))
  follow-cancel run_id total (id ∷ ids) f w h = elim (Bool-cases (leb total (suc f.finished))) [
    | inl e ↦ absurd (omega (arith, leb→le total (suc f.finished) e))
    | inr e ↦ rw e (
        follow-cancel run_id total ids (calc_done id f) (refresh_run_status env run_id w).1
          (omega arith)
        ∙ ap (λ l. f.sent ++ map (λ id. (id, cancel)) l) (minus-without id ids f.calc_txs))
  ]

  -- The keys after the first loop are the ids of the calculations, each once.
  spawned_keys : (a : RunActor) → (spawn_calcs env a a.calcs unspawned).calc_txs ≡ followed a.calcs
  spawned_keys a = spawn_calcs-calc_txs env a a.calcs unspawned

  follow_run-ends :
      (a : RunActor) (ids : List CalcId) (w : World)
      → 0 < length (followed a.calcs)
      → ((run_actor env a (finishes ids) w).0.0 ≡ stopped)
        ↔ (length (followed a.calcs) ≤ length ids)
  unfolding run_actor
  follow_run-ends a ids w h =
      let none = spawn_calcs-finished a a.calcs unspawned in
      let keys = ap length (spawned_keys a) in
      let f = spawn_calcs env a a.calcs unspawned in
      let (to, from) =
        follow-ends a.run_id (length f.calc_txs) ids f w (omega (arith, none, keys)) in
      ((λ s. omega (arith, none, keys, to s)), (λ k. from (omega (arith, none, keys))))

  -- The actors of a run with a calculation, or more, tell their ends one after the other, each only
  -- once. With no command, the actor of the run stops exactly when all its calculations have ended.
  pub run_actor-ends :
      (a : RunActor) (ids : List CalcId) (w : World)
      → 0 < length a.calcs
      → Distinct ids
      → All (λ id. has id (ids_of a.calcs) ≡ true) ids
      → ((run_actor env a (finishes ids) w).0.0 ≡ stopped)
        ↔ All (λ (s : CalcSpec). has s.id ids ≡ true) a.calcs
  run_actor-ends a ids w some distinct own =
      let (to, from) = follow_run-ends a ids w (length-followed a.calcs some) in
      let (all, few) = length-followed-le a.calcs ids distinct own in
      ((λ s. all (to s)), (λ k. from (few k)))

  -- When a run is cancelled after fewer ends than it has calculations, the actors have got a
  -- `Start` each, and then those whose calculations have not ended, and only those, a `Cancel`
  -- each.
  pub run_actor-cancels :
      (a : RunActor) (ids : List CalcId) (w : World)
      → length ids < length (followed a.calcs)
      → (run_actor env a (finishes ids ++ command cancel_run ∷ []) w).0.1.sent
        ≡ all_started a.calcs
          ++ map (λ id. (id, cancel)) (select (λ id. not (has id ids)) (followed a.calcs))
  unfolding run_actor
  run_actor-cancels a ids w h =
      let f = spawn_calcs env a a.calcs unspawned in
      follow-cancel a.run_id (length f.calc_txs) ids f w
        (omega (arith, ap length (spawned_keys a), spawn_calcs-finished a a.calcs unspawned))
      ∙ ap (λ l. f.sent ++ map (λ id. (id, cancel)) (minus ids l)) (spawned_keys a)
      ∙ ap (λ l. l ++ map (λ id. (id, cancel)) (minus ids (followed a.calcs)))
          (spawn_calcs-sent a a.calcs unspawned)
