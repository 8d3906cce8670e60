-- ===== src/Runsd/Actor/Calc/Effects.antt =====
-- What the actor of a calculation (crates/runsd/src/actor/calc.rs) does besides its commands: the
-- submissions to the external API and the notifications to its run.
use ensurer_v.Prelude.{
  ℕ, suc, ◌+◌, ◌-◌, ◌^◌, ◌≤◌, ◌<◌, ◌≡◌, refl, ◌∙◌, ◌⊎◌, inl, inr, String, Bool, true, false, List,
  [], ◌∷◌, ◌++◌, arith, ap, subst, if◌then◌else◌, Bool-cases, Result, ok, err, ltb,
}
use ensurer_v.Runsd.Error.{AppError}
use ensurer_v.Runsd.Db.Row.{as_u32}
use ensurer_v.Runsd.Actor.World.{
  ApiOutcome, succeeded, transient_error, permanent_error, Env, World,
}
use ensurer_v.Runsd.Actor.Calc.{
  CalcCmd, start, cancel, heartbeat_tick, CalcActor, Ended, stopped, waiting, Turn, done, kept,
  took, Woken, slept, closed, received, after_wait, give_up, back_off, handle_transient_error,
  handle_outcome, leased, permitted, on_start, run,
}

module _ (env : Env) where
  -- A turn that ends the loop may notify the run, once; one that goes on does not, and it goes on
  -- with the same calculation, one attempt further. `n` and `c` are the notifications and the
  -- submissions before the turn's own.
  abbrev TurnOf : CalcActor → List ℕ → ℕ → Turn × World → Type 0
  TurnOf a n c (done e, w) =
      (e ≡ stopped) × (w.calls ≡ c) × ((w.notified ≡ n) ⊎ (w.notified ≡ n ++ a.id ∷ []))
  TurnOf a n c (kept b, w) = (w.calls ≡ c) × (w.notified ≡ n) × (b ≡ a)
  TurnOf a n c (took b, w) = (w.calls ≡ c) × (w.notified ≡ n) × (b ≡ a)

  after_wait-TurnOf :
      (a : CalcActor) (r : Woken) (w : World) → TurnOf a w.notified w.calls (after_wait env a r w)
  unfolding after_wait
  after_wait-TurnOf a slept w = (refl, refl, refl)
  after_wait-TurnOf a closed w = (refl, refl, inr refl)
  after_wait-TurnOf a (received start) w = (refl, refl, refl)
  after_wait-TurnOf a (received cancel) w = (refl, refl, inr refl)
  after_wait-TurnOf a (received heartbeat_tick) w = (refl, refl, refl)

  back_off-TurnOf :
      (a : CalcActor) (mailbox : List CalcCmd) (w : World)
      → TurnOf a w.notified w.calls (back_off env a mailbox w)
  unfolding back_off
  back_off-TurnOf a mailbox w = after_wait-TurnOf a _ _

  give_up-TurnOf :
      (a : CalcActor) (message : String) (w : World)
      → TurnOf a w.notified w.calls (give_up env a message w)
  unfolding give_up
  give_up-TurnOf a message w = (refl, refl, inr refl)

  abbrev pub advance : CalcActor → CalcActor
  advance a = record a { attempt = as_u32 (a.attempt + 1) }

  -- The actor that goes on has counted one more attempt, and has not passed its maximum.
  abbrev Advanced : CalcActor → CalcActor → Type 0
  Advanced a b = (b ≡ advance a) × (ltb a.max_attempts (as_u32 (a.attempt + 1)) ≡ false)

  -- The same of a turn that begins before the submission.
  abbrev pub StartOf : CalcActor → List ℕ → ℕ → Turn × World → Type 0
  StartOf a n c (done e, w) =
      (e ≡ stopped) × (w.calls ≤ suc c) × ((w.notified ≡ n) ⊎ (w.notified ≡ n ++ a.id ∷ []))
  StartOf a n c (kept b, w) = (w.calls ≤ suc c) × (w.notified ≡ n) × Advanced a b
  StartOf a n c (took b, w) = (w.calls ≤ suc c) × (w.notified ≡ n) × Advanced a b

  StartOf-of_TurnOf :
      (a : CalcActor) (n : List ℕ) (c d : ℕ) (p : Turn × World)
      → ltb a.max_attempts (as_u32 (a.attempt + 1)) ≡ false
      → d ≤ suc c
      → TurnOf (advance a) n d p
      → StartOf a n c p
  StartOf-of_TurnOf a n c d (done e, w) q k h = (h.0, omega arith, h.2)
  StartOf-of_TurnOf a n c d (kept b, w) q k h = (omega arith, h.1, (h.2, q))
  StartOf-of_TurnOf a n c d (took b, w) q k h = (omega arith, h.1, (h.2, q))

  handle_transient_error-StartOf :
      (a : CalcActor) (message : String) (mailbox : List CalcCmd) (w : World) (c : ℕ)
      → w.calls ≤ suc c
      → StartOf a w.notified c (handle_transient_error env a message mailbox w)
  unfolding handle_transient_error
  handle_transient_error-StartOf a message mailbox w c k =
      elim (Bool-cases (ltb a.max_attempts (as_u32 (a.attempt + 1)))) [
        | inl e ↦ rw e (refl, k, inr refl)
        | inr e ↦ rw e (
            StartOf-of_TurnOf a w.notified c w.calls (back_off env (advance a) mailbox w) e k
              (back_off-TurnOf (advance a) mailbox w))
      ]

  handle_outcome-StartOf :
      (a : CalcActor) (mailbox : List CalcCmd) (o : ApiOutcome) (w : World) (c : ℕ)
      → w.calls ≤ suc c
      → StartOf a w.notified c (handle_outcome env a mailbox o w)
  unfolding handle_outcome
  handle_outcome-StartOf a mailbox (succeeded path) w c k = (refl, k, inr refl)
  handle_outcome-StartOf a mailbox (transient_error message) w c k =
      handle_transient_error-StartOf a message mailbox w c k
  handle_outcome-StartOf a mailbox (permanent_error message) w c k = (refl, k, inr refl)

  leased-StartOf :
      (a : CalcActor) (mailbox : List CalcCmd) (r : Result AppError (Unit {0})) (w : World)
      → StartOf a w.notified w.calls (leased env a mailbox r w)
  unfolding leased
  leased-StartOf a mailbox (err e) w = (refl, omega arith, inl refl)
  leased-StartOf a mailbox (ok u) w = handle_outcome-StartOf a mailbox _ _ w.calls (omega arith)

  permitted-StartOf :
      (a : CalcActor) (mailbox : List CalcCmd) (b : Bool) (w : World)
      → StartOf a w.notified w.calls (permitted env a mailbox b w)
  unfolding permitted
  permitted-StartOf a mailbox false w = (refl, omega arith, inl refl)
  permitted-StartOf a mailbox true w = leased-StartOf a mailbox _ _

  pub on_start-StartOf :
      (a : CalcActor) (mailbox : List CalcCmd) (w : World)
      → StartOf a w.notified w.calls (on_start env a mailbox w)
  unfolding on_start
  on_start-StartOf a mailbox w = permitted-StartOf a mailbox _ _

  -- The number of `Start` messages.
  abbrev pub starts : List CalcCmd → ℕ
  starts [] = 0
  starts (start ∷ rest) = suc (starts rest)
  starts (cancel ∷ rest) = starts rest
  starts (heartbeat_tick ∷ rest) = starts rest

  -- The counts of attempts stay below the last number of an u32.
  abbrev pub FitsU32 : CalcActor → Type 0
  FitsU32 a = (a.attempt < 2 ^ 32 - 1) × (a.max_attempts < 2 ^ 32 - 1)

  abbrev RunOf : CalcActor → List CalcCmd → List ℕ → ℕ → Ended × World → Type 0
  RunOf a mailbox n c (e, w) =
      (w.calls ≤ c + starts mailbox)
      × (FitsU32 a → w.calls ≤ c + suc (a.max_attempts - a.attempt))
      × ((w.notified ≡ n) ⊎ ((e ≡ stopped) × (w.notified ≡ n ++ a.id ∷ [])))

  not_past_max :
      (a : CalcActor)
      → ltb a.max_attempts (as_u32 (a.attempt + 1)) ≡ false
      → as_u32 (a.attempt + 1) ≤ a.max_attempts
  not_past_max a q = ground arith

  -- From the turn to the run that goes on from it.
  RunOf-next :
      (a : CalcActor) (before after : List CalcCmd) (n : List ℕ) (c : ℕ) (w : World)
      (p : Ended × World)
      → starts after + 1 ≤ starts before
      → w.calls ≤ suc c
      → w.notified ≡ n
      → ltb a.max_attempts (as_u32 (a.attempt + 1)) ≡ false
      → RunOf (advance a) after w.notified w.calls p
      → RunOf a before n c p
  RunOf-next a before after n c w (e, v) s k m q h = (
    omega arith,
    (λ f.
        let le = not_past_max a q in
        let small : FitsU32 (advance a) = (omega arith, f.1) in omega (arith, h.1 small)),
    elim h.2 [
      | inl same ↦ inl (same ∙ m)
      | inr (end, more) ↦ inr (end, more ∙ ap (λ l. l ++ a.id ∷ []) m)
    ],
  )

  abbrev at_wait : World → Ended × World
  at_wait w = (if env.closes then stopped else waiting, w)

  RunOf-wait :
      (a : CalcActor) (mailbox : List CalcCmd) (n : List ℕ) (c : ℕ) (w : World)
      → 1 ≤ starts mailbox
      → w.calls ≤ suc c
      → w.notified ≡ n
      → RunOf a mailbox n c (at_wait w)
  RunOf-wait a mailbox n c w s k m = (omega arith, (λ f. omega arith), inl m)

  RunOf-done :
      (a : CalcActor) (mailbox : List CalcCmd) (n : List ℕ) (c : ℕ) (e : Ended) (w : World)
      → 1 ≤ starts mailbox
      → StartOf a n c (done e, w)
      → RunOf a mailbox n c (e, w)
  RunOf-done a mailbox n c e w s h = (
    omega arith,
    (λ f. omega arith),
    elim h.2 [ inl same ↦ inl same | inr more ↦ inr (h.0, more) ],
  )

  starts-le-cons : (cmd : CalcCmd) (rest : List CalcCmd) → starts rest ≤ starts (cmd ∷ rest)
  starts-le-cons start rest = omega arith
  starts-le-cons cancel rest = omega arith
  starts-le-cons heartbeat_tick rest = omega arith

  run-RunOf :
      (a : CalcActor) (mailbox : List CalcCmd) (w : World)
      → RunOf a mailbox w.notified w.calls (run env a mailbox w)
  unfolding run
  run-RunOf a [] w = (omega arith, (λ f. omega arith), inl refl)
  run-RunOf a (cancel ∷ rest) w = (omega arith, (λ f. omega arith), inr (refl, refl))
  run-RunOf a (heartbeat_tick ∷ rest) w = run-RunOf a rest w
  run-RunOf a (start ∷ []) w = go (on_start env a [] w) (on_start-StartOf a [] w)
    where
      go :
          (p : Turn × World)
          → StartOf a w.notified w.calls p
          → RunOf a
              (start ∷ [])
              w.notified
              w.calls
              (elim p.0 [ done e ↦ (e, p.1) | kept b ↦ at_wait p.1 | took b ↦ at_wait p.1 ])
      go (done e, v) h = RunOf-done a (start ∷ []) w.notified w.calls e v (omega arith) h
      go (kept b, v) h = RunOf-wait a (start ∷ []) w.notified w.calls v (omega arith) h.0 h.1
      go (took b, v) h = RunOf-wait a (start ∷ []) w.notified w.calls v (omega arith) h.0 h.1
  run-RunOf a (start ∷ cmd ∷ rest) w =
      go (on_start env a (cmd ∷ rest) w) (on_start-StartOf a (cmd ∷ rest) w)
        (λ b v. run-RunOf b (cmd ∷ rest) v) (λ b v. run-RunOf b rest v)
    where
      go :
          (p : Turn × World)
          → StartOf a w.notified w.calls p
          → ((b : CalcActor) (v : World)
              → RunOf b (cmd ∷ rest) v.notified v.calls (run env b (cmd ∷ rest) v))
          → ((b : CalcActor) (v : World) → RunOf b rest v.notified v.calls (run env b rest v))
          → RunOf a (start ∷ cmd ∷ rest) w.notified w.calls (elim p.0 [
            | done e ↦ (e, p.1)
            | kept b ↦ run env b (cmd ∷ rest) p.1
            | took b ↦ run env b rest p.1
          ])
      go (done e, v) h ik it =
          RunOf-done a (start ∷ cmd ∷ rest) w.notified w.calls e v (omega arith) h
      go (kept b, v) h ik it =
          RunOf-next a (start ∷ cmd ∷ rest) (cmd ∷ rest) w.notified w.calls v
            (run env b (cmd ∷ rest) v) (omega arith) h.0 h.1 h.2.1
            (subst (λ x. RunOf x (cmd ∷ rest) v.notified v.calls (run env b (cmd ∷ rest) v)) h.2.0
              (ik b v))
      go (took b, v) h ik it =
          RunOf-next a (start ∷ cmd ∷ rest) rest w.notified w.calls v (run env b rest v)
            (omega (arith, starts-le-cons cmd rest)) h.0 h.1 h.2.1
            (subst (λ x. RunOf x rest v.notified v.calls (run env b rest v)) h.2.0 (it b v))

  -- Whatever the environment does, the actor tells its run at most once that it is finished, and
  -- only when it stops.
  pub notifies_once :
      (a : CalcActor) (mailbox : List CalcCmd) (w : World)
      → let (ended, v) = run env a mailbox w in
        (v.notified ≡ w.notified) ⊎ ((ended ≡ stopped) × (v.notified ≡ w.notified ++ a.id ∷ []))
  notifies_once a mailbox w = (run-RunOf a mailbox w).2

  -- Each `Start` leads to at most one submission to the external API: a transient error is not
  -- followed by another attempt until a `Start` comes again.
  pub calls-le-starts :
      (a : CalcActor) (mailbox : List CalcCmd) (w : World)
      → (run env a mailbox w).1.calls ≤ w.calls + starts mailbox
  calls-le-starts a mailbox w = (run-RunOf a mailbox w).0

  -- However many `Start`s come, there are at most as many submissions as attempts left and one.
  pub calls-le-attempts :
      (a : CalcActor) (mailbox : List CalcCmd) (w : World)
      → FitsU32 a
      → (run env a mailbox w).1.calls ≤ w.calls + suc (a.max_attempts - a.attempt)
  calls-le-attempts a mailbox w f = (run-RunOf a mailbox w).1 f
