-- ===== src/Runs/Main/Loop.antt =====
-- What the loop of the terminal client (crates/runs/src/main.rs) draws and performs.
use ensurer_v.Prelude.{
  ℕ, suc, ◌≡◌, refl, ap, String, Bool, true, false, Bool-cases, ◌⊎◌, inl, inr, Option, List, [],
  ◌∷◌, ◌++◌, All, All-mono, All-take, map, length, take,
}
use ensurer_v.Runs.App.State.{App, new}
use ensurer_v.Runs.App.State.Index.{IsIndexed}
use ensurer_v.Runs.App.Message.{AppMsg, Effect}
use ensurer_v.Runs.App.Update.{update}
use ensurer_v.Runs.App.Update.Reached.{IsSane, new-IsSane, update-IsSane}
use ensurer_v.Runs.App.Update.Requests.{effects_of}
use ensurer_v.Runs.Main.{and_then, Session, message_of, perform, session}

module _ (id_text : ℕ → String) where
  -- The state after each of the messages.
  unfoldable pub states : List AppMsg → App → List App
  states [] app = []
  states (msg ∷ msgs) app = let b = (update id_text msg app).0 in b ∷ states msgs b

  -- Effects before others, of which none is asked for once the first ask to quit.
  perform-append :
      (xs ys : List Effect)
      → ((perform id_text xs).quits ≡ true × (perform id_text (xs ++ ys) ≡ perform id_text xs))
        ⊎ ((perform id_text xs).quits ≡ false
            × (perform id_text (xs ++ ys) ≡ and_then (perform id_text xs) (perform id_text ys)))
  unfolding perform
  perform-append [] ys = inr (refl, refl)
  perform-append (Effect.quit ∷ xs) ys = inl (refl, refl)
  perform-append (Effect.network cmd ∷ xs) ys = elim (perform-append xs ys) [
    | inl (q, e) ↦ inl (q, rw e refl)
    | inr (q, e) ↦ inr (q, rw e refl)
  ]
  perform-append (Effect.save_result calc_id ∷ xs) ys = elim (perform-append xs ys) [
    | inl (q, e) ↦ inl (q, rw e refl)
    | inr (q, e) ↦ inr (q, rw e refl)
  ]
  perform-append (Effect.yank text ∷ xs) ys = elim (perform-append xs ys) [
    | inl (q, e) ↦ inl (q, rw e refl)
    | inr (q, e) ↦ inr (q, rw e refl)
  ]

  -- The session draws the first of the states, all of them unless it quits.
  abbrev Draws : List App → Session → Type 0
  Draws all s =
      (s.drawn ≡ take (length s.drawn) all) × ((s.performed.quits ≡ true) ⊎ (s.drawn ≡ all))

  module _ (draws : ℕ → Bool) (drawable : (n : ℕ) → draws n ≡ true) where
    session-Draws :
        (n : ℕ) (received : List (Option AppMsg)) (app : App)
        → Draws (states (map message_of received) app) (session id_text draws n received app)
    unfolding session states
    session-Draws n [] app = (refl, inr refl)
    session-Draws n (r ∷ rest) app =
        let b = (update id_text (message_of r) app).0 in
        let p = perform id_text (update id_text (message_of r) app).1 in
        let ih = session-Draws (suc n) rest b in
        elim (Bool-cases p.quits) [
          | inl e ↦ rw e (refl, inl e)
          | inr e ↦
              rw (e, drawable n)
                (
                  ap (λ l. b ∷ l) ih.0,
                  elim ih.1 [ inl q ↦ inl q | inr d ↦ inr (ap (λ l. b ∷ l) d) ],
                )
        ]

    session-perform :
        (n : ℕ) (received : List (Option AppMsg)) (app : App)
        → (session id_text draws n received app).performed
          ≡ perform id_text (effects_of id_text (map message_of received) app)
    unfolding session effects_of
    session-perform n [] app = refl
    session-perform n (r ∷ rest) app =
        let b = (update id_text (message_of r) app).0 in
        let es = (update id_text (message_of r) app).1 in
        let ih = session-perform (suc n) rest b in
        elim (perform-append es (effects_of id_text (map message_of rest) b)) [
          | inl (q, e) ↦ rw (q, e) refl
          | inr (q, e) ↦ rw (q, e, drawable n) (ap (and_then (perform id_text es)) ih)
        ]

  states-IsSane : (msgs : List AppMsg) (app : App) → IsSane app → All IsSane (states msgs app)
  unfolding states
  states-IsSane [] app h = tt
  states-IsSane (msg ∷ msgs) app h =
      let k = update-IsSane id_text msg app h in
      (k, states-IsSane msgs (update id_text msg app).0 k)

  -- While the terminal can be drawn, the loop from the first state on performs the effects of all the
  -- messages, as one list, up to the first Quit; what it draws are the states after the first, the
  -- second and so on of them, all unless it quits; and in each of these the index is right.
  pub session-states :
      (draws : ℕ → Bool) (received : List (Option AppMsg))
      → ((n : ℕ) → draws n ≡ true)
      → let s = session id_text draws 0 received new in
        let msgs = map message_of received in
        (s.performed ≡ perform id_text (effects_of id_text msgs new))
        × (s.drawn ≡ take (length s.drawn) (states msgs new))
        × ((s.performed.quits ≡ true) ⊎ (s.drawn ≡ states msgs new))
        × All IsIndexed s.drawn
  session-states draws received drawable =
      let msgs = map message_of received in
      let s = session id_text draws 0 received new in
      let d = session-Draws draws drawable 0 received new in
      let good =
        All-mono (states msgs new) (λ a h. h.indexed) (states-IsSane msgs new new-IsSane) in
      (
        session-perform draws drawable 0 received new,
        d.0,
        d.1,
        rw d.0 (All-take IsIndexed (length s.drawn) (states msgs new) good),
      )
