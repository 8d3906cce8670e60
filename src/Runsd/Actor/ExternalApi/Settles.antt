-- ===== src/Runsd/Actor/ExternalApi/Settles.antt =====
-- When a submission to the external API (crates/runsd/src/actor/calc.rs) ends.
use ensurer_v.Prelude.{
  suc, ◌+◌, ◌≤◌, ◌<◌, ◌≡◌, ◌≢◌, ◌↔◌, ◌||◌, ◌==◌, eq_iff, refl, subst, String, Bool, true, none,
  is_some, List, [], ◌∷◌, ◌++◌, All, length, ok, err, Result-cases, inl, inr, arith, ◌⊎◌,
}
use ensurer_v.Common.Json.{Json}
use ensurer_v.Common.Model.{CalcId}
use ensurer_v.Runsd.Config.{ExternalApiConfig}
use ensurer_v.Runsd.Actor.ExternalApi.{
  Answer, Io, Submitted, Progress, finished, failed, unfinished, progress_of, task_status, judged,
  on_poll, poll, submit, launched, task_id_of, proceed, write_result, wrote, result_path_of,
  result_dir_of, Written, complete, unopened, broken_off,
}

-- An answer with a status of 2xx and a JSON body.
abbrev pub HasBody : Answer → Json → Type 0
HasBody (err e) v = ⊥
HasBody (ok r) v = (200 ≤ r.status) × (r.status < 300) × (r.body ≡ ok v)

-- A status that no arm of the match names.
abbrev pub IsOther : String → Type 0
IsOther s = (s ≢ "completed") × (s ≢ "succeeded") × (s ≢ "success") × (s ≢ "failed") × (s ≢ "error")

ruleset words = (arith)

abbrev is_end_word : String → Bool
is_end_word s = s == "completed" || s == "succeeded" || s == "success"

progress-unfinished : (s : String) (v : Json) → (progress_of s v ≡ unfinished) ↔ IsOther s
unfolding progress_of
progress-unfinished s v = ground (
  arith,
  eq_iff s "completed",
  eq_iff s "succeeded",
  eq_iff s "success",
  eq_iff s "failed",
  eq_iff s "error",
)

module _ (cfg : ExternalApiConfig) (io : Io) where
  pub judged-ok :
      (what : String) (a : Answer) (v : Json) → (judged cfg io what a ≡ ok v) ↔ HasBody a v
  unfolding judged
  judged-ok what (err e) v = ground arith
  judged-ok what (ok r) v = elim (Result-cases r.body) [
    | inl (u, e) ↦ rw e (ground arith)
    | inr (m, e) ↦ rw e (ground arith)
  ]

  -- The task goes on: the answer to a poll names none of the statuses of an end.
  abbrev pub IsPending : Answer → Type 0
  IsPending a = (v : Json) × HasBody a v × IsOther (task_status cfg io v)

  abbrev pub IsAccepted : Answer → Type 0
  IsAccepted a = (v : Json) × HasBody a v

  pub body_unique : (a : Answer) (u v : Json) → HasBody a u → HasBody a v → u ≡ v
  body_unique (ok r) u v b c = cc (b.2, c.2)
  body_unique (err e) u v b c = absurd b

  pending-progress :
      (a : Answer) (v : Json)
      → HasBody a v
      → IsPending a
      → progress_of (task_status cfg io v) v ≡ unfinished
  pending-progress a v b (u, c, other) =
      subst (λ x. progress_of (task_status cfg io x) x ≡ unfinished) (body_unique a u v c b)
        ((progress-unfinished (task_status cfg io u) u).1 other)

  wrote-ends :
      (dir path bytes : String) (b : Written)
      → (is_some (wrote cfg io dir path bytes b).outcome ≡ true)
        × ((wrote cfg io dir path bytes b).requests ≡ [])
  wrote-ends dir path bytes complete = (refl, refl)
  wrote-ends dir path bytes unopened = (refl, refl)
  wrote-ends dir path bytes (broken_off part) = (refl, refl)

  -- A poll goes on with the rest, or ends the submission without a request.
  abbrev Goes : Answer → Submitted → Submitted → Type 0
  Goes a later s =
      (IsPending a × (s ≡ later))
      ⊎ ((¬ IsPending a) × (is_some s.outcome ≡ true) × (s.requests ≡ []))

  module _ (data_dir : String) (calc_id : CalcId) where
    proceed-Goes :
        (a : Answer) (later : Submitted) (v : Json) (p : Progress)
        → HasBody a v
        → progress_of (task_status cfg io v) v ≡ p
        → Goes a later (proceed cfg io data_dir calc_id later v p)
    unfolding proceed write_result
    proceed-Goes a later v finished b e =
        let path = result_path_of cfg io data_dir calc_id in
        let bytes = io.json_bytes v in
        let dir = result_dir_of cfg io data_dir calc_id in
        let w = wrote-ends dir path bytes (io.writes path bytes) in
        inr (λ q. cc (pending-progress a v b q, e), w.0, w.1)
    proceed-Goes a later v (failed m) b e = inr (λ q. cc (pending-progress a v b q, e), refl, refl)
    proceed-Goes a later v unfinished b e =
        inl ((v, b, (progress-unfinished (task_status cfg io v) v).0 e), refl)

    on_poll-Goes :
        (a : Answer) (later : Submitted)
        → Goes a later (on_poll cfg io data_dir calc_id later (judged cfg io "status" a))
    unfolding on_poll
    on_poll-Goes a later = elim (Result-cases (judged cfg io "status" a)) [
      | inl (v, e) ↦ rw e (
          proceed-Goes a later v (progress_of (task_status cfg io v) v)
            ((judged-ok "status" a v).0 e) refl)
      | inr (o, e) ↦ rw e (inr (λ q. cc ((judged-ok "status" a q.0).1 q.1, e), refl, refl))
    ]

    poll-settles :
        (task_id : String) (before after : List Answer) (a : Answer)
        → All IsPending before
        → ¬ IsPending a
        → (is_some (poll cfg io data_dir calc_id task_id (before ++ a ∷ after)).outcome ≡ true)
          × (length (poll cfg io data_dir calc_id task_id (before ++ a ∷ after)).requests
              ≡ suc (length before))
    unfolding poll
    poll-settles task_id [] after a h n =
        elim (on_poll-Goes a (poll cfg io data_dir calc_id task_id after)) [
          | inl (p, e) ↦ absurd (n p)
          | inr (q, o, e) ↦ (o, rw e refl)
        ]
    poll-settles task_id (b ∷ bs) after a h n =
        elim (on_poll-Goes b (poll cfg io data_dir calc_id task_id (bs ++ a ∷ after))) [
          | inl (p, e) ↦
              let ih = poll-settles task_id bs after a h.1 n in rw e (ih.0, omega (arith, ih.1))
          | inr (q, o, e) ↦ absurd (q h.0)
        ]

    -- Whatever the answer to the launch is, the polls that follow it.
    poll-none :
        (task_id : String) (polls : List Answer)
        → ((poll cfg io data_dir calc_id task_id polls).outcome ≡ none) ↔ All IsPending polls
    unfolding poll
    poll-none task_id [] = (λ _. tt, λ _. refl)
    poll-none task_id (a ∷ rest) =
        elim (on_poll-Goes a (poll cfg io data_dir calc_id task_id rest)) [
          | inl (p, e) ↦
              rw e (λ h. (p, (poll-none task_id rest).0 h), λ h. (poll-none task_id rest).1 h.1)
          | inr (q, o, e) ↦ (λ h. absurd (cc (o, h)), λ h. absurd (q h.0))
        ]

    -- The submission of a task that is launched, task_id_of, and whose first polls are answered by a task that
    -- goes on, ends with the first answer that is not, of any kind, and sends no request after it.
    pub submit-settles :
        (kind key : String) (input : Json) (launch : Answer) (before after : List Answer)
        (a : Answer)
        → IsAccepted launch
        → All IsPending before
        → ¬ IsPending a
        → (is_some
              (submit cfg io kind input key data_dir calc_id launch (before ++ a ∷ after)).outcome
            ≡ true)
          × (length
                (submit cfg io kind input key data_dir calc_id launch
                  (before ++ a ∷ after)).requests
              ≡ length before + 2)
    unfolding submit launched
    submit-settles kind key input launch before after a (v, b) h n =
        let p = poll-settles (task_id_of v) before after a h n in
        rw ((judged-ok "launch" launch v).1 b) (p.0, omega (arith, p.1))

    -- A submission has not ended exactly when its task was launched and every answer to a poll is of
    -- a task that goes on: nothing else bounds the number of polls.
    pub submit-none :
        (kind key : String) (input : Json) (launch : Answer) (polls : List Answer)
        → ((submit cfg io kind input key data_dir calc_id launch polls).outcome ≡ none)
          ↔ (IsAccepted launch × All IsPending polls)
    unfolding submit launched
    submit-none kind key input launch polls = elim (Result-cases (judged cfg io "launch" launch)) [
      | inl (v, e) ↦
          let p = poll-none (task_id_of v) polls in
          rw e (λ h. ((v, (judged-ok "launch" launch v).0 e), p.0 h), λ h. p.1 h.1)
      | inr (o, e) ↦ rw e (λ h. cc (h), λ h. cc ((judged-ok "launch" launch h.0.0).1 h.0.1, e))
    ]
