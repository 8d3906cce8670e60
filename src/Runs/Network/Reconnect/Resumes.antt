-- ===== src/Runs/Network/Reconnect/Resumes.antt =====
-- From where the client resumes the events (crates/runs/src/network.rs, crates/runs/src/app/update.rs).
use ensurer_v.Prelude.{
  ℕ, suc, ◌≡◌, refl, sym, ap, ◌∙◌, String, Option, none, some, List, [], ◌∷◌, ◌++◌, arith,
  Option-cases, inl, inr,
}
use ensurer_v.Common.Event.{SequencedEvent, ServerEvent}
use ensurer_v.Common.CalcStatus.{CalcStatus}
use ensurer_v.Runs.App.State.{App, new, update_calc_status}
use ensurer_v.Runs.App.Message.{AppMsg}
use ensurer_v.Runs.App.Update.{update, apply_server_event}
use ensurer_v.Runs.App.Update.Reached.{after}
use ensurer_v.Runs.Network.Sse.{Frame}
use ensurer_v.Runs.Network.Events.{Heard, tell, hear, bytes_of, listen}
use ensurer_v.Runs.Network.Events.Ends.{follow_keeps}
use ensurer_v.Runs.Network.Reconnect.{Attempt, Link, start, path_since, attempt, attempts}

status_keeps_seq :
    (run_id calc_id : ℕ) (status : CalcStatus) (app : App)
    → (update_calc_status run_id calc_id status app).last_seen_seq ≡ app.last_seen_seq
unfolding update_calc_status
status_keeps_seq run_id calc_id status app = ground arith

event_keeps_seq :
    (event : ServerEvent) (app : App)
    → (apply_server_event event app).0.last_seen_seq ≡ app.last_seen_seq
unfolding apply_server_event
event_keeps_seq (ServerEvent.calc_status_changed run_id calc_id from to attempt at) app =
    status_keeps_seq run_id calc_id to app
event_keeps_seq _ app = refl

module _ (parse : String → Option SequencedEvent) where
  asks :
      (a : Attempt) (l : Link)
      → (attempt parse a l).paths ≡ l.paths ++ path_since l.heard.last_seq ∷ []
  unfolding attempt
  asks (Attempt.refused e) l = refl
  asks (Attempt.opened body) l = refl

module _ (id_text : ℕ → String) where
  after-append :
      (xs ys : List AppMsg) (app : App)
      → after id_text (xs ++ ys) app ≡ after id_text ys (after id_text xs app)
  unfolding after
  after-append [] ys app = refl
  after-append (x ∷ xs) ys app = after-append xs ys (update id_text x app).0

  -- The update has seen the number that the loop resumes from.
  abbrev IsInStep : Heard → Type 0
  IsInStep h = (after id_text h.sent new).last_seen_seq ≡ h.last_seq

  tell-after :
      (msg : AppMsg) (h : Heard)
      → after id_text (tell msg h).sent new ≡ (update id_text msg (after id_text h.sent new)).0
  unfolding after
  tell-after msg h = after-append h.sent (msg ∷ []) new

  event-IsInStep :
      (e : SequencedEvent) (h : Heard)
      → IsInStep (tell (AppMsg.server_event e) (record h { last_seq = e.seq }))
  unfolding update
  event-IsInStep e h =
      ap (λ (a : App). a.last_seen_seq) (tell-after (AppMsg.server_event e) h)
      ∙ event_keeps_seq e.event _

  connected-IsInStep :
      (h : Heard)
      → IsInStep h
      → IsInStep (tell AppMsg.sse_disconnected h) × IsInStep (tell AppMsg.sse_reconnected h)
  unfolding update
  connected-IsInStep h k = (
    ap (λ (a : App). a.last_seen_seq) (tell-after AppMsg.sse_disconnected h) ∙ k,
    ap (λ (a : App). a.last_seen_seq) (tell-after AppMsg.sse_reconnected h) ∙ k,
  )

  module _ (parse : String → Option SequencedEvent) where
    hear-IsInStep : (text : Option String) (h : Heard) → IsInStep h → IsInStep (hear parse text h)
    hear-IsInStep none h k = k
    hear-IsInStep (some text) h k = elim (Option-cases (parse text)) [
      | inl e ↦ rw e k
      | inr (event, e) ↦ rw e (event-IsInStep event h)
    ]

    listen-IsInStep : (h : Heard) (body : List Frame) → IsInStep h → IsInStep (listen parse h body)
    unfolding listen
    listen-IsInStep h body k =
        follow_keeps parse IsInStep (suc (bytes_of body)) h h (record { body = body; buf = [] })
          hear-IsInStep k k

    attempt-IsInStep :
        (a : Attempt) (l : Link) → IsInStep l.heard → IsInStep (attempt parse a l).heard
    unfolding attempt
    attempt-IsInStep (Attempt.refused e) l k = (connected-IsInStep l.heard k).0
    attempt-IsInStep (Attempt.opened body) l k =
        let asked = tell AppMsg.sse_disconnected l.heard in
        listen-IsInStep (tell AppMsg.sse_reconnected asked) body
          ((connected-IsInStep asked (connected-IsInStep l.heard k).0).1)

    attempts-IsInStep :
        (tries : List Attempt) (l : Link)
        → IsInStep l.heard
        → IsInStep (attempts parse tries l).heard
    unfolding attempts
    attempts-IsInStep [] l k = k
    attempts-IsInStep (a ∷ tries) l k =
        attempts-IsInStep tries (attempt parse a l) (attempt-IsInStep a l k)

    start-IsInStep : IsInStep start.heard
    unfolding after
    start-IsInStep = refl

    -- Whatever comes of the connections and is sent in them, the next one asks for the events behind
    -- the last one that the update has seen.
    pub attempt_resumes :
        (tries : List Attempt) (a : Attempt)
        → let l = attempts parse tries start in
          let app = after id_text l.heard.sent new in
          (attempt parse a l).paths ≡ l.paths ++ path_since app.last_seen_seq ∷ []
    unfolding attempt
    attempt_resumes tries a =
        let l = attempts parse tries start in
        asks parse a l
        ∙ ap (λ seq. l.paths ++ path_since seq ∷ [])
            (sym (attempts-IsInStep tries start start-IsInStep))
