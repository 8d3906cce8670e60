-- ===== src/Runs/App/Update/Reached.antt =====
-- What holds of the client's state after any messages (crates/runs/src/app/update.rs).
use ensurer_v.Prelude.{ℕ, ◌≡◌, refl, ◌∙◌, String, Bool, List, [], ◌∷◌, arith}
use ensurer_v.Common.CalcStatus.{CalcStatus}
use ensurer_v.Common.Event.{ServerEvent}
use ensurer_v.Common.Model.{Run}
use ensurer_v.Runs.App.State.{App, new, upsert_run, update_calc_status, clamp_cursors}
use ensurer_v.Runs.App.State.Index.{IsIndexed, upsert_run-IsIndexed, update_calc_status-IsIndexed}
use ensurer_v.Runs.App.Message.{AppMsg}
use ensurer_v.Runs.App.Update.{update, upsert_runs, apply_server_event}
use ensurer_v.Runs.App.Update.Motion.{advance_search}
use ensurer_v.Runs.App.Update.Steady.{Steady, IsAsked, handle_key-Steady}

pub record IsSane (app : App) : Type 0 where
  pub indexed : IsIndexed app
  pub no_matches : app.filter.search_matches ≡ []
  pub asked : IsAsked app.overlay

-- The index is right of any state with the same runs and the same index.
same-IsIndexed :
    (a b : App) → b.runs ≡ a.runs → b.run_index ≡ a.run_index → IsIndexed a → IsIndexed b
same-IsIndexed a b r i h = record {
  agrees = λ id. rw (r, i) (h.agrees id);
  own_place = λ n x k. rw r (h.own_place n x (rw r at k));
}

-- Nothing but the runs and their index changes, or the fields below.
pub record Keeps (a b : App) : Type 0 where
  pub filter_same : b.filter ≡ a.filter
  pub overlay_same : b.overlay ≡ a.overlay

Keeps-IsSane : {a b : App} → Keeps a b → IsIndexed b → IsSane a → IsSane b
Keeps-IsSane k i h = record {
  indexed = i;
  no_matches = rw k.filter_same h.no_matches;
  asked = rw k.overlay_same h.asked;
}

Steady-IsSane : {a b : App} → Steady a b → IsSane a → IsSane b
Steady-IsSane {a} {b} k h = record {
  indexed = same-IsIndexed a b k.runs_same k.index_same h.indexed;
  no_matches = k.matches_same ∙ h.no_matches;
  asked = k.asked h.asked;
}

upsert-IsSane : (run : Run) (app : App) → IsSane app → IsSane (upsert_run run app)
unfolding upsert_run
upsert-IsSane run app h = Keeps-IsSane (ground arith) (upsert_run-IsIndexed run app h.indexed) h

upsert_runs-IsSane : (runs : List Run) (app : App) → IsSane app → IsSane (upsert_runs runs app)
unfolding upsert_runs
upsert_runs-IsSane [] app h = h
upsert_runs-IsSane (run ∷ runs) app h =
    upsert_runs-IsSane runs (upsert_run run app) (upsert-IsSane run app h)

-- A new list of runs begins with none, and with an empty index.
emptied-IsSane : (app : App) → IsSane app → IsSane (record app { runs = []; run_index = [] })
emptied-IsSane app h = record {
  indexed = record { agrees = λ id. refl; own_place = λ i r e. absurd (ground (arith, e)) };
  no_matches = h.no_matches;
  asked = h.asked;
}

status-IsSane :
    (run_id : ℕ) (calc_id : ℕ) (status : CalcStatus) (app : App)
    → IsSane app
    → IsSane (update_calc_status run_id calc_id status app)
unfolding update_calc_status
status-IsSane run_id calc_id status app h =
    Keeps-IsSane (ground arith) (update_calc_status-IsIndexed run_id calc_id status app h.indexed) h

clamp-Steady : (app : App) → Steady app (clamp_cursors app)
unfolding clamp_cursors
clamp-Steady app = ground arith

event-IsSane :
    (event : ServerEvent) (app : App) → IsSane app → IsSane (apply_server_event event app).0
unfolding apply_server_event
event-IsSane (ServerEvent.calc_status_changed run_id calc_id from to attempt at) app h =
    status-IsSane run_id calc_id to app h
event-IsSane (ServerEvent.run_submitted run_id jira at) app h = h
event-IsSane _ app h = h

-- A change of the other fields.
touch-IsSane :
    {a b : App}
    → b.runs ≡ a.runs
    → b.run_index ≡ a.run_index
    → b.filter ≡ a.filter
    → b.overlay ≡ a.overlay
    → IsSane a
    → IsSane b
touch-IsSane {a} {b} r i f o h = record {
  indexed = same-IsIndexed a b r i h.indexed;
  no_matches = rw f h.no_matches;
  asked = rw o h.asked;
}

module _ (id_text : ℕ → String) where
  pub update-IsSane : (msg : AppMsg) (app : App) → IsSane app → IsSane (update id_text msg app).0
  unfolding update
  update-IsSane (AppMsg.key k) app h = Steady-IsSane (handle_key-Steady id_text k app) h
  update-IsSane (AppMsg.server_event s) app h =
      event-IsSane s.event (record app { last_seen_seq = s.seq })
        (touch-IsSane refl refl refl refl h)
  update-IsSane (AppMsg.runs_loaded runs next_cursor) app h =
      touch-IsSane refl refl refl refl
        (upsert_runs-IsSane runs (record app { runs = []; run_index = [] }) (emptied-IsSane app h))
  update-IsSane (AppMsg.more_runs_loaded runs next_cursor) app h =
      touch-IsSane refl refl refl refl (upsert_runs-IsSane runs app h)
  update-IsSane (AppMsg.run_fetched run) app h =
      touch-IsSane refl refl refl refl
        (Steady-IsSane (clamp-Steady (upsert_run run app)) (upsert-IsSane run app h))
  update-IsSane _ app h = touch-IsSane refl refl refl refl h

  -- The client's state after messages, from its first one.
  unfoldable pub after : List AppMsg → App → App
  unfolding update
  after [] app = app
  after (msg ∷ msgs) app = after msgs (update id_text msg app).0

  after-IsSane : (msgs : List AppMsg) (app : App) → IsSane app → IsSane (after msgs app)
  unfolding after
  after-IsSane [] app h = h
  after-IsSane (msg ∷ msgs) app h =
      after-IsSane msgs (update id_text msg app).0 (update-IsSane msg app h)

pub new-IsSane : IsSane new
new-IsSane = record {
  indexed = record { agrees = λ id. refl; own_place = λ i r e. absurd (ground (arith, e)) };
  no_matches = refl;
  asked = tt;
}

module _ (id_text : ℕ → String) (msgs : List AppMsg) where
  pub reached-IsSane : IsSane (after id_text msgs new)
  reached-IsSane = after-IsSane id_text msgs new new-IsSane

  -- After any messages, the index and the list of runs agree: an id has in the index the place of the
  -- first run with that id in the list, or no entry when there is none; and no run stands behind
  -- another one with its id.
  pub after-IsIndexed : IsIndexed (after id_text msgs new)
  after-IsIndexed = reached-IsSane.indexed

  -- After any messages, the keys for the next and the previous match of a search leave the state as
  -- it is.
  pub after-advance_search :
      (forward : Bool) → advance_search forward (after id_text msgs new) ≡ after id_text msgs new
  unfolding advance_search
  after-advance_search forward = rw reached-IsSane.no_matches refl
