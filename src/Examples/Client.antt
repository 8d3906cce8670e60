-- ===== src/Examples/Client.antt =====
-- The terminal client (crates/runs/src/app) at concrete inputs: two runs are loaded, the first with a
-- failed calculation.
use ensurer_v.Prelude.{
  ℕ, ◌+◌, ◌-◌, ◌≤◌, ◌≡◌, refl, min, max, String, none, some, List, [], ◌∷◌, map, take, drop, All,
  nat_eq, if◌then◌else◌, arith,
}
use ensurer_v.Common.CalcStatus.{CalcStatus}
use ensurer_v.Common.RunStatus.{RunStatus}
use ensurer_v.Common.Model.{Run}
use ensurer_v.Runs.App.State.{App, new, upsert_run, visible_runs, visual_range}
use ensurer_v.Runs.App.State.Index.{IsIndexed, find_run, find_run-upsert_run}
use ensurer_v.Runs.App.Keybindings.{KeyCode, KeyModifiers, Action}
use ensurer_v.Runs.App.Message.{AppMsg}
use ensurer_v.Runs.App.Update.{update}
use ensurer_v.Runs.App.Update.Actions.{act}
use ensurer_v.Runs.App.Update.Selection.{on_cancel, cancel_effect}
use ensurer_v.Runs.App.Update.Reached.{after, after-IsIndexed}
use ensurer_v.Runs.App.Update.Ranges.{on_cancel-visual_range}
use ensurer_v.Runs.App.Update.View.{IsInView, act-IsInView}
use ensurer_v.Runs.App.Update.Retries.{IsJust}
use ensurer_v.Runs.App.Update.Asked.{update-All-IsJust}
use ensurer_v.Runs.App.Update.Credit.{page_requests}
use ensurer_v.Runs.App.Update.Requests.{effects_of, page_requests-effects_of}
use ensurer_v.Examples.Samples.{marks, calc_7}

abbrev run_of : ℕ → Run
run_of id = record {
  id = id;
  jira_issue_id = "JIRA";
  submitted_by = "anonymous";
  status = RunStatus.failed;
  created_at = 0;
  updated_at = 0;
  calculations = record calc_7 { status = CalcStatus.failed } ∷ [];
}

abbrev loaded : List AppMsg
loaded = AppMsg.runs_loaded (run_of 3 ∷ run_of 4 ∷ []) (some "1,2") ∷ []

abbrev key_of : String → AppMsg
key_of (String.◌∷◌ c s) =
    AppMsg.key (record { code = KeyCode.char c; modifiers = KeyModifiers.none })
key_of String.[] = AppMsg.tick

abbrev client : App
client = after marks loaded new

after-IsIndexed_example : IsIndexed (after marks loaded new)
after-IsIndexed_example = after-IsIndexed marks loaded

find_run-upsert_run_example :
    find_run 4 (upsert_run (run_of 4) client)
    ≡ (if nat_eq 4 4 then some (run_of 4) else find_run 4 client)
find_run-upsert_run_example = find_run-upsert_run 4 (run_of 4) client after-IsIndexed_example

-- The mode began at the second run, the cursor is at the first.
abbrev marked : App
marked = record client { visual_anchor = some 1 }

on_cancel-visual_range_example :
    let (app', effects) = on_cancel (visual_range marked) marked in
    (effects
      ≡ map cancel_effect (take (max 1 0 + 1 - min 1 0) (drop (min 1 0) (visible_runs marked))))
    × (app'.visual_anchor ≡ none)
unfolding visible_runs after
on_cancel-visual_range_example = on_cancel-visual_range marked 1 refl

act-IsInView_example : IsInView (act marks Action.move_down 5 client).0
unfolding after visible_runs
act-IsInView_example = act-IsInView marks Action.move_down 5 client refl (omega arith)

update-All-IsJust_example :
    All
      (IsJust (after marks loaded new).runs)
      (update marks (key_of "R") (after marks loaded new)).1
update-All-IsJust_example = update-All-IsJust marks loaded (key_of "R")

page_requests-effects_of_example :
    (page_requests (effects_of marks (key_of "j" ∷ key_of "j" ∷ []) client) ≤ 1)
    × (client.next_cursor ≡ none
        → page_requests (effects_of marks (key_of "j" ∷ key_of "j" ∷ []) client) ≡ 0)
page_requests-effects_of_example =
    page_requests-effects_of marks (key_of "j" ∷ key_of "j" ∷ []) client (refl, (refl, tt))
