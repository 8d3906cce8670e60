-- ===== src/Runs/App/State.antt =====
-- crates/runs/src/app/state.rs: the state of the terminal client.
pub mod Index
pub mod Filters
use ensurer_v.Prelude.{
  ℕ, ◌+◌, ◌-◌, ◌≡◌, String, append, ◌==◌, Bool, true, false, ◌&&◌, ◌||◌, Option, none, some, List,
  [], ◌∷◌, ◌++◌, any, select, length, get_elem?, set, contains, min, max, nat_eq, leb,
  if◌then◌else◌,
}
use ensurer_v.Common.CalcStatus.{CalcStatus}
use ensurer_v.Common.RunStatus
use ensurer_v.Common.Model.{RunId, CalcId, Run, Calculation}

pub data Pane : Type 0 where
  run_list calc_list detail : Pane

pub data Screen : Type 0 where
  run_list : Screen
  run_detail : RunId → Screen
  calc_detail : CalcId → Screen
  dashboard : Screen

pub data ConfirmAction : Type 0 where
  quit : ConfirmAction
  cancel_run : RunId → ConfirmAction
  cancel_calc : CalcId → ConfirmAction
  retry_calc : CalcId → ConfirmAction

pub record ConfirmDialog : Type 0 where
  pub message : String
  pub action : ConfirmAction

pub data Overlay : Type 0 where
  closed filter help : Overlay  -- `closed` is `Overlay::None`
  command : String → Overlay
  confirm : ConfirmDialog → Overlay

abbrev pub filter_statuses : List String
filter_statuses =
    "all" ∷ "pending" ∷ "running" ∷ "retrying" ∷ "succeeded" ∷ "failed" ∷ "cancelled" ∷ []

pub record FilterState : Type 0 where
  pub status : Option String
  pub search : Option String
  pub search_matches : List ℕ
  pub search_pos : ℕ
  pub filter_cursor : ℕ

-- `run_index` is a list of its entries, with each key once.
pub record App : Type 0 where
  pub runs : List Run
  pub run_index : List (RunId × ℕ)
  pub screen : Screen
  pub pane : Pane
  pub run_cursor : ℕ
  pub calc_cursor : ℕ
  pub overlay : Overlay
  pub filter : FilterState
  pub status_bar : String
  pub sse_connected : Bool
  pub last_seen_seq : ℕ
  pub detail_scroll : ℕ
  pub count_buf : String
  pub next_cursor : Option String
  pub loading : Bool
  pub tick : ℕ  -- u64
  pub visual_anchor : Option ℕ

abbrev pub no_filter : FilterState
no_filter = record {
  status = none;
  search = none;
  search_matches = [];
  search_pos = 0;
  filter_cursor = 0;
}

abbrev pub new : App
new = record {
  runs = [];
  run_index = [];
  screen = Screen.run_list;
  pane = Pane.run_list;
  run_cursor = 0;
  calc_cursor = 0;
  overlay = closed;
  filter = no_filter;
  status_bar = "Loading…";
  sse_connected = false;
  last_seen_seq = 0;
  detail_scroll = 0;
  count_buf = "";
  next_cursor = none;
  loading = true;
  tick = 0;
  visual_anchor = none;
}

abbrev status_fits : Option String → Run → Bool
status_fits none r = true
status_fits (some s) r = RunStatus.to_string r.status == s

abbrev search_fits : Option String → Run → Bool
search_fits none r = true
search_fits (some q) r =
    contains r.jira_issue_id q || any (λ (c : Calculation). contains c.kind q) r.calculations

-- The closure of `visible_runs`.
unfoldable pub is_visible : FilterState → Run → Bool
unfolding contains
is_visible f r = status_fits f.status r && search_fits f.search r

unfoldable pub visible_runs : App → List Run
unfolding is_visible
visible_runs app = select (is_visible app.filter) app.runs

unfoldable pub selected_run : App → Option Run
unfolding visible_runs
selected_run app = get_elem? (visible_runs app) app.run_cursor

abbrev pub calc_of : ℕ → Option Run → Option Calculation
calc_of cursor none = none
calc_of cursor (some run) = get_elem? run.calculations cursor

unfoldable pub selected_calc : App → Option Calculation
unfolding selected_run
selected_calc app = calc_of app.calc_cursor (selected_run app)

-- `run_index.get`
abbrev pub index_of : RunId → List (RunId × ℕ) → Option ℕ
index_of id [] = none
index_of id ((k, i) ∷ rest) = if nat_eq k id then some i else index_of id rest

-- An index out of bounds would panic; here it changes nothing.
abbrev put_run : Run → App → Option ℕ → App
put_run run app none = record app {
  run_index = app.run_index ++ (run.id, length app.runs) ∷ [];
  runs = app.runs ++ run ∷ [];
}
put_run run app (some idx) = record app { runs = set app.runs idx run }

unfoldable pub upsert_run : Run → App → App
upsert_run run app = put_run run app (index_of run.id app.run_index)

-- The first calculation with the id, as `find` on the mutable iterator.
unfoldable pub set_calc_status : CalcId → CalcStatus → List Calculation → List Calculation
set_calc_status id status [] = []
set_calc_status id status (c ∷ cs) =
    let rest = set_calc_status id status cs in
    if nat_eq c.id id then record c { status = status } ∷ cs else c ∷ rest

abbrev put_status : CalcId → CalcStatus → App → ℕ → Option Run → App
put_status calc_id status app ri none = app
put_status calc_id status app ri (some run) = record app {
  runs =
      set app.runs ri
        (record run { calculations = set_calc_status calc_id status run.calculations });
}

abbrev put_status_at : CalcId → CalcStatus → App → Option ℕ → App
put_status_at calc_id status app none = app
put_status_at calc_id status app (some ri) =
    put_status calc_id status app ri (get_elem? app.runs ri)

unfoldable pub update_calc_status : RunId → CalcId → CalcStatus → App → App
unfolding set_calc_status
update_calc_status run_id calc_id status app =
    put_status_at calc_id status app (index_of run_id app.run_index)

-- The two ends of the range, both in it.
abbrev pub range_from : Option ℕ → ℕ → Option (ℕ × ℕ)
range_from none cursor = none
range_from (some anchor) cursor = some (min anchor cursor, max anchor cursor)

unfoldable pub visual_range : App → Option (ℕ × ℕ)
visual_range app = range_from app.visual_anchor app.run_cursor

-- `if len == 0 { 0 } else if cursor >= len { len - 1 } else { cursor }`
abbrev pub clamp : ℕ → ℕ → ℕ
clamp len cursor = if nat_eq len 0 then 0 else if leb len cursor then len - 1 else cursor

abbrev clamp_calc : App → Option Run → App
clamp_calc app none = app
clamp_calc app (some run) = record app {
  calc_cursor = clamp (length run.calculations) app.calc_cursor;
}

unfoldable pub clamp_cursors : App → App
unfolding visible_runs selected_run
clamp_cursors app =
    let app' = record app { run_cursor = clamp (length (visible_runs app)) app.run_cursor } in
    clamp_calc app' (selected_run app')
