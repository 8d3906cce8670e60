-- ===== src/Runs/App/Update/Command.antt =====
-- The command line of crates/runs/src/app/update.rs.
use ensurer_v.Prelude.{
  String, append, ◌==◌, Bool, true, ◌||◌, Option, none, some, List, [], ◌∷◌, map, trim,
  strip_prefix, split_whitespace, if◌then◌else◌,
}
use ensurer_v.Common.Json
use ensurer_v.Common.Model.{NewCalc}
use ensurer_v.Runs.App.State.{App}
use ensurer_v.Runs.App.Message.{Effect, network, submit_run, import_directory, refresh_runs}

abbrev pub Updated : Type 0
Updated = App × List Effect

abbrev pub say : String → App → App
say text app = record app { status_bar = text }

abbrev usage : String
usage = "Usage: submit <jira_id> <kind1> [kind2...]"

abbrev none_if : Bool → String → Option String
none_if b s = if b then none else some s

abbrev pub new_calc : String → NewCalc
new_calc kind = record { kind = kind; input = Json.object Json.no_members }

abbrev pub submit : App → List String → Updated
submit app [] = (say usage app, [])
submit app (jira_id ∷ []) = (say usage app, [])
submit app (jira_id ∷ kind ∷ kinds) =
    (app, network (submit_run jira_id (map new_calc (kind ∷ kinds))) ∷ [])

abbrev filter_by : App → Option String → App
filter_by app none = app
filter_by app (some status) = record app {
  filter = record app.filter { status = none_if (status == "all" || status == "") status };
}

abbrev pub search_for : App → String → App
search_for app query = record app {
  filter = record app.filter { search = none_if (query == "") query; search_pos = 0 };
}

-- The commands that are told by their first word, in the order of the tests.
abbrev pub worded : String → App → Option String → Option String → Updated
worded cmd app (some raw_path) submitted = (app, network (import_directory (trim raw_path)) ∷ [])
worded cmd app none (some rest) = submit app (split_whitespace rest)
worded cmd app none none = (say (append "Unknown command: " cmd) app, [])

abbrev pub exact : String → App → Updated
exact cmd app =
    if cmd == "quit" || cmd == "q"
    then (app, Effect.quit ∷ [])
    else if cmd == "reload" || cmd == "refresh"
    then (record app { loading = true; status_bar = "Refreshing…" }, network refresh_runs ∷ [])
    else worded cmd app (strip_prefix cmd "import ") (strip_prefix cmd "submit ")

abbrev pub prefixed : String → App → Option String → Option String → Updated
prefixed cmd app (some query) filtered = (search_for app query, [])
prefixed cmd app none (some rest) = (filter_by app (strip_prefix rest "status="), [])
prefixed cmd app none none = exact cmd app

-- After the text is trimmed.
unfoldable pub execute_trimmed : String → App → Updated
unfolding trim strip_prefix split_whitespace
execute_trimmed cmd app = prefixed cmd app (strip_prefix cmd "/") (strip_prefix cmd "filter ")

unfoldable pub execute_command : String → App → Updated
unfolding trim execute_trimmed
execute_command cmd app = execute_trimmed (trim cmd) app
