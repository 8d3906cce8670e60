-- ===== src/Runs/Network/Commands.antt =====
-- The commands of the network task (crates/runs/src/network.rs): each one's request, and the message
-- that its answer becomes.
pub mod Imports
use ensurer_v.Prelude.{
  ℕ, zero, suc, ◌+◌, String, append, ◌==◌, Bool, true, false, Option, none, some, List, [], ◌∷◌,
  ◌++◌, length, enumerate_from, show_nat, nat_eq, Result, ok, err, map_err, ◌>>=◌, if◌then◌else◌,
}
use ensurer_v.Common.Model.{Run, SubmitRunRequest, ListRunsResponse}
use ensurer_v.Runs.App.Message.{AppMsg, NetworkCmd}
use ensurer_v.Runs.Network.Client.{
  Wire, ClientError, Request, is_success, error_text, get_json, status_of,
}

-- A file with its extension, or a directory; one that cannot be read is empty.
mutual
  pub data Entry : Type 0 where
    file : (path : String) (extension : Option String) → Entry
    directory : Entries → Entry

  pub data Entries : Type 0 where
    nothing : Entries
    entry : Entry → Entries → Entries

abbrev is_json : Option String → Bool
is_json none = false
is_json (some e) = e == "json"

unfoldable mutual
  collect_entry : Entry → List String
  collect_entry (file path extension) = if is_json extension then path ∷ [] else []
  collect_entry (directory entries) = collect_json_files entries

  pub collect_json_files : Entries → List String
  collect_json_files nothing = []
  collect_json_files (entry e rest) = collect_entry e ++ collect_json_files rest

module _ (wire : Wire) where
  -- `map_err(|e| e.to_string())?`
  abbrev sent : ℕ → Request → Result String ℕ
  sent n request = map_err (error_text wire) (status_of (wire.send n request))

  abbrev submit_answer : ℕ → Result String String
  submit_answer status =
      if is_success status
      then ok "Run submitted"
      else err (append "Submit failed: HTTP " (wire.status_text status))

  -- The commands that the loop leaves to it, with the n-th request; none where the code would panic.
  unfoldable pub handle_cmd : ℕ → NetworkCmd → Option (Result String String)
  handle_cmd n (NetworkCmd.submit_run jira_issue_id calcs) =
      let body : SubmitRunRequest = record {
        jira_issue_id = jira_issue_id;
        calculations = calcs;
      } in
      some (sent n (Request.post_json "/runs" body) >>= submit_answer)
  handle_cmd n (NetworkCmd.cancel_run run_id) =
      let path = append "/runs/" (append (wire.id_text run_id) "/cancel") in
      some (sent n (Request.post_empty path) >>= λ _. ok "Run cancelled")
  handle_cmd n (NetworkCmd.cancel_calc run_id calc_id) =
      let path = append "/calculations/" (append (wire.id_text calc_id) "/cancel") in
      some (sent n (Request.post_empty path) >>= λ _. ok "Calculation cancelled")
  handle_cmd n (NetworkCmd.retry_calc run_id calc_id) =
      let path = append "/calculations/" (append (wire.id_text calc_id) "/retry") in
      some (sent n (Request.post_empty path) >>= λ _. ok "Retry scheduled")
  handle_cmd n _ = none

  -- The pages of runs.
  abbrev loaded :
      (List Run → Option String → AppMsg) → String → Result ClientError ListRunsResponse → AppMsg
  loaded message failure (ok body) = message body.runs body.next_cursor
  loaded message failure (err e) = AppMsg.cmd_err (append failure (error_text wire e))

  abbrev page_path : ℕ → String
  page_path page_size = append "/runs?limit=" (show_nat page_size)

  -- The messages about one answer.
  abbrev fetched : Result ClientError Run → List AppMsg
  fetched (ok run) = AppMsg.run_fetched run ∷ []
  fetched (err e) = []

  abbrev told : Option (Result String String) → List AppMsg
  told none = []
  told (some (ok text)) = AppMsg.cmd_ok text ∷ []
  told (some (err text)) = AppMsg.cmd_err text ∷ []

  abbrev submission_answer : ℕ → Result String (Unit {0})
  submission_answer status =
      if is_success status then ok tt else err (append "HTTP " (wire.status_text status))

  unfoldable pub import_file : ℕ → String → Result String (Unit {0})
  import_file n path = do
    raw ← wire.read_file path
    req ← map_err (λ e. append path (append ": " e)) (wire.read_submission raw)
    status ← sent n (Request.post_json "/runs" req)
    submission_answer status

  abbrev pub end_of_import : (submitted errors total : ℕ) → AppMsg
  end_of_import submitted errors total =
      if nat_eq errors 0
      then AppMsg.cmd_ok (
          append "Imported "
            (append (show_nat submitted) (append "/" (append (show_nat total) " runs"))))
      else AppMsg.cmd_err (
          append "Import done: " (
            append (show_nat submitted)
              (append " ok, " (append (show_nat errors) " failed (check logs)"))))

  -- `for path in &files`, from the n-th request.
  unfoldable pub import_files : (n submitted errors total : ℕ) → List String → List AppMsg
  unfolding import_file
  import_files n submitted errors total [] = end_of_import submitted errors total ∷ []
  import_files n submitted errors total (path ∷ files) = elim (import_file n path) [
    | ok _ ↦
        AppMsg.import_progress (suc submitted + errors) total errors
        ∷ import_files (suc n) (suc submitted) errors total files
    | err e ↦
        AppMsg.import_progress (submitted + suc errors) total (suc errors)
        ∷ import_files (suc n) submitted (suc errors) total files
  ]

  unfoldable pub import_directory : ℕ → (path : String) → Entries → List AppMsg
  unfolding collect_json_files import_files
  import_directory n path dir =
      let files = collect_json_files dir in
      if nat_eq (length files) 0
      then AppMsg.cmd_err (append "no JSON files found in " path) ∷ []
      else AppMsg.import_progress 0 (length files) 0 ∷ import_files n 0 0 (length files) files

  module _ (page_size : ℕ) (read_dir : String → Entries) where
    abbrev first_page : ℕ → String → AppMsg
    first_page n failure =
        loaded AppMsg.runs_loaded failure (get_json wire wire.read_runs n (page_path page_size))

    -- The fetch at the start.
    abbrev pub initial_fetch : ℕ → AppMsg
    initial_fetch n = first_page n "initial fetch failed: "

    -- One turn of the loop over the commands: what is sent to the update.
    unfoldable pub on_cmd : ℕ → NetworkCmd → List AppMsg
    unfolding get_json handle_cmd import_directory
    on_cmd n (NetworkCmd.load_more_runs cursor) =
        loaded AppMsg.more_runs_loaded "load more failed: "
          (get_json wire wire.read_runs n (append "/runs?limit=100&cursor=" cursor))
        ∷ []
    on_cmd n NetworkCmd.refresh_runs = first_page n "refresh failed: " ∷ []
    on_cmd n (NetworkCmd.fetch_run run_id) =
        fetched (get_json wire wire.read_run n (append "/runs/" (wire.id_text run_id)))
    on_cmd n (NetworkCmd.import_directory path) = import_directory n path (read_dir path)
    on_cmd n cmd = told (handle_cmd n cmd)
