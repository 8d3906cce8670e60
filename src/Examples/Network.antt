-- ===== src/Examples/Network.antt =====
-- The network task of the terminal client (crates/runs/src/network.rs) at concrete inputs: every text
-- is read as event 7, and each second submission is refused.
use ensurer_v.Prelude.{
  ℕ, suc, ◌%◌, ◌≤◌, ◌≡◌, refl, String, Option, none, some, List, [], ◌∷◌, ◌++◌, map, length, take,
  get_elem?, ok, err, nat_eq, if◌then◌else◌, arith, true, false,
}
use mathlib.Core.List.{flatten}
use ensurer_v.Common.Event.{SequencedEvent, ServerEvent}
use ensurer_v.Runs.App.State.{new}
use ensurer_v.Runs.App.Message.{AppMsg}
use ensurer_v.Runs.App.Update.Reached.{after}
use ensurer_v.Runs.Network.Sse.{Frame, parse_event}
use ensurer_v.Runs.Network.Events.{Heard, follow, bytes_of}
use ensurer_v.Runs.Network.Events.Chunks.{stream, follow_any_chunks}
use ensurer_v.Runs.Network.Events.Ends.{follow-ends}
use ensurer_v.Runs.Network.Reconnect.{Attempt, start, path_since, attempt, attempts}
use ensurer_v.Runs.Network.Reconnect.Resumes.{attempt_resumes}
use ensurer_v.Runs.Network.Client.{Wire, ClientError}
use ensurer_v.Runs.Network.Commands.{
  Entries, Entry, collect_json_files, import_directory, end_of_import,
}
use ensurer_v.Runs.Network.Commands.Imports.{tally, outcomes, import_directory-reports}
use ensurer_v.Examples.Samples.{marks}

abbrev event_7 : SequencedEvent
event_7 = record { seq = 7; event = ServerEvent.run_submitted 3 "JIRA" 0 }

abbrev read_event : String → Option SequencedEvent
read_event text = some event_7

abbrev silent : Heard
silent = record { last_seq = 0; sent = [] }

-- `data:x` and a blank line, in two ways; then the connection breaks.
abbrev whole : List (List ℕ)
whole = (100 ∷ 97 ∷ 116 ∷ 97 ∷ 58 ∷ 120 ∷ 10 ∷ 10 ∷ []) ∷ []

abbrev pieces : List (List ℕ)
pieces = (100 ∷ 97 ∷ []) ∷ (116 ∷ 97 ∷ 58 ∷ 120 ∷ 10 ∷ []) ∷ (10 ∷ []) ∷ []

abbrev broken : List Frame
broken = Frame.failed "reset" ∷ []

parse_event_lem :
    parse_event (100 ∷ 97 ∷ 116 ∷ 97 ∷ 58 ∷ 32 ∷ 120 ∷ 10 ∷ 10 ∷ [])
    ≡ record { id = none; data_field = some "x" }
unfolding parse_event
parse_event_lem = refl

follow_any_chunks_example :
    follow read_event 20 silent (stream (map Frame.data_frame whole ++ broken) [])
    ≡ follow read_event 20 silent (stream (map Frame.data_frame pieces ++ broken) [])
unfolding flatten
follow_any_chunks_example = follow_any_chunks read_event 20 silent whole pieces broken refl

follow-ends_example :
    (h : Heard) × (follow read_event 20 silent (stream (map Frame.data_frame pieces ++ broken) [])
      ≡ some h)
unfolding bytes_of
follow-ends_example =
    follow-ends read_event 20 silent (stream (map Frame.data_frame pieces ++ broken) [])
      (omega arith)

abbrev tries : List Attempt
tries = Attempt.refused "no socket" ∷ Attempt.opened (map Frame.data_frame pieces ++ broken) ∷ []

attempt_resumes_example :
    let l = attempts read_event tries start in
    let app = after marks l.heard.sent new in
    (attempt read_event (Attempt.refused "no socket") l).paths
    ≡ l.paths ++ path_since app.last_seen_seq ∷ []
attempt_resumes_example = attempt_resumes marks read_event tries (Attempt.refused "no socket")

abbrev wire : Wire
wire = record {
  send = λ n _. if nat_eq (n % 2) 0 then ok (201, "") else err (ClientError.connect "refused");
  status_text = λ _. "201 Created";
  id_text = marks;
  read_runs = λ _. err "eof";
  read_run = λ _. err "eof";
  read_submission = λ _. ok (record { jira_issue_id = "JIRA"; calculations = [] });
  read_file = λ _. ok "{}";
}

abbrev folder : Entries
folder = Entries.entry (Entry.file "a.json" (some "json")) (
    Entries.entry (Entry.file "notes.txt" (some "txt")) (
      Entries.entry
        (Entry.directory (Entries.entry (Entry.file "b.json" (some "json")) Entries.nothing))
        Entries.nothing))

import_directory-reports_example :
    let files = collect_json_files folder in
    let results = outcomes wire 5 files in
    let msgs = import_directory wire 5 "folder" folder in
    ((k : ℕ)
      → k ≤ length files
      → get_elem? msgs k
        ≡ some (AppMsg.import_progress k (length files) (tally false (take k results))))
    × (get_elem? msgs (suc (length files))
        ≡ some (end_of_import wire (tally true results) (tally false results) (length files)))
unfolding collect_json_files
import_directory-reports_example = import_directory-reports wire 5 "folder" folder (omega arith)
