-- ===== src/Examples/Api.antt =====
-- The HTTP API of the daemon (crates/runsd/src/api) at concrete inputs: run 3 with its calculation 7.
use ensurer_v.Prelude.{arith, ◌≡◌, true, some, List, [], ◌∷◌}
use ensurer_v.Common.Json.{Json}
use ensurer_v.Common.Model.{Run}
use ensurer_v.Common.RunStatus.{RunStatus}
use ensurer_v.Runsd.Api.Cursor.{parse_cursor, cursor_of}
use ensurer_v.Runsd.Api.Cursor.RoundTrip.{parse_cursor-cursor_of}
use ensurer_v.Runsd.Actor.Calc.Sound.{IsGood}
use ensurer_v.Runsd.Actor.Supervisor.{new}
use ensurer_v.Runsd.Api.Routes.{ApiRequest, route_all}
use ensurer_v.Runsd.Api.Routes.Sound.{route_all-IsGood}
use ensurer_v.Examples.Samples.{
  plain, flaky, flaky-IsFair, submitted, submitted-IsGood, setup, start_world,
}

abbrev requests : List ApiRequest
requests =
    ApiRequest.submit_run (record {
      jira_issue_id = "JIRA-2";
      calculations = record { kind = "pricing"; input = Json.null } ∷ [];
    })
    ∷ ApiRequest.retry_calculation "iiiiiii"
    ∷ ApiRequest.cancel_run "iii"
    ∷ []

route_all-IsGood_example :
    IsGood flaky
      (route_all flaky setup (λ _. true) (λ _. some "") requests new (start_world submitted)).1
route_all-IsGood_example =
    route_all-IsGood flaky setup (λ _. true) (λ _. some "") flaky-IsFair requests new
      (start_world submitted) submitted-IsGood

abbrev listed_run : Run
listed_run = record {
  id = 3;
  jira_issue_id = "JIRA-1";
  submitted_by = "anonymous";
  status = RunStatus.pending;
  created_at = 1700000000123;
  updated_at = 1700000000123;
  calculations = [];
}

parse_cursor-cursor_of_example :
    parse_cursor (some (cursor_of plain listed_run)) ≡ (some 1700000000123, some "iii")
parse_cursor-cursor_of_example = parse_cursor-cursor_of plain listed_run (omega arith)
