-- ===== src/Runsd/Actor/ExternalApi.antt =====
-- `ReqwestCalcClient` of crates/runsd/src/actor/calc.rs: a submission launches a task of the
-- external API and asks for its status until it has ended.
pub mod Settles
pub mod Explains
use ensurer_v.Prelude.{
  ℕ, zero, suc, ◌≤◌, String, append, Bool, true, false, ◌&&◌, ◌||◌, Option, none, some, List, [],
  ◌∷◌, Result, ok, err, ◌==◌, nat_eq, leb, ltb, join_path, if◌then◌else◌,
}
use ensurer_v.Common.Json.{Json, object, string, Members, no_members, member}
use ensurer_v.Common.Model.{CalcId}
use ensurer_v.Runsd.Config.{ExternalApiConfig}
use ensurer_v.Runsd.Actor.World.{ApiOutcome, succeeded, transient_error, permanent_error}

-- A response: its status, and what `json()` makes of its body.
pub record Response : Type 0 where
  pub status : ℕ
  pub body : Result String Json

-- What `send()` gives: the text of the error, or a response.
abbrev pub Answer : Type 0
Answer = Result String Response

pub data ApiCall : Type 0 where
  post : (url : String) (timeout_s : ℕ) (body : Json) (key : Option String) → ApiCall
  get : (url task_id : String) (timeout_s : ℕ) → ApiCall

-- What `tokio::fs::write` does: it creates or truncates the file and then writes. When it fails,
-- the file is as it was, or holds the bytes that were written until then.
pub data Written : Type 0 where
  complete unopened : Written
  broken_off : (bytes : String) → Written

-- What the file takes from other crates and from std.
pub record Io : Type 0 where
  -- `StatusCode` as Display
  pub status_text : ℕ → String
  pub to_lowercase : String → String
  -- `serde_json::to_vec`
  pub json_bytes : Json → String
  pub id_text : CalcId → String
  -- `tokio::fs::write` of these bytes to the path, after `create_dir_all` of its directory, whose
  -- result is ignored
  pub writes : String → String → Written

-- What is left of a submission: how it ends, once it has, the requests that it sent, the
-- directories that it asked for, and the files that it opened with the bytes that they hold, all
-- oldest first.
pub record Submitted : Type 0 where
  pub outcome : Option ApiOutcome
  pub requests : List ApiCall
  pub directories : List String
  pub written : List (String × String)

abbrev pub lookup : String → Members → Option Json
lookup key no_members = none
lookup key (member k v rest) = if k == key then some v else lookup key rest

-- `Value::get`
abbrev pub get_member : String → Json → Option Json
get_member key (object members) = lookup key members
get_member key other = none

-- `Map::insert`; the order of the members has no meaning.
unfoldable pub insert_member : String → Json → Members → Members
insert_member key v no_members = member key v no_members
insert_member key v (member k u rest) =
    let rest' = insert_member key v rest in if k == key then member k v rest else member k u rest'

abbrev pub or_else : Option Json → Option Json → Option Json
or_else none other = other
or_else (some v) other = some v

-- `and_then(|v| v.as_str())` and `unwrap_or`.
abbrev pub as_str_or : String → Option Json → String
as_str_or default (some (string s)) = s
as_str_or default other = default

-- The body of the launch.
unfoldable pub launch_body : String → Json → Json
unfolding insert_member
launch_body kind (object members) = object (insert_member "kind" (string kind) members)
launch_body kind other = other

-- `StatusCode::is_server_error` and `is_success`
abbrev pub is_transient : ℕ → Bool
is_transient status = nat_eq status 429 || nat_eq status 408 || leb 500 status && ltb status 600

abbrev pub is_success : ℕ → Bool
is_success status = leb 200 status && ltb status 300

abbrev pub json_of : String → Result String Json → Result ApiOutcome Json
json_of what (ok v) = ok v
json_of what (err e) = err (transient_error (append what (append " response parse error: " e)))

-- The task that the answer to the launch names.
unfoldable pub task_id_of : Json → String
task_id_of body = as_str_or "" (
    or_else (or_else (get_member "taskId" body) (get_member "task_id" body)) (get_member "id" body))

-- What the status of a task says: it has ended well, has failed, or goes on.
pub data Progress : Type 0 where
  finished : Progress
  failed : (message : String) → Progress
  unfinished : Progress

unfoldable pub failure_of : Json → String
failure_of body =
    as_str_or "task failed" (or_else (get_member "error" body) (get_member "message" body))

unfoldable pub progress_of : String → Json → Progress
unfolding failure_of
progress_of status body =
    if status == "completed" || status == "succeeded" || status == "success"
    then finished
    else if status == "failed" || status == "error"
    then failed (failure_of body)
    else unfinished

module _ (cfg : ExternalApiConfig) (io : Io) where
  -- The checks of an answer, which the launch (`what` is "launch") and the polls (`what` is
  -- "status") share: the body, or the outcome of the submission.
  unfoldable pub judged : String → Answer → Result ApiOutcome Json
  judged what (err e) = err (transient_error e)
  judged what (ok response) =
      if is_transient response.status
      then err (transient_error (append what (append " HTTP " (io.status_text response.status))))
      else if is_success response.status
      then json_of what response.body
      else err (permanent_error (append what (append " HTTP " (io.status_text response.status))))

  abbrev pub key_header : String → Option String
  key_header key = if cfg.supports_idempotency then some key else none

  unfoldable pub launch_request : String → Json → String → ApiCall
  unfolding launch_body
  launch_request kind input_json key =
      post (append cfg.base_url cfg.launch_path) cfg.request_timeout_s (launch_body kind input_json)
        (key_header key)

  unfoldable pub status_request : String → ApiCall
  status_request task_id = get (append cfg.base_url cfg.status_path) task_id cfg.request_timeout_s

  unfoldable pub result_dir_of : String → CalcId → String
  unfolding join_path
  result_dir_of data_dir calc_id = join_path (join_path data_dir "results") (io.id_text calc_id)

  unfoldable pub result_path_of : String → CalcId → String
  unfolding result_dir_of join_path
  result_path_of data_dir calc_id = join_path (result_dir_of data_dir calc_id) "result.json"

  abbrev not_written : String → List (String × String) → Submitted
  not_written dir written = record {
    outcome = some (transient_error "failed to write result to disk");
    requests = [];
    directories = dir ∷ [];
    written = written;
  }

  abbrev pub wrote : (dir path bytes : String) → Written → Submitted
  wrote dir path bytes complete = record {
    outcome = some (succeeded path);
    requests = [];
    directories = dir ∷ [];
    written = (path, bytes) ∷ [];
  }
  wrote dir path bytes unopened = not_written dir []
  wrote dir path bytes (broken_off part) = not_written dir ((path, part) ∷ [])

  -- The arm of a task that has ended well.
  unfoldable pub write_result : String → CalcId → Json → Submitted
  unfolding result_path_of result_dir_of
  write_result data_dir calc_id body =
      let path = result_path_of data_dir calc_id in
      let bytes = io.json_bytes body in
      wrote (result_dir_of data_dir calc_id) path bytes (io.writes path bytes)

  abbrev pub ended : ApiOutcome → Submitted
  ended outcome = record { outcome = some outcome; requests = []; directories = []; written = [] }

  abbrev pub asked : ApiCall → Submitted → Submitted
  asked request s = record s { requests = request ∷ s.requests }

  -- The lowercased status of a task.
  unfoldable pub task_status : Json → String
  task_status body = io.to_lowercase (as_str_or "" (get_member "status" body))

  -- What follows a poll; `later` is the rest of the loop.
  unfoldable pub proceed : String → CalcId → Submitted → Json → Progress → Submitted
  unfolding write_result
  proceed data_dir calc_id later body finished = write_result data_dir calc_id body
  proceed data_dir calc_id later body (failed message) = ended (permanent_error message)
  proceed data_dir calc_id later body unfinished = later

  unfoldable pub on_poll : String → CalcId → Submitted → Result ApiOutcome Json → Submitted
  unfolding proceed progress_of task_status
  on_poll data_dir calc_id later (err outcome) = ended outcome
  on_poll data_dir calc_id later (ok body) =
      proceed data_dir calc_id later body (progress_of (task_status body) body)

  -- The loop, over the answers that the polls ever get.
  unfoldable pub poll : String → CalcId → String → List Answer → Submitted
  unfolding on_poll judged status_request
  poll data_dir calc_id task_id [] = record {
    outcome = none;
    requests = [];
    directories = [];
    written = [];
  }
  poll data_dir calc_id task_id (answer ∷ answers) =
      let later = poll data_dir calc_id task_id answers in
      asked (status_request task_id) (on_poll data_dir calc_id later (judged "status" answer))

  unfoldable pub launched : String → CalcId → List Answer → Result ApiOutcome Json → Submitted
  unfolding poll task_id_of
  launched data_dir calc_id polls (err outcome) = ended outcome
  launched data_dir calc_id polls (ok body) = poll data_dir calc_id (task_id_of body) polls

  -- `submit`, with the answer to the launch and those to the polls.
  unfoldable pub submit :
      String → Json → String → String → CalcId → Answer → List Answer → Submitted
  unfolding launch_request launched judged
  submit kind input_json idempotency_key data_dir calc_id launch polls =
      asked (launch_request kind input_json idempotency_key)
        (launched data_dir calc_id polls (judged "launch" launch))
