-- ===== src/Runs/Network/Client.antt =====
-- crates/runs/src/network/unix_client.rs: the answers to the client's requests. What is sent over the
-- socket, hyper and serde_json are functions of a record.
use ensurer_v.Prelude.{ℕ, String, append, Bool, ◌&&◌, leb, ltb, Result, ok, err, if◌then◌else◌}
use ensurer_v.Common.Model.{Run, SubmitRunRequest, ListRunsResponse}

pub data ClientError : Type 0 where
  connect hyper http json : String → ClientError
  status : ℕ → ClientError

pub data Request : Type 0 where
  get : (path : String) → Request
  post_json : (path : String) (payload : SubmitRunRequest) → Request
  post_empty : (path : String) → Request

-- The n-th request is answered with a status and a body, or with an error.
pub record Wire : Type 0 where
  pub send : ℕ → Request → Result ClientError (ℕ × String)
  pub status_text : ℕ → String
  pub id_text : ℕ → String
  pub read_runs : String → Result String ListRunsResponse
  pub read_run : String → Result String Run
  pub read_submission : String → Result String SubmitRunRequest
  pub read_file : String → Result String String

-- `StatusCode::is_success`
abbrev pub is_success : ℕ → Bool
is_success s = leb 200 s && ltb s 300

-- The status alone, of `post_json` and `post_empty`.
abbrev pub status_of : Result ClientError (ℕ × String) → Result ClientError ℕ
status_of (err e) = err e
status_of (ok (s, body)) = ok s

module _ (wire : Wire) where
  -- `ClientError` as Display
  abbrev pub error_text : ClientError → String
  error_text (connect e) = append "connect: " e
  error_text (hyper e) = append "hyper: " e
  error_text (http e) = append "http: " e
  error_text (status s) = append "server returned " (wire.status_text s)
  error_text (json e) = append "json: " e

  abbrev read_body : {T : Type 0} → (String → Result String T) → String → Result ClientError T
  read_body read body = elim (read body) [ ok v ↦ ok v | err e ↦ err (json e) ]

  abbrev answered :
      {T : Type 0}
      → (String → Result String T)
      → Result ClientError (ℕ × String)
      → Result ClientError T
  answered read (err e) = err e
  answered read (ok (s, body)) = if is_success s then read_body read body else err (status s)

  unfoldable pub get_json :
      {T : Type 0} → (String → Result String T) → ℕ → String → Result ClientError T
  get_json read n path = answered read (wire.send n (get path))
