-- ===== src/Runsd/Api/Error.antt =====
-- crates/runsd/src/api/error.rs: the status and the body of an error.
use ensurer_v.Prelude.{ℕ, String, Option, none, some}
use ensurer_v.Common.Model.{ProblemDetail}
use ensurer_v.Runsd.Error.{AppError}

abbrev problem : ℕ → String → String → Option String → ProblemDetail
problem status type_uri title detail = record {
  type_uri = type_uri;
  title = title;
  status = status;
  detail = detail;
}

-- The response has the status of the body, and the content type application/problem+json.
unfoldable pub into_response : AppError → ProblemDetail
into_response AppError.not_found = problem 404 "urn:runsd:error:not-found" "Not Found" none
into_response (AppError.conflict msg) = problem 409 "urn:runsd:error:conflict" "Conflict" (some msg)
into_response (AppError.bad_request msg) =
    problem 400 "urn:runsd:error:bad-request" "Bad Request" (some msg)
into_response (AppError.service_unavailable msg) =
    problem 503 "urn:runsd:error:service-unavailable" "Service Unavailable" (some msg)
into_response AppError.cancelled = problem 200 "urn:runsd:error:cancelled" "Cancelled" none
into_response _ = problem 500 "urn:runsd:error:internal" "Internal Server Error" none
