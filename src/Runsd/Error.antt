-- ===== src/Runsd/Error.antt =====
-- `AppError` of crates/runsd/src/error.rs and `RowConversionError` of crates/runsd/src/db/row.rs.
-- The errors of other crates that they carry are held by their texts.
use ensurer_v.Prelude.{ℕ, String, append, show_nat}

pub data RowConversionError : Type 0 where
  invalid_uuid : (column source : String) → RowConversionError
  unknown_variant : (column value : String) → RowConversionError
  invalid_json : (column source : String) → RowConversionError
  invalid_timestamp : (column : String) (millis : ℕ) → RowConversionError

pub data AppError : Type 0 where
  db : String → AppError
  serde : String → AppError
  reqwest : String → AppError
  row_conversion : RowConversionError → AppError
  not_found : AppError
  conflict : String → AppError
  bad_request : String → AppError
  service_unavailable : String → AppError
  internal : String → AppError
  cancelled : AppError

-- `RowConversionError` as Display
unfoldable pub row_error_text : RowConversionError → String
unfolding show_nat
row_error_text (invalid_uuid column source) =
    append "invalid UUID in column '" (append column (append "': " source))
row_error_text (unknown_variant column value) =
    append "unknown value '" (append value (append "' in column '" (append column "'")))
row_error_text (invalid_json column source) =
    append "invalid JSON in column '" (append column (append "': " source))
row_error_text (invalid_timestamp column millis) =
    append "timestamp out of range in column '"
      (append column (append "': " (append (show_nat millis) "ms")))

-- `AppError` as Display
unfoldable pub error_text : AppError → String
unfolding row_error_text
error_text (db e) = append "database error: " e
error_text (serde e) = append "serialization error: " e
error_text (reqwest e) = append "HTTP client error: " e
error_text (row_conversion e) = append "row conversion: " (row_error_text e)
error_text not_found = "not found"
error_text (conflict message) = append "conflict: " message
error_text (bad_request message) = append "bad request: " message
error_text (service_unavailable message) = append "service unavailable: " message
error_text (internal message) = append "internal error: " message
error_text cancelled = "cancelled"
