-- ===== src/Errors.antt =====
-- common/src/error.rs: the error type of the handlers and the problem document that it renders to.
pub mod Response
use polyglot_commerce.Prelude.{
  ℕ, ◌==◌, String, str_eq, ◌⧺◌, Option, none, some, List, if◌then◌else◌,
}

-- `sqlx::Error`: a database error carries its SQLSTATE code, if it has one; `other` stands for
-- the variants that `map_db_status` does not look at (I/O, pool timeout, decoding, ...).
pub data SqlxError : Type 0 where
  row_not_found : SqlxError
  db_error : Option String → SqlxError
  other : String → SqlxError

-- `AppError`. The payload of `validation` lists the fields that failed, that of `internal` is the
-- text of the `anyhow` error.
pub data AppError : Type 0 where
  bad_request : String → AppError
  unauthorized : AppError
  forbidden : AppError
  not_found : String → AppError
  conflict : String → AppError
  too_many_requests : AppError
  validation : List String → AppError
  upstream : String → AppError
  database : SqlxError → AppError
  internal : String → AppError

-- `AppError::map_db_status`, the match on the SQLSTATE code
unfoldable pub code_status : String → ℕ
code_status code =
    if str_eq code "23505"
    then 409
    else if str_eq code "23503"
    then 409
    else if str_eq code "23514"
    then 400
    else 500

-- `AppError::map_db_status`
unfoldable pub map_db_status : SqlxError → ℕ
unfolding code_status
map_db_status row_not_found = 404
map_db_status (db_error (some code)) = code_status code
map_db_status (db_error none) = 500
map_db_status (other _) = 500

-- `AppError::status`
unfoldable pub status : AppError → ℕ
unfolding map_db_status
status (bad_request _) = 400
status unauthorized = 401
status forbidden = 403
status (not_found _) = 404
status (conflict _) = 409
status too_many_requests = 429
status (validation _) = 400
status (upstream _) = 502
status (database e) = map_db_status e
status (internal _) = 500

-- `AppError::problem_type`
unfoldable pub problem_type : AppError → String
problem_type (bad_request _) = "https://errors.ecommerce.dev/bad-request"
problem_type unauthorized = "https://errors.ecommerce.dev/unauthorized"
problem_type forbidden = "https://errors.ecommerce.dev/forbidden"
problem_type (not_found _) = "https://errors.ecommerce.dev/not-found"
problem_type (conflict _) = "https://errors.ecommerce.dev/conflict"
problem_type too_many_requests = "https://errors.ecommerce.dev/rate-limit"
problem_type (validation _) = "https://errors.ecommerce.dev/validation"
problem_type (upstream _) = "https://errors.ecommerce.dev/upstream"
problem_type (database _) = "https://errors.ecommerce.dev/internal"
problem_type (internal _) = "https://errors.ecommerce.dev/internal"

-- `ProblemDetails`; `errors` is left out of the document where it is `none`. The JSON value of the
-- field errors stands here as the list of the fields.
pub record ProblemDetails : Type 0 where
  pub type_ : String
  pub title : String
  pub status : ℕ
  pub detail : String
  pub errors : Option (List String)

-- What the crates print: `sqlx` and `canonical_reason` of `http`.
pub record Wording : Type 0 where
  pub sqlx_text : SqlxError → String
  pub canonical_reason : ℕ → Option String

or_error : Option String → String
or_error none = "Error"
or_error (some s) = s

module _ (w : Wording) where
  -- the `Display` that `thiserror` derives from the `#[error(...)]` lines
  unfoldable pub display : AppError → String
  display (bad_request s) = s
  display unauthorized = "authentication required"
  display forbidden = "insufficient permissions"
  display (not_found s) = s ⧺ " not found"
  display (conflict s) = s
  display too_many_requests = "rate limit exceeded"
  display (validation _) = "request validation failed"
  display (upstream s) = "upstream service unavailable: " ⧺ s
  display (database e) = w.sqlx_text e
  display (internal s) = s

  -- `into_response`, the `detail`
  unfoldable pub detail : AppError → String
  unfolding display status
  detail (database e) =
      if status (database e) == 500 then "an internal error occurred" else display (database e)
  detail (internal _) = "an internal error occurred"
  detail e = display e

  abbrev field_errors : AppError → Option (List String)
  field_errors (validation fields) = some fields
  field_errors _ = none

  -- `IntoResponse for AppError`: the status, the content type and the body
  unfoldable pub into_response : AppError → ℕ × String × ProblemDetails
  unfolding detail problem_type or_error
  into_response e = (
    status e,
    "application/problem+json",
    record {
      type_ = problem_type e;
      title = or_error (w.canonical_reason (status e));
      status = status e;
      detail = detail e;
      errors = field_errors e;
    },
  )
