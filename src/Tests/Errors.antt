-- ===== src/Tests/Errors.antt =====
-- The problem document of a database error.
use polyglot_commerce.Prelude.{◌≡◌, refl, none, some}
use polyglot_commerce.Errors.{
  Wording, into_response, database, db_error, code_status, map_db_status, status,
}
use polyglot_commerce.Errors.Response.{into_response_internal}

abbrev plain : Wording
plain = record { sqlx_text = λ x. "relation users"; canonical_reason = λ n. some "reason" }

out_of_range : (into_response plain (database (db_error (some "22003")))).0 ≡ 500
unfolding into_response status map_db_status code_status
out_of_range = refl

into_response_internal_example :
    ((into_response plain (database (db_error (some "22003")))).2.detail
      ≡ "an internal error occurred")
    × ((into_response plain (database (db_error (some "22003")))).2.errors ≡ none)
into_response_internal_example =
    into_response_internal plain (database (db_error (some "22003"))) out_of_range
