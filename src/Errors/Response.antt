-- ===== src/Errors/Response.antt =====
-- What a client reads of an error.
use polyglot_commerce.Prelude.{◌≡◌, none, arith}
use polyglot_commerce.Errors.{AppError, Wording, status, detail, into_response}

-- Where the status is 500, the detail is one fixed sentence and no field is listed, so that no text
-- of the cause reaches the client.
pub into_response_internal :
    (w : Wording) (e : AppError)
    → (into_response w e).0 ≡ 500
    → ((into_response w e).2.detail ≡ "an internal error occurred")
      × ((into_response w e).2.errors ≡ none)
unfolding into_response status detail
into_response_internal w e h = ground arith
