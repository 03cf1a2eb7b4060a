-- ===== src/Gateway/Http.antt =====
-- What the HTTP handlers of internal/gateway share: the structured errors of errors.go, the
-- responses, and what a backend answers to a request.
use voxplatform.Prelude.{ℕ, ◌≡◌, ◌⊎◌, String, ◌+s◌}

-- A Go result of a value and an error text.
pub data Result (A : Type 0) : Type 0 where
  ok : A → Result A
  err : String → Result A

pub record ApiError : Type 0 where
  pub code : String
  pub message : String
  pub request_id : String

abbrev pub file_required : String
file_required = "file_required"

abbrev pub file_too_large : String
file_too_large = "file_too_large"

abbrev pub backend_error : String
backend_error = "backend_error"

abbrev pub internal_error : String
internal_error = "internal_error"

abbrev pub service_unavail : String
service_unavail = "service_unavailable"

-- The status and the body of a response: an error, or a JSON value.
pub data Response (A : Type 0) : Type 0 where
  failure : ℕ → ApiError → Response A
  json : ℕ → A → Response A

unfoldable pub write_error : {A : Type 0} → String → ℕ → String → String → Response A
write_error request_id status code message =
    failure status (record { code = code; message = message; request_id = request_id })

pub data Body : Type 0 where
  unreadable : String → Body
  content : String → Body

-- What becomes of a request to a backend: it cannot be built, it fails, or it is answered with a
-- status and a body.
pub data HttpReply : Type 0 where
  not_built : String → HttpReply
  not_sent : String → HttpReply
  answered : ℕ → Body → HttpReply

abbrev pub decode_body : {A : Type 0} → (String → Result A) → Body → Result A
decode_body decode (unreadable e) = err e
decode_body decode (content text) = decode text

-- `fmt.Errorf` with `%w` at the end.
abbrev pub wrap : {A : Type 0} → String → Result A → Result A
wrap prefix (ok a) = ok a
wrap prefix (err e) = err (prefix +s e)

-- The status codes of the structured errors.
abbrev pub IsErrorCode : ℕ → Type 0
IsErrorCode status = (status ≡ 400) ⊎ (status ≡ 500) ⊎ (status ≡ 502) ⊎ (status ≡ 503)

-- The response has status 200, or is a structured error with the id of the request.
abbrev pub IsTraced : {A : Type 0} → String → Response A → Type 0
IsTraced id (failure status e) = IsErrorCode status × (e.request_id ≡ id)
IsTraced id (json status a) = status ≡ 200
