-- ===== src/Gateway/Middleware.antt =====
-- The middleware chain of internal/gateway/server.go, with middleware.go and request_id.go. A
-- handler is what it does for a request and its id: the status codes that it gives to WriteHeader,
-- oldest first, whether it panics, the errors with which a panic is answered, and what it adds to
-- the gauge, the counter, the log and the headers. A body that is written before any status counts
-- as the status 200.
pub mod Chain
pub mod Ids
mod Tests
use voxplatform.Gateway.Http.{ApiError, internal_error}
use voxplatform.Gateway.RequestId.{request_id_from_context}
use voxplatform.Prelude.{
  ℕ, String, Bool, true, false, ◌||◌, Option, none, some, List, [], ◌∷◌, ◌++◌, if◌then◌else◌, ◌=s◌,
}

-- `client_id` is the header X-Request-ID of the client, empty if there is none.
pub record Request : Type 0 where
  pub method : String
  pub path : String
  pub client_id : String

-- A change of the gauge of the requests in flight.
pub data Gauge : Type 0 where
  inc dec : Gauge

pub record LogLine : Type 0 where
  pub request_id : String
  pub method : String
  pub path : String
  pub status : ℕ

-- One increment of the counter of requests, with its labels.
pub record Counted : Type 0 where
  pub method : String
  pub path : String
  pub status : String

pub record Served : Type 0 where
  pub codes : List ℕ
  pub panicked : Bool
  pub recovered : List ApiError
  pub in_flight : List Gauge
  pub counted : List Counted
  pub logged : List LogLine
  pub request_id_header : Option String

abbrev pub Handler : Type 0
Handler = Request → String → Served

-- The routes: the codes that the handler of a request writes, and whether it panics.
abbrev pub routed : (Request → String → List ℕ × Bool) → Handler
routed routes req id = record {
  codes = (routes req id).0;
  panicked = (routes req id).1;
  recovered = [];
  in_flight = [];
  counted = [];
  logged = [];
  request_id_header = none;
}

-- A response writer: a connection, which is a Hijacker or not and whose own Hijack succeeds if it
-- is, or a responseWriter around another one, with the status that it holds.
pub data Writer : Type 0 where
  connection : Bool → Writer
  response_writer : Writer → ℕ → Writer

abbrev pub new_response_writer : Writer → Writer
new_response_writer w = response_writer w 200

-- Hijack, where `none` is success. A responseWriter is itself a Hijacker.
pub hijack : Writer → Option String
hijack (connection true) = none
hijack (connection false) = some "ResponseWriter does not implement http.Hijacker"
hijack (response_writer w status) = hijack w

-- The writer that the handlers get: logging and metrics each put one around it.
pub handler_writer : Writer → Writer
handler_writer w = new_response_writer (new_response_writer w)

-- The status that a responseWriter holds after these calls of WriteHeader.
abbrev last_code : ℕ → List ℕ → ℕ
last_code status [] = status
last_code status (code ∷ codes) = last_code code codes

abbrev pub status_code : List ℕ → ℕ
status_code codes = last_code 200 codes

-- A recovered panic is answered by writeError: the status 500 is given to WriteHeader, and the
-- structured error is written after it.
pub recovery_middleware : Handler → Handler
recovery_middleware next req id =
    let s = next req id in
    if s.panicked
    then record s {
      codes = s.codes ++ 500 ∷ [];
      panicked = false;
      recovered =
          s.recovered
          ++ record { code = internal_error; message = "internal server error"; request_id = id }
            ∷ [];
    }
    else s

-- The gauge goes down in a deferred call, which runs after a panic too.
pub metrics_middleware : (ℕ → String) → Handler → Handler
metrics_middleware status_text next req id =
    let s = next req id in
    let s' = record s { in_flight = inc ∷ s.in_flight ++ dec ∷ [] } in
    if s.panicked then s' else record s' {
      counted =
          s.counted
          ++ record {
            method = req.method;
            path = req.path;
            status = status_text (status_code s.codes);
          }
            ∷ [];
    }

abbrev pub is_probe : String → Bool
is_probe path = path =s "/healthz" || path =s "/readyz"

pub logging_middleware : Handler → Handler
logging_middleware next req id =
    let s = next req id in
    if s.panicked || is_probe req.path then s else record s {
      logged =
          s.logged
          ++ record {
            request_id = id;
            method = req.method;
            path = req.path;
            status = status_code s.codes;
          }
            ∷ [];
    }

abbrev pub request_id_of : String → Request → String
request_id_of generated req = if req.client_id =s "" then generated else req.client_id

-- `generated` is the answer of generateRequestID; the handlers find the id in their context.
pub request_id_middleware : String → Handler → Request → Served
request_id_middleware generated next req =
    let id = request_id_of generated req in
    record (next req (request_id_from_context (some id))) { request_id_header = some id }

-- Router
pub router : (ℕ → String) → (Request → String → List ℕ × Bool) → String → Request → Served
unfolding recovery_middleware metrics_middleware logging_middleware request_id_middleware
router status_text routes generated req =
    request_id_middleware generated
      (logging_middleware (metrics_middleware status_text (recovery_middleware (routed routes))))
      req
