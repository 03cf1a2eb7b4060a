-- ===== src/Gateway/Middleware/Chain.antt =====
-- What the middleware chain does for any handler.
use voxplatform.Prelude.{
  ℕ, ◌≡◌, refl, ap, ◌∙◌, String, Bool, true, false, some, List, [], ◌∷◌, ◌++◌, if◌then◌else◌,
}
use voxplatform.Gateway.Middleware.{
  Request, inc, dec, Served, routed, recovery_middleware, metrics_middleware, logging_middleware,
  request_id_middleware, status_code, is_probe, request_id_of, router, Writer, hijack,
  handler_writer,
}

-- The calls of WriteHeader: a panic adds an internal error.
-- The status that the client gets after these calls: net/http ignores all but the first.
abbrev pub sent_code : List ℕ → ℕ
sent_code [] = 200
sent_code (code ∷ codes) = code

-- The status of a response: the one that the handler wrote first, or, if it wrote none, 500 after
-- a panic and else 200.
abbrev pub answered_code : List ℕ × Bool → ℕ
answered_code ([], true) = 500
answered_code ([], false) = 200
answered_code (code ∷ codes, panicked) = code

abbrev pub codes_of : List ℕ × Bool → List ℕ
codes_of (codes, panicked) = if panicked then codes ++ 500 ∷ [] else codes

-- What a request is served as, by its id and what its handler does.
abbrev pub served : (ℕ → String) → Request → String → List ℕ × Bool → Served
served status_text req id o =
    let codes = codes_of o in
    record {
      codes = codes;
      panicked = false;
      recovered =
          if o.1
          then record {
            code = "internal_error";
            message = "internal server error";
            request_id = id;
          }
            ∷ []
          else [];
      in_flight = inc ∷ dec ∷ [];
      counted =
          record { method = req.method; path = req.path; status = status_text (status_code codes) }
          ∷ [];
      logged =
          if is_probe req.path
          then []
          else record {
            request_id = id;
            method = req.method;
            path = req.path;
            status = status_code codes;
          }
            ∷ [];
      request_id_header = some id;
    }

sent_code-codes_of : (o : List ℕ × Bool) → sent_code (codes_of o) ≡ answered_code o
sent_code-codes_of ([], true) = refl
sent_code-codes_of ([], false) = refl
sent_code-codes_of (code ∷ codes, true) = refl
sent_code-codes_of (code ∷ codes, false) = refl

chain-served :
    (status_text : ℕ → String) (req : Request) (id : String) (o : List ℕ × Bool) (b : Bool)
    → is_probe req.path ≡ b
    → record (logging_middleware
        (metrics_middleware status_text (recovery_middleware (routed (λ r i. o))))
        req
        id) { request_id_header = some id }
      ≡ served status_text req id o
unfolding logging_middleware metrics_middleware recovery_middleware
chain-served status_text req id (codes, true) true e = simp e refl
chain-served status_text req id (codes, true) false e = simp e refl
chain-served status_text req id (codes, false) true e = simp e refl
chain-served status_text req id (codes, false) false e = simp e refl

-- Whatever the handler of a request writes, and whether or not it panics: the panic does not leave
-- the chain, and after it the status 500 is given to WriteHeader and one structured error with the
-- code internal_error and the id of the request is written; the client gets the status that the
-- handler wrote first, or, if it wrote none, 500 after a panic and else 200; the gauge of the requests in flight goes up and down
-- once; the request is counted once, and logged once unless it is a health probe, with the status
-- that was given to WriteHeader last, or 200 if none was; and the handler, the log and the response have one
-- id, the client's if it sent one.
pub router-served :
    (status_text : ℕ → String) (routes : Request → String → List ℕ × Bool) (generated : String)
    (req : Request)
    → (router status_text routes generated req
        ≡ served status_text req
            (request_id_of generated req)
            (routes req (request_id_of generated req)))
      × (sent_code (router status_text routes generated req).codes
          ≡ answered_code (routes req (request_id_of generated req)))
unfolding router request_id_middleware logging_middleware metrics_middleware recovery_middleware
router-served status_text routes generated req =
    let o = routes req (request_id_of generated req) in
    let whole =
      chain-served status_text req (request_id_of generated req) o (is_probe req.path) refl in
    (whole, ap (λ (s : Served). sent_code s.codes) whole ∙ sent_code-codes_of o)

-- A connection can be taken over for a WebSocket behind the chain exactly if it can in front of it.
pub hijack-handler_writer : (w : Writer) → hijack (handler_writer w) ≡ hijack w
unfolding hijack handler_writer
hijack-handler_writer w = refl
