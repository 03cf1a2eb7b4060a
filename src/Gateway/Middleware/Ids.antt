-- ===== src/Gateway/Middleware/Ids.antt =====
-- The ids of two requests that came without one, through internal/gateway/server.go, middleware.go
-- and request_id.go.
use voxplatform.Prelude.{ℕ, ◌≡◌, ◌↔◌, refl, ap, sym, ◌∙◌, String, Bool, some, List, All}
use voxplatform.Gateway.RequestId.{generate_request_id}
use voxplatform.Gateway.RequestId.Hex.{IsByte, decode_hex, decode-generate_request_id}
use voxplatform.Gateway.Middleware.{Request, router, request_id_of}

drawn : (id : String) (r : Request) → r.client_id ≡ "" → request_id_of id r ≡ id
drawn id r e = simp e refl

generate-injective :
    (a b : List ℕ)
    → All IsByte a
    → All IsByte b
    → generate_request_id a ≡ generate_request_id b
    → a ≡ b
generate-injective a b bytes_a bytes_b e =
    sym (decode-generate_request_id a bytes_a).0
    ∙ ap decode_hex e
    ∙ (decode-generate_request_id b bytes_b).0

-- Two requests without an id are answered with the same X-Request-ID exactly when the same random
-- bytes were drawn for them, whatever their handlers do.
pub same_id_iff :
    (status_text : ℕ → String) (routes : Request → String → List ℕ × Bool) (a b : List ℕ)
    (r s : Request)
    → All IsByte a
    → All IsByte b
    → r.client_id ≡ ""
    → s.client_id ≡ ""
    → ((router status_text routes (generate_request_id a) r).request_id_header
        ≡ (router status_text routes (generate_request_id b) s).request_id_header)
      ↔ (a ≡ b)
unfolding router
same_id_iff status_text routes a b r s bytes_a bytes_b none_r none_s = (
  λ e.
      let same : request_id_of (generate_request_id a) r ≡ request_id_of (generate_request_id b) s =
        cc e in
      generate-injective a b bytes_a bytes_b (
        sym (drawn (generate_request_id a) r none_r)
        ∙ same
        ∙ drawn (generate_request_id b) s none_s),
  λ e. ap some (
      drawn (generate_request_id a) r none_r
      ∙ ap generate_request_id e
      ∙ sym (drawn (generate_request_id b) s none_s)),
)
