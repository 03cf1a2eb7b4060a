-- ===== src/Gateway/Middleware/Tests.antt =====
-- A handler that panics after it has written its status.
use voxplatform.Gateway.RequestId.{generate_request_id}
use voxplatform.Gateway.Middleware.Ids.{same_id_iff}
use voxplatform.Prelude.{ℕ, ◌≡◌, ◌↔◌, refl, arith, String, Bool, true, List, [], ◌∷◌}
use voxplatform.Gateway.Middleware.{Request, router}
use voxplatform.Gateway.Middleware.Chain.{sent_code, served, router-served}

abbrev upload : Request
upload = record { method = "POST"; path = "/v1/audio/transcriptions"; client_id = "trace-1" }

abbrev panicking : Request → String → List ℕ × Bool
panicking req id = (200 ∷ [], true)

router-served_example :
    (router (λ status. "status") panicking "0123456789abcdef" upload
      ≡ served (λ status. "status") upload "trace-1" (200 ∷ [], true))
    × (sent_code (router (λ status. "status") panicking "0123456789abcdef" upload).codes ≡ 200)
router-served_example = router-served (λ status. "status") panicking "0123456789abcdef" upload

abbrev some_bytes : List ℕ
some_bytes = 7 ∷ 1 ∷ []

abbrev other_bytes : List ℕ
other_bytes = 7 ∷ 2 ∷ []

abbrev probe : Request
probe = record { method = "GET"; path = "/healthz"; client_id = "" }

same_id_iff_example :
    ((router
        (λ status. "status")
        panicking
        (generate_request_id some_bytes)
        probe).request_id_header
      ≡ (router
          (λ status. "status")
          panicking
          (generate_request_id other_bytes)
          probe).request_id_header)
    ↔ (some_bytes ≡ other_bytes)
same_id_iff_example =
    same_id_iff (λ status. "status") panicking some_bytes other_bytes probe probe (omega arith)
      (omega arith) refl refl
