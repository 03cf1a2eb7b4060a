-- ===== src/Gateway/Proxy/Health.antt =====
-- The readiness probe of internal/gateway/handlers.go.
use voxplatform.Prelude.{◌≡◌, ◌↔◌, refl, inr, Option, none, some, String, arith, ◌+s◌}
use voxplatform.Gateway.Http.{HttpReply, Response, IsTraced, json, answered, write_error}
use voxplatform.Gateway.Proxy.{Whisper, health_check, handle_ready}

-- Whisper answered its health endpoint with status 200.
abbrev pub IsAlive : HttpReply → Type 0
IsAlive (answered status body) = status ≡ 200
IsAlive _ = ⊥

-- The gateway reports itself ready with status 200 exactly if Whisper answers its health endpoint
-- with status 200, and with status 503 and the request id in any other case.
pub handle_ready_iff :
    (whisper : Whisper) (id : String)
    → ((handle_ready whisper id ≡ json 200 "ready")
        ↔ IsAlive (whisper.get (whisper.base_url +s "/health")))
      × ((handle_ready whisper id
            ≡ write_error id 503 "service_unavailable" "whisper backend unreachable")
          ↔ (¬ IsAlive (whisper.get (whisper.base_url +s "/health"))))
unfolding handle_ready health_check write_error
handle_ready_iff whisper id = ground arith

pub handle_ready-IsTraced :
    (whisper : Whisper) (id : String) → IsTraced id (handle_ready whisper id)
unfolding handle_ready write_error
handle_ready-IsTraced whisper id = go (health_check whisper)
  where
    go :
        (o : Option String)
        → IsTraced id (elim o as (λ _. Response String) [
          | none ↦ json 200 "ready"
          | some e ↦ write_error id 503 "service_unavailable" "whisper backend unreachable"
        ])
    go none = refl
    go (some e) = (inr (inr (inr refl)), refl)
