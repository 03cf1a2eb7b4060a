-- ===== src/Gateway/Server/Errors.antt =====
-- Every error of a request can be traced.
use mathlib.Core.Path.{subst}
use voxplatform.Prelude.{ℕ, ◌≡◌, refl, ap, ◌∙◌, sym, String, false, some, [], ◌∷◌, if◌then◌else◌}
use voxplatform.Gateway.Http.{ApiError, Response, failure, IsErrorCode, IsTraced}
use voxplatform.Gateway.Proxy.Health.{handle_ready-IsTraced}
use voxplatform.Gateway.Proxy.Forms.{handle_transcribe-IsTraced}
use voxplatform.Gateway.Pipeline.Codes.{handle_pipeline-IsTraced}
use voxplatform.Gateway.Middleware.{dec, inc, Request, request_id_of, is_probe}
use voxplatform.Gateway.Middleware.Chain.{served, router-served}
use voxplatform.Gateway.Server.{
  Server, Context, Dispatch, handler, not_found, method_not_allowed, health, ready, metrics,
  transcribe, list_models, stream, pipeline, Answer, plain, transcription, run, models,
  handle_health, handle_list_models, written, handle, answer, answer_codes, serve, serve_mux,
  routes,
}

-- The answer is the structured error with this status.
abbrev pub HasFailed : {F : Type 0} → Answer F → ℕ → ApiError → Type 0
HasFailed (plain r) status e = r ≡ failure status e
HasFailed (transcription r) status e = r ≡ failure status e
HasFailed (run r) status e = r ≡ failure status e
HasFailed (models r) status e = r ≡ failure status e
HasFailed _ status e = ⊥

traced_failure :
    {A : Type 0} (id : String) (r : Response A) (status : ℕ) (e : ApiError)
    → IsTraced id r
    → r ≡ failure status e
    → IsErrorCode status × (e.request_id ≡ id)
traced_failure id r status e t h = subst (IsTraced id) h t

module _ {F : Type 0} (server : Server F) (context : Context) where
  handle_traced :
      (d : Dispatch) (id : String) (status : ℕ) (e : ApiError)
      → HasFailed (handle server context d id) status e
      → IsErrorCode status × (e.request_id ≡ id)
  unfolding handle_health handle_list_models
  handle_traced (handler health) id status e h = cc
  handle_traced (handler ready) id status e h =
      traced_failure id _ status e (handle_ready-IsTraced server.proxy id) h
  handle_traced (handler metrics) id status e h = absurd h
  handle_traced (handler transcribe) id status e h =
      traced_failure id _ status e
        (handle_transcribe-IsTraced server.proxy id context.times context.form) h
  handle_traced (handler list_models) id status e h = cc
  handle_traced (handler stream) id status e h = absurd h
  handle_traced (handler pipeline) id status e h =
      traced_failure id _ status e
        (handle_pipeline-IsTraced server.pipeline context.clock context.strings id
          context.times.created_at context.form)
        h
  handle_traced not_found id status e h = absurd h
  handle_traced method_not_allowed id status e h = absurd h

  failed_codes :
      (a : Answer F) (status : ℕ) (e : ApiError)
      → HasFailed a status e
      → answer_codes a ≡ (status ∷ [], false)
  failed_codes (plain r) status e h = simp h refl
  failed_codes (transcription r) status e h = simp h refl
  failed_codes (run r) status e h = simp h refl
  failed_codes (models r) status e h = simp h refl
  failed_codes (written o) status e h = absurd h

  -- Any structured error with which a handler answers a request has status 400, 500, 502 or 503.
  -- This status is the only one that is written; the response's header X-Request-ID, the error
  -- and, unless the request is a health probe, the one line of the log have the same id, the
  -- client's if it sent one; and the log and the counter have this status.
  pub serve_traced :
      (status_text : ℕ → String) (generated : String) (req : Request) (status : ℕ) (e : ApiError)
      → HasFailed (answer server context req (request_id_of generated req)) status e
      → IsErrorCode status
        × (serve server context status_text generated req ≡ record {
          codes = status ∷ [];
          panicked = false;
          recovered = [];
          in_flight = inc ∷ dec ∷ [];
          counted =
              record { method = req.method; path = req.path; status = status_text status } ∷ [];
          logged =
              if is_probe req.path
              then []
              else record {
                request_id = e.request_id;
                method = req.method;
                path = req.path;
                status = status;
              }
                ∷ [];
          request_id_header = some e.request_id;
        })
  unfolding serve answer
  serve_traced status_text generated req status e h =
      let t =
        handle_traced (serve_mux routes req.method req.path) (request_id_of generated req) status e
          h in
      (
        t.0,
        (router-served status_text (λ r id. answer_codes (answer server context r id)) generated
              req).0
            ∙ ap (served status_text req (request_id_of generated req)) (failed_codes _ status e h)
            ∙ ap (λ (id : String). served status_text req id (status ∷ [], false)) (sym t.1),
      )
