-- ===== src/Gateway/Server/Tests.antt =====
-- A gateway with a bucket, and a transcription whose form does not parse.
use Prim.Native.String.{len}
use voxplatform.Prelude.{
  ℕ, ◌≡◌, ◌≢◌, ◌↔◌, ◌⊎◌, inr, refl, String, false, Option, none, some, [], ◌∷◌, if◌then◌else◌, ◌=s◌,
}
use voxplatform.Gateway.Config.{load_config}
use voxplatform.Gateway.Http.{ok, not_sent, IsErrorCode}
use voxplatform.Gateway.EventLog.{gcs, local}
use voxplatform.Gateway.Middleware.{Request, inc, dec}
use voxplatform.Gateway.Server.{
  Network, Server, Context, Route, transcribe, routes, serve_mux, serve, new_server, session_config,
  handler, not_found, method_not_allowed,
}
use voxplatform.Gateway.Server.Errors.{serve_traced}
use voxplatform.Prelude.{◌*◌, ◌^◌}
use voxplatform.Gateway.Server.Wiring.{Configures, new_server-load_config}

wrong_method : serve_mux routes "GET" "/v1/pipeline/run" ≡ method_not_allowed
unfolding serve_mux
wrong_method = refl

abbrev env : String → String
env key =
    if key =s "EVENT_LOG_BACKEND"
    then "gcs"
    else if key =s "EVENT_LOG_BUCKET"
    then "vox-events"
    else ""

abbrev net : Network ℕ
net = record {
  get = λ url. not_sent "no route";
  post_form = λ url parts. not_sent "no route";
  post_summary = λ url transcript segments. not_sent "no route";
  decode_text = λ text. ok text;
  decode_segments = λ text. ok [];
  decode_summary = λ text. ok text;
  byte_length = len;
}

abbrev made : String → Option String
made dir = none

abbrev server : Server ℕ
server = new_server net made (load_config env)

new_server-load_config_example :
    Configures env "WHISPER_URL" "http://whisper.vox.svc.cluster.local:8000" server.proxy.base_url
    × (server.pipeline.whisper ≡ server.proxy)
    × Configures env "VAD_ENDPOINT" "http://localhost:8001" (session_config server.cfg).vad_endpoint
    × ((session_config server.cfg).max_buffer_duration ≡ 30 * 10 ^ 9)
    × ((session_config server.cfg).silence_flush_delay ≡ 2 * 10 ^ 9)
    × ((session_config server.cfg).sample_rate ≡ 16000)
    × ((session_config server.cfg).frame_size ≡ 640)
    × (server.pipeline.diarizer_url ≡ env "DIARIZER_URL")
    × (server.pipeline.summarizer_url ≡ env "SUMMARIZER_URL")
    × ((server.events ≡ gcs (env "EVENT_LOG_BUCKET"))
        ↔ ((env "EVENT_LOG_BACKEND" ≡ "gcs") × (env "EVENT_LOG_BUCKET" ≢ "")))
    × ((server.events ≡ local "/tmp/vox-events") ↔ (
        ((env "EVENT_LOG_BACKEND" ≡ "")
          ⊎ (env "EVENT_LOG_BACKEND" ≡ "local")
          ⊎ ((env "EVENT_LOG_BACKEND" ≡ "gcs") × (env "EVENT_LOG_BUCKET" ≡ "")))
        × (made "/tmp/vox-events" ≡ none)))
new_server-load_config_example =
    new_server-load_config net made env "/tmp/vox-events" (inr (refl, refl))

abbrev context : Context
context = record {
  form = none;
  times = record { created_at = 1; seconds = 0 };
  clock = record { now = λ es. 1; stage_time = λ s. 0; total = 0 };
  strings = record {
    split = λ text by. text ∷ [];
    to_lower = λ text. text;
    trim_space = λ text. text;
  };
  metrics_page = (200 ∷ [], false);
  session = (101 ∷ [], false);
}

abbrev upload : Request
upload = record { method = "POST"; path = "/v1/audio/transcriptions"; client_id = "trace-1" }

serve_traced_example :
    IsErrorCode 400
    × (serve server context (λ status. "Bad Request") "0123456789abcdef" upload ≡ record {
      codes = 400 ∷ [];
      panicked = false;
      recovered = [];
      in_flight = inc ∷ dec ∷ [];
      counted =
          record { method = "POST"; path = "/v1/audio/transcriptions"; status = "Bad Request" }
          ∷ [];
      logged =
          record {
            request_id = "trace-1";
            method = "POST";
            path = "/v1/audio/transcriptions";
            status = 400;
          }
          ∷ [];
      request_id_header = some "trace-1";
    })
unfolding serve_mux voxplatform.Gateway.Server.answer voxplatform.Gateway.Proxy.handle_transcribe
    voxplatform.Gateway.Server.handle
serve_traced_example =
    serve_traced server context (λ status. "Bad Request") "0123456789abcdef" upload 400
      (record {
        code = "file_too_large";
        message = "invalid multipart form or file too large (max 32MB)";
        request_id = "trace-1";
      })
      refl
