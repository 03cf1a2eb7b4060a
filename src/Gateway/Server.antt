-- ===== src/Gateway/Server.antt =====
-- The server of internal/gateway/server.go: what NewServer builds from the configuration, the
-- routes that Router registers, and the handlers behind them. The transports, the decoders and
-- the directory of the event log are parameters, and so are the two handlers that a library
-- serves: the metrics page and the WebSocket.
pub mod Routes
pub mod Interface
pub mod Errors
pub mod Wiring
mod Tests
use voxplatform.Prelude.{
  ℕ, String, Bool, true, false, ◌&&◌, ◌||◌, Option, none, some, List, [], ◌∷◌, if◌then◌else◌, ◌=s◌,
}
use voxplatform.Gateway.Config.{Config}
use voxplatform.Gateway.Http.{Result, ApiError, Response, failure, json, HttpReply}
use voxplatform.Gateway.Proxy.{
  Part, Whisper, Form, Times, TranscriptionResponse, handle_ready, handle_transcribe, default_model,
}
use voxplatform.Gateway.Pipeline.{
  Strings, SpeakerSegment, PipelineResponse, Services, Clock, handle_pipeline,
}
use voxplatform.Gateway.EventLog.{Backend, Event, new_event_logger}
use voxplatform.Gateway.Stream.{StreamConfig, default_stream_config}
use voxplatform.Gateway.Middleware.{Request, Served, router, request_id_of}

-- The answers of the backends, whatever their addresses, and the decoders.
pub record Network (F : Type 0) : Type 0 where
  pub get : String → HttpReply
  pub post_form : String → List Part → HttpReply
  pub post_summary : String → String → List (SpeakerSegment F) → HttpReply
  pub decode_text : String → Result String
  pub decode_segments : String → Result (List (SpeakerSegment F))
  pub decode_summary : String → Result String
  -- The built-in function len of Go on a string.
  pub byte_length : String → ℕ

pub record Server (F : Type 0) : Type 0 where
  pub cfg : Config
  pub proxy : Whisper
  pub pipeline : Services F
  pub events : Backend

-- NewWhisperProxy
abbrev pub new_whisper_proxy : {F : Type 0} → Network F → String → Whisper
new_whisper_proxy net base_url = record {
  base_url = base_url;
  get = net.get;
  post_form = net.post_form;
  decode_text = net.decode_text;
}

-- NewPipelineOrchestrator, without the event log.
abbrev pub new_pipeline_orchestrator : {F : Type 0} → Network F → Config → Whisper → Services F
new_pipeline_orchestrator net cfg proxy = record {
  whisper = proxy;
  diarizer_url = cfg.diarizer_url;
  summarizer_url = cfg.summarizer_url;
  post_form = net.post_form;
  post_summary = net.post_summary;
  decode_segments = net.decode_segments;
  decode_summary = net.decode_summary;
  byte_length = net.byte_length;
}

-- NewServer; `made` is the answer of MkdirAll for a directory, where `some` is an error.
unfoldable pub new_server : {F : Type 0} → Network F → (String → Option String) → Config → Server F
new_server net made cfg = record {
  cfg = cfg;
  proxy = new_whisper_proxy net cfg.whisper_url;
  pipeline = new_pipeline_orchestrator net cfg (new_whisper_proxy net cfg.whisper_url);
  events =
      new_event_logger cfg.event_log_backend cfg.event_log_dir cfg.event_log_bucket
        (made cfg.event_log_dir);
}

-- The configuration of a session of handleStream.
abbrev pub session_config : Config → StreamConfig
session_config cfg =
    if cfg.vad_endpoint =s ""
    then default_stream_config
    else record default_stream_config { vad_endpoint = cfg.vad_endpoint }

-- The handlers, by the names of the methods.
pub data Route : Type 0 where
  health ready metrics transcribe list_models stream pipeline : Route

-- A pattern of the ServeMux: a method or none, and a path.
pub record Pattern : Type 0 where
  pub method : Option String
  pub path : String
  pub handler : Route

-- The registrations of Router.
abbrev pub routes : List Pattern
routes =
    record { method = some "GET"; path = "/healthz"; handler = health }
    ∷ record { method = some "GET"; path = "/readyz"; handler = ready }
    ∷ record { method = some "GET"; path = "/metrics"; handler = metrics }
    ∷ record { method = some "POST"; path = "/v1/audio/transcriptions"; handler = transcribe }
    ∷ record { method = some "GET"; path = "/v1/models"; handler = list_models }
    ∷ record { method = none; path = "/v1/audio/stream"; handler = stream }
    ∷ record { method = some "POST"; path = "/v1/pipeline/run"; handler = pipeline }
    ∷ []

-- A pattern without a method takes every method, and GET takes HEAD too.
abbrev pub takes_method : Option String → String → Bool
takes_method none method = true
takes_method (some m) method = m =s method || (m =s "GET" && method =s "HEAD")

-- What a ServeMux of patterns without wildcards makes of a request with a clean path.
pub data Dispatch : Type 0 where
  handler : Route → Dispatch
  not_found : Dispatch
  method_not_allowed : Dispatch

abbrev pub has_path : String → List Pattern → Bool
has_path path [] = false
has_path path (p ∷ ps) = p.path =s path || has_path path ps

abbrev pub find_pattern : List Pattern → String → String → Option Route
find_pattern [] method path = none
find_pattern (p ∷ ps) method path =
    if p.path =s path && takes_method p.method method
    then some p.handler
    else find_pattern ps method path

abbrev pub dispatched : List Pattern → String → Option Route → Dispatch
dispatched patterns path (some h) = handler h
dispatched patterns path none = if has_path path patterns then method_not_allowed else not_found

unfoldable pub serve_mux : List Pattern → String → String → Dispatch
serve_mux patterns method path = dispatched patterns path (find_pattern patterns method path)

-- What a request carries besides its method, path and id: its form, if that parses, and the
-- readings of the clock; and what the libraries' handlers do, by status codes and panic.
pub record Context : Type 0 where
  pub form : Option Form
  pub times : Times
  pub clock : Clock
  pub strings : Strings
  pub metrics_page : List ℕ × Bool
  pub session : List ℕ × Bool

pub handle_health : Response String
handle_health = json 200 "ok"

-- A model of handleListModels: its id, its type and its state.
pub record ListedModel : Type 0 where
  pub id : String
  pub type : String
  pub state : String

pub handle_list_models : Response (List ListedModel)
handle_list_models =
    json 200
      (record { id = "Systran/faster-whisper-small.en"; type = "stt"; state = "loaded" } ∷ [])

-- The answer of a handler: a text, a result of an operation, or what a library writes.
pub data Answer (F : Type 0) : Type 0 where
  plain : Response String → Answer F
  transcription : Response TranscriptionResponse → Answer F
  run : Response (PipelineResponse F) → Answer F
  models : Response (List ListedModel) → Answer F
  written : List ℕ × Bool → Answer F

module _ {F : Type 0} (server : Server F) (context : Context) where
  abbrev pub handle : Dispatch → String → Answer F
  unfolding handle_health handle_list_models
  handle (handler health) id = plain handle_health
  handle (handler ready) id = plain (handle_ready server.proxy id)
  handle (handler metrics) id = written context.metrics_page
  handle (handler transcribe) id =
      transcription (handle_transcribe server.proxy id context.times context.form)
  handle (handler list_models) id = models handle_list_models
  handle (handler stream) id = written context.session
  handle (handler pipeline) id =
      run
        (handle_pipeline server.pipeline context.clock context.strings id context.times.created_at
          context.form).0
  handle not_found id = written (404 ∷ [], false)
  handle method_not_allowed id = written (405 ∷ [], false)

  -- The answer to a request, by its id.
  pub answer : Request → String → Answer F
  unfolding serve_mux
  answer req id = handle (serve_mux routes req.method req.path) id

abbrev response_code : {A : Type 0} → Response A → ℕ
response_code (failure status e) = status
response_code (json status a) = status

abbrev pub answer_codes : {F : Type 0} → Answer F → List ℕ × Bool
answer_codes (plain r) = (response_code r ∷ [], false)
answer_codes (transcription r) = (response_code r ∷ [], false)
answer_codes (run r) = (response_code r ∷ [], false)
answer_codes (models r) = (response_code r ∷ [], false)
answer_codes (written o) = o

-- A request through the whole chain of Router; `generated` is the answer of generateRequestID.
pub serve : {F : Type 0} → Server F → Context → (ℕ → String) → String → Request → Served
unfolding answer
serve server context status_text generated req =
    router status_text (λ r id. answer_codes (answer server context r id)) generated req
