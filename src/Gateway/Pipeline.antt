-- ===== src/Gateway/Pipeline.antt =====
-- The pipeline handler of internal/gateway/pipeline.go: transcription, diarization and
-- summarization of one audio file, with the events that it logs, oldest first. The type `F` is
-- that of the decoded numbers, the Go package strings is a parameter, and so is the clock.
pub mod Types
pub mod Runs
pub mod Log
pub mod Stages
pub mod Codes
pub mod Replay
mod Tests
pub use Types.*
use voxplatform.Prelude.{
  ℕ, String, Bool, true, false, not, ◌&&◌, Option, none, some, List, [], ◌∷◌, ◌++◌, ◌==◌,
  if◌then◌else◌, ◌=s◌, ◌+s◌, show_ℕ, length,
}
use voxplatform.Gateway.Wav.{Bytes}
use voxplatform.Gateway.Http.{
  Result, ok, err, Response, json, write_error, file_required, file_too_large, backend_error,
  internal_error, Body, HttpReply, not_built, not_sent, answered, decode_body, wrap,
}
use voxplatform.Gateway.Proxy.{
  Part, file_part, TranscriptionRequest, Upload, Whisper, Form, default_model, transcribe,
}
use voxplatform.Gateway.EventLog.{Event, Value, text, texts, number, seconds}

module _ (strings : Strings) where
  -- The loop of parseStages.
  pub clean_stages : List String → List String
  clean_stages [] = []
  clean_stages (p ∷ ps) =
      let name = strings.trim_space (strings.to_lower p) in
      let rest = clean_stages ps in if name =s "" then rest else name ∷ rest

  pub parse_stages : String → List String
  unfolding clean_stages
  parse_stages param =
      if param =s ""
      then "stt" ∷ "diarize" ∷ "summarize" ∷ []
      else clean_stages (strings.split param ",")

pub contains : List String → String → Bool
contains [] item = false
contains (s ∷ slice) item = if s =s item then true else contains slice item

-- What is made of an answer of the diarizer or the summarizer.
abbrev pub service_result : {A : Type 0} → String → (String → Result A) → HttpReply → Result A
service_result name decode (not_built e) = err e
service_result name decode (not_sent e) = err (name +s " request failed: " +s e)
service_result name decode (answered status body) =
    if status == 200
    then wrap ("decoding " +s name +s " response: ") (decode_body decode body)
    else err (name +s " returned " +s show_ℕ status)

module _ {F : Type 0} (services : Services F) where
  pub run_stt : String → Bytes → String → String → Result String
  run_stt filename audio model language =
      transcribe services.whisper (record { filename = filename; audio = ok audio })
        (record {
          model = if model =s "" then default_model else model;
          language = language;
          response_format = "";
        })

  pub run_diarize : String → Bytes → Result (List (SpeakerSegment F))
  run_diarize filename audio = service_result "diarizer" services.decode_segments (
      services.post_form (services.diarizer_url +s "/diarize")
        (file_part "file" filename audio ∷ []))

  pub run_summarize : String → List (SpeakerSegment F) → Result String
  run_summarize transcript segments =
      service_result "summarizer" services.decode_summary
        (services.post_summary (services.summarizer_url +s "/summarize") transcript segments)

module _ {F : Type 0} (clock : Clock) where
  pub log_event : String → String → List (String × Value) → Run F → Run F
  log_event type stage values run = record run {
    events =
        run.events
        ++ record {
          request_id = run.response.request_id;
          timestamp = clock.now run.events;
          type = type;
          stage = stage;
          data_values = values;
        }
          ∷ [];
  }

  abbrev with_stage : String → Bool → String → PipelineResponse F → PipelineResponse F
  with_stage stage success error response = record response {
    stages =
        response.stages
        ++ (stage, record { duration = clock.stage_time stage; success = success; error = error })
          ∷ [];
  }

  -- A stage that failed, or succeeded with `values` beside the duration in its event.
  pub stage_failed : String → String → Run F → Run F
  unfolding log_event
  stage_failed stage e run =
      log_event "stage.error" stage (("error", text e) ∷ [])
        (record run { response = with_stage stage false e run.response })

  pub stage_done : String → List (String × Value) → PipelineResponse F → Run F → Run F
  unfolding log_event
  stage_done stage values response run =
      log_event "stage.complete" stage
        (("duration_seconds", seconds (clock.stage_time stage)) ∷ values)
        (record run { response = with_stage stage true "" response })

module _ {F : Type 0} (services : Services F) (clock : Clock) where
  abbrev pub after_diarize : Result (List (SpeakerSegment F)) → Run F → Run F
  after_diarize (err e) run = stage_failed clock "diarize" e run
  after_diarize (ok segments) run =
      stage_done clock "diarize" (("num_segments", number (length segments)) ∷ [])
        (record (run.response) { segments = segments }) run

  pub stage_diarize : List String → String → Bytes → Run F → Run F
  unfolding log_event stage_failed stage_done run_diarize contains
  stage_diarize enabled filename audio run =
      if contains enabled "diarize" && not (services.diarizer_url =s "")
      then after_diarize (run_diarize services filename audio)
          (log_event clock "stage.start" "diarize" [] run)
      else run

  abbrev pub after_summarize : Result String → Run F → Run F
  after_summarize (err e) run = stage_failed clock "summarize" e run
  after_summarize (ok summary) run =
      stage_done clock "summarize" [] (record (run.response) { summary = summary }) run

  pub stage_summarize : List String → Run F → Run F
  unfolding log_event stage_failed stage_done run_summarize contains
  stage_summarize enabled run =
      if contains enabled "summarize"
        && not (services.summarizer_url =s "")
        && not (run.response.transcript =s "")
      then after_summarize (run_summarize services run.response.transcript run.response.segments)
          (log_event clock "stage.start" "summarize" [] run)
      else run

  -- Stages 2 and 3, and the end of the handler.
  pub finish : List String → String → Bytes → Run F → Response (PipelineResponse F) × List Event
  unfolding stage_diarize stage_summarize log_event
  finish enabled filename audio run =
      let run' = stage_summarize enabled (stage_diarize enabled filename audio run) in
      let response = record (run'.response) { processing = clock.total } in
      (
        json 200 response,
        (log_event clock "pipeline.complete" "" (("duration_seconds", seconds clock.total) ∷ [])
            (record run' { response = response })).events,
      )

  abbrev pub after_stt :
      List String
      → String
      → Bytes
      → Run F
      → Result String
      → Response (PipelineResponse F) × List Event
  after_stt enabled filename audio run (err e) = (
    write_error run.response.request_id 502 backend_error ("STT stage failed: " +s e),
    (stage_failed clock "stt" e run).events,
  )
  after_stt enabled filename audio run (ok transcript) = finish enabled filename audio (
      stage_done clock "stt" (("text_length", number (services.byte_length transcript)) ∷ [])
        (record (run.response) { transcript = transcript }) run)

  -- Stage 1 and what follows it.
  pub run_stages :
      Form → List String → String → Bytes → Run F → Response (PipelineResponse F) × List Event
  unfolding log_event stage_failed stage_done finish run_stt contains
  run_stages form enabled filename audio run =
      if contains enabled "stt"
      then after_stt enabled filename audio (log_event clock "stage.start" "stt" [] run)
          (run_stt services filename audio (form.value "model") (form.value "language"))
      else finish enabled filename audio run

  abbrev pub new_run : String → ℕ → Run F
  new_run request_id created_at = record {
    response = record {
      request_id = request_id;
      created_at = created_at;
      processing = 0;
      stages = [];
      transcript = "";
      segments = [];
      summary = "";
    };
    events = [];
  }

  abbrev pub started : String → ℕ → List String → String → Run F
  started request_id created_at enabled filename =
      log_event clock "pipeline.start" ""
        (("stages", texts enabled) ∷ ("filename", text filename) ∷ [])
        (new_run request_id created_at)

module _ {F : Type 0} (services : Services F) (clock : Clock) (strings : Strings)
    (request_id : String) (created_at : ℕ) where
  abbrev pub with_audio : Form → String → Result Bytes → Response (PipelineResponse F) × List Event
  with_audio form filename (err e) =
      (write_error request_id 500 internal_error "reading audio file", [])
  with_audio form filename (ok audio) =
      let enabled = parse_stages strings (form.value "stages") in
      run_stages services clock form enabled filename audio
        (started services clock request_id created_at enabled filename)

  abbrev pub with_upload : Form → Option Upload → Response (PipelineResponse F) × List Event
  with_upload form none =
      (write_error request_id 400 file_required "missing 'file' field in form data", [])
  with_upload form (some file) = with_audio form file.filename file.audio

  -- handlePipeline: the response and the events, where `none` is a form that does not parse.
  pub handle_pipeline : Option Form → Response (PipelineResponse F) × List Event
  unfolding run_stages parse_stages log_event
  handle_pipeline none = (
    write_error request_id 400 file_too_large "invalid multipart form or file too large (max 32MB)",
    [],
  )
  handle_pipeline (some form) = with_upload form form.file
