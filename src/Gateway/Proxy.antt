-- ===== src/Gateway/Proxy.antt =====
-- The Whisper proxy of internal/gateway/proxy.go and the handlers of internal/gateway/handlers.go
-- that use it. A multipart form is the list of its parts; the audio file is a reader that gives
-- its bytes or fails, and writing to the form, which is in memory, does not fail.
pub mod Forms
pub mod Health
mod Tests
use voxplatform.Prelude.{
  ℕ, String, Bool, true, false, not, Option, none, some, List, [], ◌∷◌, ◌++◌, ◌==◌, if◌then◌else◌,
  ◌=s◌, ◌+s◌, show_ℕ,
}
use voxplatform.Gateway.Wav.{Bytes}
use voxplatform.Gateway.Http.{
  Result, ok, err, Response, json, write_error, file_required, file_too_large, backend_error,
  service_unavail, Body, unreadable, content, HttpReply, not_built, not_sent, answered, wrap,
}

pub data Part : Type 0 where
  file_part : String → String → Bytes → Part
  text_part : String → String → Part

pub record TranscriptionRequest : Type 0 where
  pub model : String
  pub language : String
  pub response_format : String

pub record TranscriptionResponse : Type 0 where
  pub text : String
  pub model : String
  pub duration : ℕ
  pub request_id : String
  pub created_at : ℕ

abbrev pub default_model : String
default_model = "Systran/faster-whisper-small.en"

-- A file of a form: its name, and what reading it gives.
pub record Upload : Type 0 where
  pub filename : String
  pub audio : Result Bytes

-- The Whisper backend: its answers, and `json.Unmarshal` of the text field.
pub record Whisper : Type 0 where
  pub base_url : String
  pub get : String → HttpReply
  pub post_form : String → List Part → HttpReply
  pub decode_text : String → Result String

-- The parts of the form that Transcribe writes.
pub transcription_form : String → Bytes → TranscriptionRequest → List Part
transcription_form filename audio req =
    (file_part "file" filename audio ∷ text_part "model" req.model ∷ [])
    ++ (if req.language =s "" then [] else text_part "language" req.language ∷ [])
    ++ (if req.response_format =s ""
        then []
        else text_part "response_format" req.response_format ∷ [])

-- The end of Transcribe: what is made of Whisper's answer.
pub transcription_result : (String → Result String) → HttpReply → Result String
transcription_result decode (not_built e) = err ("creating request: " +s e)
transcription_result decode (not_sent e) = err ("sending to whisper: " +s e)
transcription_result decode (answered status (unreadable e)) = err ("reading response: " +s e)
transcription_result decode (answered status (content text)) =
    if status == 200
    then wrap "parsing response: " (decode text)
    else err ("whisper returned " +s show_ℕ status +s ": " +s text)

abbrev pub send_audio : Whisper → String → TranscriptionRequest → Result Bytes → Result String
send_audio whisper filename req (err e) = err ("copying file data: " +s e)
send_audio whisper filename req (ok audio) = transcription_result whisper.decode_text (
    whisper.post_form (whisper.base_url +s "/v1/audio/transcriptions")
      (transcription_form filename audio req))

pub transcribe : Whisper → Upload → TranscriptionRequest → Result String
unfolding transcription_form transcription_result
transcribe whisper file req = send_audio whisper file.filename req file.audio

-- HealthCheck: `none` if Whisper is alive.
pub health_check : Whisper → Option String
health_check whisper = elim (whisper.get (whisper.base_url +s "/health")) [
  | not_built e ↦ some ("creating health request: " +s e)
  | not_sent e ↦ some ("whisper unreachable: " +s e)
  | answered status body ↦
      if status == 200 then none else some ("whisper returned status " +s show_ℕ status)
]

pub handle_ready : Whisper → String → Response String
unfolding health_check write_error
handle_ready whisper request_id = elim (health_check whisper) [
  | none ↦ json 200 "ready"
  | some e ↦ write_error request_id 503 service_unavail "whisper backend unreachable"
]

-- A request with a form: the form is malformed or larger than 32 MB, or it has a file or none,
-- and its text fields, where a missing one is empty.
pub record Form : Type 0 where
  pub file : Option Upload
  pub value : String → String

-- The request of handleTranscribe.
abbrev pub transcription_request : Form → TranscriptionRequest
transcription_request form = record {
  model = if form.value "model" =s "" then default_model else form.value "model";
  language = form.value "language";
  response_format = form.value "response_format";
}

-- The times of a request: when it is answered, and how long that took.
pub record Times : Type 0 where
  pub created_at : ℕ
  pub seconds : ℕ

module _ (whisper : Whisper) (request_id : String) (times : Times) where
  abbrev pub respond : TranscriptionRequest → Result String → Response TranscriptionResponse
  respond req (err e) = write_error request_id 502 backend_error ("whisper backend error: " +s e)
  respond req (ok text) = json 200 (record {
    text = text;
    model = req.model;
    duration = times.seconds;
    request_id = request_id;
    created_at = times.created_at;
  })

  abbrev pub with_file : Form → Option Upload → Response TranscriptionResponse
  with_file form none = write_error request_id 400 file_required "missing 'file' field in form data"
  with_file form (some file) =
      respond (transcription_request form) (transcribe whisper file (transcription_request form))

  -- handleTranscribe, where `none` is a form that does not parse.
  unfoldable pub handle_transcribe : Option Form → Response TranscriptionResponse
  unfolding transcribe write_error
  handle_transcribe none =
      write_error request_id 400 file_too_large
        "invalid multipart form or file too large (max 32MB)"
  handle_transcribe (some form) = with_file form form.file
