-- ===== src/Gateway/Pipeline/Log.antt =====
-- What the events of a pipeline request say of its response.
use voxplatform.Prelude.{
  ℕ, ◌≡◌, refl, ap, ◌∙◌, String, Bool, true, false, Option, none, some, List, [], ◌∷◌, ◌++◌,
  if◌then◌else◌, ◌+s◌, All-append,
}
use voxplatform.Gateway.Wav.{Bytes}
use voxplatform.Gateway.Http.{Result, ok, err, ApiError, Response, failure, json, write_error}
use voxplatform.Gateway.Proxy.{Form, Upload}
use voxplatform.Gateway.EventLog.{Event}
use voxplatform.Gateway.Pipeline.{
  Strings, StageResult, PipelineResponse, Services, Clock, Run, log_event, stage_failed,
  stage_diarize, stage_summarize, finish, after_stt, run_stages, with_audio, with_upload,
  handle_pipeline, contains, run_stt, parse_stages,
}
use voxplatform.Gateway.Pipeline.Runs.{
  label, labels, reported, labels-append, IsCarried, IsLogged, stage_failed-IsLogged,
  stage_done-IsLogged, stage_diarize-IsLogged, stage_summarize-IsLogged,
}

-- What Whisper is asked for a form, and what becomes of it.
abbrev pub stt_of : {F : Type 0} → Services F → Form → String → Bytes → Result String
stt_of services form filename audio =
    run_stt services filename audio (form.value "model") (form.value "language")

-- The response and the events of the stages for an audio file. If the transcription is wanted and
-- fails, the response is its failure; any other run is completed.
pub data Ran {F : Type 0} (services : Services F) (form : Form) (enabled : List String)
    (filename : String) (audio : Bytes) (request_id : String)
    : Response (PipelineResponse F) × List Event → Type 0 where
  aborted :
      (reason : String) (error : ApiError) (es : List Event)
      → contains enabled "stt" ≡ true
      → stt_of services form filename audio ≡ err reason
      → error.message ≡ "STT stage failed: " +s reason
      → error.request_id ≡ request_id
      → labels es ≡ ("pipeline.start", "") ∷ ("stage.start", "stt") ∷ ("stage.error", "stt") ∷ []
      → IsCarried request_id es
      → Ran services form enabled filename audio request_id (failure 502 error, es)
  completed :
      (r : PipelineResponse F) (es : List Event)
      → (contains enabled "stt" ≡ true
          → (transcript : String) × (stt_of services form filename audio ≡ ok transcript))
      → r.request_id ≡ request_id
      → labels es ≡ ("pipeline.start", "") ∷ (reported r.stages ++ ("pipeline.complete", "") ∷ [])
      → IsCarried request_id es
      → Ran services form enabled filename audio request_id (json 200 r, es)

-- The response of a pipeline request and its events, by the form and its file.
pub data Logged {F : Type 0} (services : Services F) (strings : Strings) (request_id : String)
    : Option Form → Response (PipelineResponse F) × List Event → Type 0 where
  unparsed :
      (error : ApiError)
      → error.code ≡ "file_too_large"
      → error.request_id ≡ request_id
      → Logged services strings request_id none (failure 400 error, [])
  fileless :
      (form : Form) (error : ApiError)
      → form.file ≡ none
      → error.code ≡ "file_required"
      → error.request_id ≡ request_id
      → Logged services strings request_id (some form) (failure 400 error, [])
  unread :
      (form : Form) (file : Upload) (reason : String) (error : ApiError)
      → form.file ≡ some file
      → file.audio ≡ err reason
      → error.code ≡ "internal_error"
      → error.request_id ≡ request_id
      → Logged services strings request_id (some form) (failure 500 error, [])
  ran :
      (form : Form) (file : Upload) (audio : Bytes) (r : Response (PipelineResponse F) × List Event)
      → form.file ≡ some file
      → file.audio ≡ ok audio
      → Ran services form
          (parse_stages strings (form.value "stages"))
          file.filename
          audio
          request_id
          r
      → Logged services strings request_id (some form) r

module _ {F : Type 0} (services : Services F) (clock : Clock) (id : String) (form : Form)
    (enabled : List String) (filename : String) (audio : Bytes) where
  abbrev IsRan : Response (PipelineResponse F) × List Event → Type 0
  IsRan = Ran services form enabled filename audio id

  -- The transcription is not wanted, or has a result.
  abbrev HasTranscript : Type 0
  HasTranscript =
      contains enabled "stt" ≡ true
      → (transcript : String) × (stt_of services form filename audio ≡ ok transcript)

  completed_by :
      (run : Run F) (r : PipelineResponse F) (e : Event)
      → HasTranscript
      → r.stages ≡ run.response.stages
      → r.request_id ≡ id
      → label e ≡ ("pipeline.complete", "")
      → e.request_id ≡ id
      → IsLogged services clock id run
      → IsRan (json 200 r, run.events ++ e ∷ [])
  completed_by run r e ht hs hr hl he h =
      completed r _ ht hr (rw (labels-append run.events (e ∷ []), h.0, hl, hs) refl)
        (All-append _ run.events (e ∷ []) h.2 (he, tt))

  finish-Ran :
      (run : Run F)
      → HasTranscript
      → IsLogged services clock id run
      → IsRan (finish services clock enabled filename audio run)
  unfolding finish log_event
  finish-Ran run ht h =
      let diarized = stage_diarize services clock enabled filename audio run in
      let done = stage_summarize services clock enabled diarized in
      let logged =
        stage_summarize-IsLogged services clock id enabled diarized
          (stage_diarize-IsLogged services clock id enabled filename audio run h) in
      completed_by done (record (done.response) { processing = clock.total }) _ ht refl logged.1
        refl logged.1 logged

  after_stt-Ran :
      (run : Run F) (r : Result String)
      → contains enabled "stt" ≡ true
      → stt_of services form filename audio ≡ r
      → run.response.stages ≡ []
      → IsLogged services clock id run
      → IsRan (
          after_stt services clock enabled filename audio
            (log_event clock "stage.start" "stt" [] run)
            r)
  unfolding log_event write_error stage_failed
  after_stt-Ran run (err e) on hr hs h =
      let logged = stage_failed-IsLogged services clock id "stt" e run h in
      let failed_stt : StageResult = record {
        duration = clock.stage_time "stt";
        success = false;
        error = e;
      } in
      aborted e _ _ on hr refl h.1
        (logged.0
          ∙ ap
              (λ (t : List (String × StageResult)).
                ("pipeline.start", "") ∷ reported (t ++ ("stt", failed_stt) ∷ []))
              hs)
        logged.2
  after_stt-Ran run (ok transcript) on hr hs h =
      finish-Ran _ (λ w. (transcript, hr))
        (stage_done-IsLogged services clock id "stt" _
          (record (run.response) { transcript = transcript }) run refl refl h)

  staged-Ran :
      (run : Run F) (b : Bool)
      → contains enabled "stt" ≡ b
      → run.response.stages ≡ []
      → IsLogged services clock id run
      → IsRan (
          if b
          then after_stt services clock enabled filename audio
              (log_event clock "stage.start" "stt" [] run)
              (stt_of services form filename audio)
          else finish services clock enabled filename audio run)
  staged-Ran run true e hs h = after_stt-Ran run _ e refl hs h
  staged-Ran run false e hs h = finish-Ran run (λ w. cc (e, w)) h

  run_stages-Ran :
      (run : Run F)
      → run.response.stages ≡ []
      → IsLogged services clock id run
      → IsRan (run_stages services clock form enabled filename audio run)
  unfolding run_stages
  run_stages-Ran run hs h = staged-Ran run (contains enabled "stt") refl hs h

module _ {F : Type 0} (services : Services F) (clock : Clock) (strings : Strings) (id : String)
    (created_at : ℕ) where
  with_audio-Logged :
      (form : Form) (file : Upload) (r : Result Bytes)
      → form.file ≡ some file
      → file.audio ≡ r
      → Logged services strings id
          (some form)
          (with_audio services clock strings id created_at form file.filename r)
  unfolding log_event write_error
  with_audio-Logged form file (err e) hf ha = unread form file e _ hf ha refl refl
  with_audio-Logged form file (ok audio) hf ha =
      ran form file audio _ hf ha (
        run_stages-Ran services clock id form _ file.filename audio _ refl (refl, refl, (refl, tt)))

  with_upload-Logged :
      (form : Form) (o : Option Upload)
      → form.file ≡ o
      → Logged services strings id
          (some form)
          (with_upload services clock strings id created_at form o)
  unfolding write_error
  with_upload-Logged form none h = fileless form _ h refl refl
  with_upload-Logged form (some file) h = with_audio-Logged form file file.audio h refl

  -- The events of a pipeline request replay its response, and all carry its id, as the response
  -- does. A form that does not parse or has no file is answered 400, a file that cannot be read
  -- 500, and nothing is logged. If the transcription is among the stages of the form and fails, the
  -- answer is 502 with the reason, and nothing runs after it. Any other request is answered 200,
  -- and between its start and its completion the log has, for each stage that the response reports
  -- and in this order, the stage's start and then its completion or its error, as the report says.
  pub handle_pipeline-Logged :
      (form : Option Form)
      → Logged services strings id form (handle_pipeline services clock strings id created_at form)
  unfolding handle_pipeline write_error
  handle_pipeline-Logged none = unparsed _ refl refl
  handle_pipeline-Logged (some form) = with_upload-Logged form form.file refl
