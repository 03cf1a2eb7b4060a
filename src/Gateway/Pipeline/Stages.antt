-- ===== src/Gateway/Pipeline/Stages.antt =====
-- Which stages of a pipeline request run.
use mathlib.Core.List.{append-nil}
use voxplatform.Prelude.{
  ◌≡◌, refl, sym, ap, ◌∙◌, String, Bool, true, false, not, ◌&&◌, List, [], ◌∷◌, ◌++◌, if◌then◌else◌,
  ◌=s◌, ◌+s◌,
}
use voxplatform.Gateway.Wav.{Bytes}
use voxplatform.Gateway.Http.{Result, ok, err, Response, failure, json, write_error}
use voxplatform.Gateway.Proxy.{Form}
use voxplatform.Gateway.EventLog.{Event}
use voxplatform.Gateway.Pipeline.{
  StageResult, PipelineResponse, SpeakerSegment, Services, Clock, Run, contains, log_event,
  stage_failed, stage_done, run_stt, run_diarize, run_summarize, after_diarize, stage_diarize,
  after_summarize, stage_summarize, finish, after_stt, run_stages,
}

-- The names of the stages that a response reports.
abbrev pub names : List (String × StageResult) → List String
names [] = []
names ((stage, r) ∷ stages) = stage ∷ names stages

abbrev pub optional : Bool → String → List String
optional b name = if b then name ∷ [] else []

names-append : (xs ys : List (String × StageResult)) → names (xs ++ ys) ≡ names xs ++ names ys
names-append [] ys = refl
names-append ((s, r) ∷ xs) ys = ap (λ (t : List String). s ∷ t) (names-append xs ys)

appended_twice :
    (s d r x x' y z : List String) → s ≡ d ++ x → d ≡ r ++ y → r ≡ z → x ≡ x' → s ≡ z ++ y ++ x'
appended_twice s d r x x' y z hs hd hr hx = rw (hs, hd, hr, hx) refl

module _ {F : Type 0} (services : Services F) (clock : Clock) (enabled : List String)
    (filename : String) (audio : Bytes) where
  abbrev pub wants_diarize : Bool
  wants_diarize = contains enabled "diarize" && not (services.diarizer_url =s "")

  abbrev pub wants_summary : String → Bool
  wants_summary transcript =
      contains enabled "summarize" && not (services.summarizer_url =s "") && not (transcript =s "")

  -- The run has one stage more if `b` holds, and the same transcript.
  abbrev Extends : Bool → String → Run F → Run F → Type 0
  Extends b name run run' =
      (names run'.response.stages ≡ names run.response.stages ++ optional b name)
      × (run'.response.transcript ≡ run.response.transcript)

  if-Extends :
      (b : Bool) (name : String) (run run' : Run F)
      → Extends true name run run'
      → Extends b name run (if b then run' else run)
  if-Extends true name run run' h = h
  if-Extends false name run run' h = (sym (append-nil (names run.response.stages)), refl)

  after_diarize-Extends :
      (r : Result (List (SpeakerSegment F))) (run : Run F)
      → Extends true "diarize" run
          (after_diarize services clock r (log_event clock "stage.start" "diarize" [] run))
  unfolding log_event stage_failed stage_done
  after_diarize-Extends (err e) run = (names-append run.response.stages _, refl)
  after_diarize-Extends (ok segments) run = (names-append run.response.stages _, refl)

  stage_diarize-Extends :
      (run : Run F)
      → Extends wants_diarize "diarize" run
          (stage_diarize services clock enabled filename audio run)
  unfolding stage_diarize
  stage_diarize-Extends run =
      if-Extends wants_diarize "diarize" run
        (after_diarize services clock (run_diarize services filename audio)
          (log_event clock "stage.start" "diarize" [] run))
        (after_diarize-Extends (run_diarize services filename audio) run)

  after_summarize-Extends :
      (r : Result String) (run : Run F)
      → Extends true "summarize" run
          (after_summarize services clock r (log_event clock "stage.start" "summarize" [] run))
  unfolding log_event stage_failed stage_done
  after_summarize-Extends (err e) run = (names-append run.response.stages _, refl)
  after_summarize-Extends (ok summary) run = (names-append run.response.stages _, refl)

  stage_summarize-Extends :
      (run : Run F)
      → Extends
          (wants_summary run.response.transcript)
          "summarize"
          run
          (stage_summarize services clock enabled run)
  unfolding stage_summarize
  stage_summarize-Extends run =
      let summary = run_summarize services run.response.transcript run.response.segments in
      if-Extends (wants_summary run.response.transcript) "summarize" run
        (after_summarize services clock summary (log_event clock "stage.start" "summarize" [] run))
        (after_summarize-Extends summary run)

  -- A response to a request whose transcription stage gives `stt`: 502 only if it fails. Otherwise
  -- the response has its text, or none if the stage is not enabled, and reports the stages that
  -- are enabled and configured, the summary only if there is a transcript.
  abbrev pub IsRun : Result String → Response (PipelineResponse F) → Type 0
  IsRun stt (failure status e) =
      (status ≡ 502)
      × (contains enabled "stt" ≡ true)
      × (reason : String) × (stt ≡ err reason)
      × (e.message ≡ "STT stage failed: " +s reason)
  IsRun stt (json status r) =
      (status ≡ 200)
      × ((if contains enabled "stt" then stt else ok "") ≡ ok r.transcript)
      × (names r.stages
          ≡ optional (contains enabled "stt") "stt"
            ++ optional wants_diarize "diarize"
            ++ optional (wants_summary r.transcript) "summarize")

  finish-IsRun :
      (stt : Result String) (run : Run F)
      → (if contains enabled "stt" then stt else ok "") ≡ ok run.response.transcript
      → names run.response.stages ≡ optional (contains enabled "stt") "stt"
      → IsRun stt (finish services clock enabled filename audio run).0
  unfolding finish
  finish-IsRun stt run ht hs =
      let diarized = stage_diarize services clock enabled filename audio run in
      let d = stage_diarize-Extends run in
      let s = stage_summarize-Extends diarized in
      (
        refl,
        ht ∙ ap (λ (t : String). ok t) (sym (s.1 ∙ d.1)),
        appended_twice _ _ _ _ _ _ _ s.0 d.0 hs
            (ap (λ t. optional (wants_summary t) "summarize") (sym s.1)),
      )

  after_stt-IsRun :
      (run : Run F) (r : Result String)
      → contains enabled "stt" ≡ true
      → run.response.stages ≡ []
      → IsRun r
          (after_stt services clock enabled filename audio
            (log_event clock "stage.start" "stt" [] run)
            r).0
  unfolding write_error stage_done log_event
  after_stt-IsRun run (err e) hb hs = (refl, hb, e, refl, refl)
  after_stt-IsRun run (ok transcript) hb hs =
      finish-IsRun (ok transcript) _ (rw (hb) refl)
        (rw (hb, names-append run.response.stages _, hs) refl)

  if-IsRun :
      (b : Bool) (stt : Result String) (x y : Response (PipelineResponse F) × List Event)
      → (b ≡ true → IsRun stt x.0)
      → (b ≡ false → IsRun stt y.0)
      → IsRun stt (if b then x else y).0
  if-IsRun true stt x y f g = f refl
  if-IsRun false stt x y f g = g refl

  -- Transcription is required and the other stages are not: a request with audio is answered 502,
  -- with Whisper's reason, exactly if the transcription is enabled and fails. In any other case it
  -- is answered 200, the transcript is that of Whisper (empty if the stage is not enabled), and
  -- the response reports, in this order, the transcription if it is enabled, the diarization if it
  -- is enabled and has a backend, and the summary if it is enabled and has a backend and there is
  -- a transcript, whether these two succeed or not.
  pub run_stages-IsRun :
      (form : Form) (run : Run F)
      → run.response.stages ≡ []
      → run.response.transcript ≡ ""
      → IsRun
          (run_stt services filename audio (form.value "model") (form.value "language"))
          (run_stages services clock form enabled filename audio run).0
  unfolding run_stages
  run_stages-IsRun form run hs ht =
      let stt = run_stt services filename audio (form.value "model") (form.value "language") in
      if-IsRun (contains enabled "stt") stt
        (after_stt services clock enabled filename audio
          (log_event clock "stage.start" "stt" [] run) stt)
        (finish services clock enabled filename audio run) (λ hb. after_stt-IsRun run stt hb hs)
        (λ hb. finish-IsRun stt run (rw (hb, ht) refl) (rw (hb, hs) refl))
