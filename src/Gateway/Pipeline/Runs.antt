-- ===== src/Gateway/Pipeline/Runs.antt =====
-- The events of a run of the pipeline stages.
use mathlib.Core.List.{append_assoc}
use voxplatform.Prelude.{
  ◌≡◌, refl, ap, ◌∙◌, String, Bool, true, false, not, ◌&&◌, List, [], ◌∷◌, ◌++◌, if◌then◌else◌,
  ◌=s◌, All, All-append,
}
use voxplatform.Gateway.Wav.{Bytes}
use voxplatform.Gateway.Http.{Result, ok, err}
use voxplatform.Gateway.EventLog.{Event, Value}
use voxplatform.Gateway.Pipeline.{
  StageResult, PipelineResponse, SpeakerSegment, Services, Clock, Run, log_event, stage_failed,
  stage_done, after_diarize, stage_diarize, after_summarize, stage_summarize, contains, run_diarize,
  run_summarize,
}

abbrev pub label : Event → String × String
label e = (e.type, e.stage)

abbrev pub start_label : String → String × String
start_label stage = ("stage.start", stage)

abbrev pub end_label : String → StageResult → String × String
end_label stage r = (if r.success then "stage.complete" else "stage.error", stage)

-- The type and the stage of each event.
abbrev pub labels : List Event → List (String × String)
labels [] = []
labels (e ∷ es) = label e ∷ labels es

-- The events of the stages that a response reports: each starts, and then completes or fails.
abbrev pub reported : List (String × StageResult) → List (String × String)
reported [] = []
reported ((stage, r) ∷ stages) = start_label stage ∷ end_label stage r ∷ reported stages

pub labels-append : (es fs : List Event) → labels (es ++ fs) ≡ labels es ++ labels fs
labels-append [] fs = refl
labels-append (e ∷ es) fs = ap (λ (t : List (String × String)). label e ∷ t) (labels-append es fs)

reported-append :
    (xs ys : List (String × StageResult)) → reported (xs ++ ys) ≡ reported xs ++ reported ys
reported-append [] ys = refl
reported-append ((s, r) ∷ xs) ys =
    ap (λ (t : List (String × String)). start_label s ∷ end_label s r ∷ t) (reported-append xs ys)

-- The events carry the id of the request.
abbrev pub IsCarried : String → List Event → Type 0
IsCarried id es = All (λ e. e.request_id ≡ id) es

module _ {F : Type 0} (services : Services F) (clock : Clock) (id : String) where
  -- The events of the request `id` so far report the stages so far.
  abbrev pub IsLogged : Run F → Type 0
  IsLogged run =
      (labels run.events ≡ ("pipeline.start", "") ∷ reported run.response.stages)
      × (run.response.request_id ≡ id)
      × IsCarried id run.events

  abbrev start_stage : String → Run F → Run F
  start_stage stage run = log_event clock "stage.start" stage [] run

  -- The labels and the stages, each with two or one more.
  two_more :
      (stage : String) (r : StageResult) (es : List Event) (stages : List (String × StageResult))
      (e f : Event)
      → labels es ≡ ("pipeline.start", "") ∷ reported stages
      → label e ≡ start_label stage
      → label f ≡ end_label stage r
      → labels ((es ++ e ∷ []) ++ f ∷ [])
        ≡ ("pipeline.start", "") ∷ reported (stages ++ (stage, r) ∷ [])
  two_more stage r es stages e f h he hf =
      rw
        (
          labels-append (es ++ e ∷ []) (f ∷ []),
          labels-append es (e ∷ []),
          h,
          he,
          hf,
          reported-append stages ((stage, r) ∷ []),
        )
        (append_assoc (("pipeline.start", "") ∷ reported stages) _ _)

  two_more-IsCarried :
      (es : List Event) (e f : Event)
      → IsCarried id es
      → e.request_id ≡ id
      → f.request_id ≡ id
      → IsCarried id ((es ++ e ∷ []) ++ f ∷ [])
  two_more-IsCarried es e f h he hf =
      All-append _ (es ++ e ∷ []) (f ∷ []) (All-append _ es (e ∷ []) h (he, tt)) (hf, tt)

  pub stage_failed-IsLogged :
      (stage e : String) (run : Run F)
      → IsLogged run
      → IsLogged (stage_failed clock stage e (start_stage stage run))
  unfolding stage_failed log_event
  stage_failed-IsLogged stage e run h = (
    two_more stage _ run.events run.response.stages _ _ h.0 refl refl,
    h.1,
    two_more-IsCarried run.events _ _ h.2 h.1 h.1,
  )

  pub stage_done-IsLogged :
      (stage : String) (values : List (String × Value)) (response : PipelineResponse F)
      (run : Run F)
      → response.stages ≡ run.response.stages
      → response.request_id ≡ run.response.request_id
      → IsLogged run
      → IsLogged (stage_done clock stage values response (start_stage stage run))
  unfolding stage_done log_event
  stage_done-IsLogged stage values response run hs hr h = (
    rw (hs) (two_more stage _ run.events run.response.stages _ _ h.0 refl refl),
    hr ∙ h.1,
    two_more-IsCarried run.events _ _ h.2 h.1 (hr ∙ h.1),
  )

  if-IsLogged :
      (b : Bool) (run run' : Run F)
      → IsLogged run
      → IsLogged run'
      → IsLogged (if b then run else run')
  if-IsLogged true run run' h h' = h
  if-IsLogged false run run' h h' = h'

  after_diarize-IsLogged :
      (r : Result (List (SpeakerSegment F))) (run : Run F)
      → IsLogged run
      → IsLogged (after_diarize services clock r (start_stage "diarize" run))
  unfolding log_event
  after_diarize-IsLogged (err e) run h = stage_failed-IsLogged "diarize" e run h
  after_diarize-IsLogged (ok segments) run h =
      stage_done-IsLogged "diarize" _ (record (run.response) { segments = segments }) run refl refl
        h

  pub stage_diarize-IsLogged :
      (enabled : List String) (filename : String) (audio : Bytes) (run : Run F)
      → IsLogged run
      → IsLogged (stage_diarize services clock enabled filename audio run)
  unfolding stage_diarize
  stage_diarize-IsLogged enabled filename audio run h =
      if-IsLogged (contains enabled "diarize" && not (services.diarizer_url =s ""))
        (after_diarize services clock (run_diarize services filename audio)
          (start_stage "diarize" run))
        run (after_diarize-IsLogged (run_diarize services filename audio) run h) h

  after_summarize-IsLogged :
      (r : Result String) (run : Run F)
      → IsLogged run
      → IsLogged (after_summarize services clock r (start_stage "summarize" run))
  unfolding log_event
  after_summarize-IsLogged (err e) run h = stage_failed-IsLogged "summarize" e run h
  after_summarize-IsLogged (ok summary) run h =
      stage_done-IsLogged "summarize" _ (record (run.response) { summary = summary }) run refl refl
        h

  pub stage_summarize-IsLogged :
      (enabled : List String) (run : Run F)
      → IsLogged run
      → IsLogged (stage_summarize services clock enabled run)
  unfolding stage_summarize
  stage_summarize-IsLogged enabled run h =
      let summary = run_summarize services run.response.transcript run.response.segments in
      if-IsLogged
        (contains enabled "summarize"
          && not (services.summarizer_url =s "")
          && not (run.response.transcript =s ""))
        (after_summarize services clock summary (start_stage "summarize" run)) run
        (after_summarize-IsLogged summary run h) h
