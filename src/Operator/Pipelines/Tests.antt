-- ===== src/Operator/Pipelines/Tests.antt =====
-- A pipeline of three stages on an API server that knows two VoiceModels.
use voxplatform.Prelude.{
  ◌≡◌, ◌≢◌, ◌↔◌, ◌⊎◌, refl, String, Bool, true, false, Option, none, some, List, [], ◌∷◌,
  if◌then◌else◌, ◌=s◌, All, ◌+s◌,
}
use voxplatform.Operator.Api.{
  ApiError, not_found, already_exists, other, Reply, ok, err, requeue_after, done, error,
  ten_seconds, VoiceModelPhase,
}
use voxplatform.Operator.Pipelines.{
  ModelStatus, PipelineStage, PipelineApi, unset, ready, degraded, failed, validating,
  InferencePipeline, tally_stages, reconcile,
}
use voxplatform.Operator.Pipelines.Phases.{
  Any, IsServed, IsServing, IsLacking, phase_of, phase_of_lem,
}
use voxplatform.Operator.Pipelines.Writes.{written, reconcile_lem}

abbrev stage : String → String → Option Bool → PipelineStage
stage name model on = record { name = name; model = model; enabled = on }

abbrev three : List PipelineStage
three =
    stage "stt" "a" none ∷ stage "diarize" "b" (some true) ∷ stage "summarize" "c" (some false) ∷ []

abbrev trio : InferencePipeline
trio = record {
  key = record { namespace = "vox"; name = "trio" };
  deleting = false;
  stages = three;
  status = record { phase = unset; stages = []; message = ""; last_transition_time = none };
}

-- The state says whether VoiceModel b is Ready; a is, and c does not exist.
abbrev model : String → Bool → Reply ModelStatus
model name up =
    if name =s "a"
    then ok (record { phase = VoiceModelPhase.ready; endpoint = "a:1" })
    else if name =s "b"
    then ok (record {
      phase = if up then VoiceModelPhase.ready else VoiceModelPhase.failed;
      endpoint = "b:1";
    })
    else err not_found

abbrev describe : ApiError → String
describe not_found = "not found"
describe already_exists = "exists"
describe (other m) = m

abbrev api : PipelineApi Bool
api = record {
  get_pipeline = λ k s. ok trio;
  get_model = λ k s. if k.namespace =s "vox" then model k.name s else err not_found;
  update_status = λ p s. (ok tt, s);
  describe = describe;
}

phases_run :
    (phase_of api false "vox" three ≡ degraded)
    × (phase_of api true "vox" three ≡ ready)
    × (phase_of api true "vox" (stage "stt" "c" none ∷ three) ≡ failed)
    × (phase_of api false "vox" (stage "stt" "b" none ∷ []) ≡ validating)
unfolding tally_stages reconcile
phases_run = (refl, refl, refl, refl)

phase_of_lem_example :
    ((phase_of api true "vox" three ≡ ready) ↔ All (IsServed api true "vox") three)
    × ((phase_of api true "vox" three ≡ failed) ↔ Any (IsLacking api true "vox") three)
    × ((phase_of api true "vox" three ≡ degraded) ↔ (
        (¬ Any (IsLacking api true "vox") three)
        × Any (IsServing api true "vox") three
        × (¬ All (IsServed api true "vox") three)))
    × ((phase_of api true "vox" three ≡ validating) ↔ (
        (¬ Any (IsLacking api true "vox") three)
        × (¬ Any (IsServing api true "vox") three)
        × (¬ All (IsServed api true "vox") three)))
phase_of_lem_example = phase_of_lem api true "vox" three

abbrev result : InferencePipeline
result = written api 5 trio.key true trio refl refl

reconcile_lem_example :
    (api.update_status result true ≡ (ok tt, true)
      → ((reconcile api 5 trio.key true ≡ (done, true))
          × ((result.status.phase ≡ ready) ⊎ (result.status.phase ≡ failed)))
        ⊎ ((reconcile api 5 trio.key true ≡ (requeue_after ten_seconds, true))
            × (result.status.phase ≢ ready)
            × (result.status.phase ≢ failed)))
    × ((e : ApiError)
        → api.update_status result true ≡ (err e, true)
        → reconcile api 5 trio.key true
          ≡ (error ("updating InferencePipeline status: " +s describe e), true))
    × ((result.status.phase ≡ unset) → result.status.last_transition_time ≡ none)
    × ((result.status.phase ≢ unset) → result.status.last_transition_time ≡ some 5)
reconcile_lem_example = reconcile_lem api 5 trio.key true trio refl refl true
