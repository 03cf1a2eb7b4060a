-- ===== src/Operator/Pipelines.antt =====
-- InferencePipeline: operator/api/v1alpha1/inferencepipeline_types.go and
-- operator/internal/controller/inferencepipeline_controller.go. The API server is a record of
-- parameters.
pub mod Types
pub mod Phases
pub mod Stages
pub mod Defaults
pub mod Requests
pub mod Writes
pub mod Queue
mod Tests
pub use Types.*
use voxplatform.Prelude.{
  ℕ, zero, suc, ◌+◌, String, Bool, true, false, ◌&&◌, Option, none, some, List, [], ◌∷◌, ◌++◌, ltb,
  ◌==◌, if◌then◌else◌, ◌=s◌, ◌+s◌, show_ℕ,
}
use voxplatform.Operator.Api.{
  ApiError, is_not_found, Reply, ok, err, Key, Outcome, requeue_after, error, done, ten_seconds,
  VoiceModelPhase, phase_text,
}

abbrev pub is_enabled : Option Bool → Bool
is_enabled none = true
is_enabled (some b) = b

abbrev is_ready : VoiceModelPhase → Bool
is_ready VoiceModelPhase.ready = true
is_ready _ = false

abbrev or_pending : VoiceModelPhase → String
or_pending VoiceModelPhase.unset = "Pending"
or_pending p = phase_text p

abbrev disabled_status : PipelineStage → PipelineStageStatus
disabled_status stage = record {
  name = stage.name;
  model_ref = stage.model;
  ready = false;
  endpoint = "";
  message = "stage disabled";
}

abbrev status_of : PipelineStage → String → PipelineStageStatus
status_of stage message = record {
  name = stage.name;
  model_ref = stage.model;
  ready = false;
  endpoint = "";
  message = message;
}

abbrev found_status : PipelineStage → ModelStatus → PipelineStageStatus
found_status stage vm =
    if is_ready vm.phase
    then record {
      name = stage.name;
      model_ref = stage.model;
      ready = true;
      endpoint = vm.endpoint;
      message = "ready";
    }
    else status_of stage ("VoiceModel phase: " +s or_pending vm.phase)

module _ {S : Type 0} (api : PipelineApi S) where
  -- What resolveStage makes of the reply for the stage's VoiceModel.
  pub stage_status : PipelineStage → Reply ModelStatus → PipelineStageStatus
  stage_status stage (ok vm) = found_status stage vm
  stage_status stage (err e) =
      if is_not_found e
      then status_of stage "VoiceModel not found"
      else status_of stage ("error fetching VoiceModel: " +s api.describe e)

  pub resolve_stage : S → PipelineStage → String → PipelineStageStatus
  unfolding stage_status
  resolve_stage s stage namespace =
      stage_status stage (api.get_model (record { namespace = namespace; name = stage.model }) s)

-- The variables of the loop in reconcileStages.
pub record Tally : Type 0 where
  pub statuses : List PipelineStageStatus
  pub ready_count : ℕ
  pub enabled_count : ℕ
  pub has_missing : Bool

abbrev pub no_tally : Tally
no_tally = record { statuses = []; ready_count = 0; enabled_count = 0; has_missing = false }

abbrev count_status : Tally → PipelineStageStatus → Tally
count_status t status = record {
  statuses = t.statuses ++ status ∷ [];
  ready_count = if status.ready then t.ready_count + 1 else t.ready_count;
  enabled_count = t.enabled_count + 1;
  has_missing = if status.message =s "VoiceModel not found" then true else t.has_missing;
}

module _ {S : Type 0} (api : PipelineApi S) where
  pub tally_stage : S → String → Tally → PipelineStage → Tally
  unfolding resolve_stage
  tally_stage s namespace t stage =
      if is_enabled stage.enabled
      then count_status t (resolve_stage api s stage namespace)
      else record t { statuses = t.statuses ++ disabled_status stage ∷ [] }

  pub tally_stages : S → String → Tally → List PipelineStage → Tally
  unfolding tally_stage
  tally_stages s namespace t [] = t
  tally_stages s namespace t (stage ∷ stages) =
      tally_stages s namespace (tally_stage s namespace t stage) stages

-- The `switch` on the loop's variables.
pub aggregate_phase : Tally → InferencePipelinePhase
aggregate_phase t =
    if t.has_missing
    then failed
    else if t.enabled_count == 0
    then ready
    else if t.ready_count == t.enabled_count
    then ready
    else if ltb 0 t.ready_count
    then degraded
    else validating

pub aggregate_message : Tally → String
aggregate_message t =
    if t.has_missing
    then "one or more referenced VoiceModels do not exist"
    else if t.enabled_count == 0
    then "no enabled stages"
    else if t.ready_count == t.enabled_count
    then show_ℕ t.ready_count +s "/" +s show_ℕ t.enabled_count +s " stages ready"
    else if ltb 0 t.ready_count
    then show_ℕ t.ready_count +s "/" +s show_ℕ t.enabled_count +s " stages ready"
    else "0/" +s show_ℕ t.enabled_count +s " stages ready, waiting for VoiceModels"

abbrev pub same_phase : InferencePipelinePhase → InferencePipelinePhase → Bool
same_phase unset unset = true
same_phase pending pending = true
same_phase validating validating = true
same_phase ready ready = true
same_phase degraded degraded = true
same_phase failed failed = true
same_phase _ _ = false

abbrev is_settled : InferencePipelinePhase → Bool
is_settled ready = true
is_settled failed = true
is_settled _ = false

abbrev pub with_status :
    ℕ
    → InferencePipeline
    → InferencePipelinePhase
    → String
    → List PipelineStageStatus
    → InferencePipeline
with_status now pipeline phase message stages = record pipeline {
  status = record {
    phase = phase;
    stages = stages;
    message = message;
    last_transition_time =
        if same_phase pipeline.status.phase phase
        then pipeline.status.last_transition_time
        else some now;
  };
}

module _ {S : Type 0} (api : PipelineApi S) where
  abbrev answer : InferencePipelinePhase → Reply (Unit {0}) × S → Outcome × S
  answer phase (ok _, s) = (if is_settled phase then done else requeue_after ten_seconds, s)
  answer phase (err e, s) = (error ("updating InferencePipeline status: " +s api.describe e), s)

  pub set_pipeline_status :
      ℕ
      → InferencePipeline
      → InferencePipelinePhase
      → String
      → List PipelineStageStatus
      → S
      → Outcome × S
  set_pipeline_status now pipeline phase message stages s =
      answer phase (api.update_status (with_status now pipeline phase message stages) s)

  pub reconcile_stages : ℕ → InferencePipeline → S → Outcome × S
  unfolding tally_stages aggregate_phase aggregate_message set_pipeline_status
  reconcile_stages now pipeline s =
      let t = tally_stages api s pipeline.key.namespace no_tally pipeline.stages in
      set_pipeline_status now pipeline (aggregate_phase t) (aggregate_message t) t.statuses s

  abbrev reconcile_found : ℕ → S → Reply InferencePipeline → Outcome × S
  unfolding reconcile_stages
  reconcile_found now s (ok pipeline) =
      if pipeline.deleting then (done, s) else reconcile_stages now pipeline s
  reconcile_found now s (err e) =
      if is_not_found e
      then (done, s)
      else (error ("fetching InferencePipeline: " +s api.describe e), s)

  pub reconcile : ℕ → Key → S → Outcome × S
  unfolding reconcile_stages
  reconcile now key s = reconcile_found now s (api.get_pipeline key s)

-- The inner loop, left by `break` at the first stage that names the model.
pub references : String → List PipelineStage → Bool
references model [] = false
references model (stage ∷ stages) = if stage.model =s model then true else references model stages

-- The outer loop over the listed pipelines.
pub collect_requests : String → List InferencePipeline → List Key
unfolding references
collect_requests model [] = []
collect_requests model (p ∷ ps) =
    let rest = collect_requests model ps in if references model p.stages then p.key ∷ rest else rest

-- mapVoiceModelToPipelines on a VoiceModel; the list call is the argument.
pub map_voice_model_to_pipelines : (String → Reply (List InferencePipeline)) → Key → List Key
unfolding collect_requests
map_voice_model_to_pipelines list_in vm = elim (list_in vm.namespace) [
  | ok pipelines ↦ collect_requests vm.name pipelines
  | err e ↦ []
]
