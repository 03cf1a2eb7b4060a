-- ===== src/Operator/Pipelines/Types.antt =====
-- The types of operator/api/v1alpha1/inferencepipeline_types.go, and the API server.
use voxplatform.Prelude.{ℕ, String, Bool, Option, List}
use voxplatform.Operator.Api.{ApiError, Reply, Key, VoiceModelPhase}

-- The fields of a VoiceModel that this controller reads.
pub record ModelStatus : Type 0 where
  pub phase : VoiceModelPhase
  pub endpoint : String

-- `enabled` is the pointer `Enabled`.
pub record PipelineStage : Type 0 where
  pub name : String
  pub model : String
  pub enabled : Option Bool

pub record PipelineStageStatus : Type 0 where
  pub name : String
  pub model_ref : String
  pub ready : Bool
  pub endpoint : String
  pub message : String

pub data InferencePipelinePhase : Type 0 where
  unset pending validating ready degraded failed : InferencePipelinePhase

pub record InferencePipelineStatus : Type 0 where
  pub phase : InferencePipelinePhase
  pub stages : List PipelineStageStatus
  pub message : String
  pub last_transition_time : Option ℕ

pub record InferencePipeline : Type 0 where
  pub key : Key
  pub deleting : Bool
  pub stages : List PipelineStage
  pub status : InferencePipelineStatus

-- The API server as this controller uses it: reads, the update of the status subresource with the
-- state after it, and the text of an error.
pub record PipelineApi (S : Type 0) : Type 0 where
  pub get_pipeline : Key → S → Reply InferencePipeline
  pub get_model : Key → S → Reply ModelStatus
  pub update_status : InferencePipeline → S → Reply (Unit {0}) × S
  pub describe : ApiError → String

pub InferencePipelinePhase-discrete : Discrete InferencePipelinePhase
InferencePipelinePhase-discrete = hlevel
