-- ===== src/Operator/EvalRuns/Types.antt =====
-- The types of operator/api/v1alpha1/evalrun_types.go, and what the controller writes and reads of
-- a Workflow.
use voxplatform.Prelude.{ℕ, ℤ, String, Bool, Option, List}
use voxplatform.Operator.Api.{ApiError, Reply, Key}

pub record EvalRunSpec : Type 0 where
  pub dataset : String
  pub gateway_url : String
  pub model : String
  pub image : String
  pub wer_threshold : String
  pub timeout_seconds : Option ℤ
  pub suspend : Bool

pub data EvalRunPhase : Type 0 where
  unset pending running succeeded failed : EvalRunPhase

pub record EvalRunStatus : Type 0 where
  pub phase : EvalRunPhase
  pub workflow_ref : String
  pub corpus_wer : String
  pub mean_wer : String
  pub passed : Option Bool
  pub total_samples : ℤ
  pub message : String
  pub start_time : Option ℕ
  pub completion_time : Option ℕ

pub record EvalRun : Type 0 where
  pub key : Key
  pub deleting : Bool
  pub spec : EvalRunSpec
  pub status : EvalRunStatus

-- The subset of the eval report that the controller reads.
pub record EvalReport (W : Type 0) : Type 0 where
  pub passed : Bool
  pub corpus_wer : W
  pub mean_wer : W
  pub total_samples : ℤ

-- The keys that buildWorkflow sets in the unstructured object.
pub record OutputParameter : Type 0 where
  pub name : String
  pub path : String

pub record Template : Type 0 where
  pub name : String
  pub image : String
  pub command : List String
  pub args : List String
  pub parameters : List OutputParameter

pub record NewWorkflow : Type 0 where
  pub key : Key
  pub labels : List (String × String)
  pub owner : Option Key
  pub entrypoint : String
  pub active_deadline_seconds : ℤ
  pub templates : List Template

-- What is read back: `parameters` is `none` if status.outputs.parameters is missing or no list.
-- An output parameter is no object, or an object whose name and value are texts or not.
pub data Parameter : Type 0 where
  no_object : Parameter
  object : Option String → Option String → Parameter

pub record SeenWorkflow : Type 0 where
  pub name : String
  pub phase : String
  pub parameters : Option (List Parameter)

pub record EvalApi (S W : Type 0) : Type 0 where
  pub get_eval_run : Key → S → Reply EvalRun
  pub get_workflow : Key → S → Reply SeenWorkflow
  pub create_workflow : NewWorkflow → S → Reply (Unit {0}) × S
  pub update_status : EvalRun → S → Reply (Unit {0}) × S
  pub controller_reference : EvalRun → Reply Key
  pub describe : ApiError → String
  pub decode_report : String → Option (EvalReport W)
  pub show_wer : W → String
