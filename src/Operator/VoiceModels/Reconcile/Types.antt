-- ===== src/Operator/VoiceModels/Reconcile/Types.antt =====
-- What the reconciler of VoiceModels reads and writes, and the API server.
use voxplatform.Prelude.{ℤ, String, Bool, List}
use voxplatform.Operator.Api.{ApiError, Reply, Key}
use voxplatform.Operator.VoiceModels.{VoiceModel, Deployment, Service}

pub record Condition : Type 0 where
  pub type : String
  pub status : String
  pub message : String

-- A Deployment as it is read: with its status.
pub record SeenDeployment : Type 0 where
  pub deployment : Deployment
  pub ready_replicas : ℤ
  pub conditions : List Condition

pub data Effect : Type 0 where
  updated_model : VoiceModel → Effect
  created_deployment updated_deployment : Deployment → Effect
  created_service updated_service : Service → Effect
  wrote_status : VoiceModel → Effect

-- `update` decodes the server's object into the caller's. The finalizer functions and the owner
-- reference are those of controller-runtime.
pub record Cluster : Type 0 where
  pub get_model : List Effect → Key → Reply VoiceModel
  pub get_deployment : List Effect → Key → Reply SeenDeployment
  pub get_service : List Effect → Key → Reply Service
  pub update_model : List Effect → VoiceModel → Reply VoiceModel
  pub accept : List Effect → Effect → Reply (Unit {0})
  pub contains_finalizer : List String → String → Bool
  pub add_finalizer : List String → String → List String
  pub remove_finalizer : List String → String → List String
  pub controller_reference : VoiceModel → Reply Key
  pub describe : ApiError → String
