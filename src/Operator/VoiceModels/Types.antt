-- ===== src/Operator/VoiceModels/Types.antt =====
-- The types of operator/api/v1alpha1/voicemodel_types.go, and of the objects that are built.
use voxplatform.Prelude.{ℕ, ℤ, String, Bool, Option, List}
use voxplatform.Operator.Api.{Key, VoiceModelPhase}

abbrev pub Labels : Type 0
Labels = List (String × String)

pub record ResourceRequirements : Type 0 where
  pub requests : List (String × String)
  pub limits : List (String × String)

pub record HealthConfig : Type 0 where
  pub path : String
  pub initial_delay_seconds : ℤ
  pub period_seconds : ℤ

pub record VoiceModelSpec : Type 0 where
  pub model : String
  pub replicas : Option ℤ
  pub device : String
  pub quantization : String
  pub image : String
  pub resources : Option ResourceRequirements
  pub port : ℤ
  pub health : Option HealthConfig
  pub metrics : Option Bool

pub record VoiceModelStatus : Type 0 where
  pub phase : VoiceModelPhase
  pub ready_replicas : ℤ
  pub endpoint : String
  pub message : String
  pub last_transition_time : Option ℕ

pub record VoiceModel : Type 0 where
  pub key : Key
  pub finalizers : List String
  pub deleting : Bool
  pub spec : VoiceModelSpec
  pub status : VoiceModelStatus

pub record Probe : Type 0 where
  pub path : String
  pub port_name : String
  pub initial_delay_seconds : ℤ
  pub period_seconds : ℤ

pub record ContainerPort : Type 0 where
  pub name : String
  pub container_port : ℤ
  pub protocol : String

pub record Container : Type 0 where
  pub name : String
  pub image : String
  pub image_pull_policy : String
  pub ports : List ContainerPort
  pub env : List (String × String)
  pub resources : ResourceRequirements
  pub readiness_probe : Probe
  pub liveness_probe : Probe

pub record DeploymentSpec : Type 0 where
  pub replicas : ℤ
  pub selector : Labels
  pub pod_labels : Labels
  pub pod_annotations : List (String × String)
  pub containers : List Container

pub record Deployment : Type 0 where
  pub key : Key
  pub labels : Labels
  pub owner : Option Key
  pub spec : DeploymentSpec

pub record ServicePort : Type 0 where
  pub name : String
  pub port : ℤ
  pub target_port : String
  pub protocol : String

pub record ServiceSpec : Type 0 where
  pub type : String
  pub selector : Labels
  pub cluster_ip : String
  pub ports : List ServicePort

pub record Service : Type 0 where
  pub key : Key
  pub labels : Labels
  pub owner : Option Key
  pub spec : ServiceSpec
