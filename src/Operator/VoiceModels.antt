-- ===== src/Operator/VoiceModels.antt =====
-- VoiceModel: operator/api/v1alpha1/voicemodel_types.go, and the builders and helpers of
-- operator/internal/controller/voicemodel_controller.go. A Go map with text keys is a list of
-- pairs in the order of insertion; a resource quantity is the text that is parsed.
pub mod Types
pub mod Build
pub mod Defaults
pub mod Reconcile
mod Tests
pub use Types.*
use voxplatform.Prelude.{
  ℕ, ℤ, pos, is_pos, show_ℤ, String, Bool, true, false, Option, none, some, List, [], ◌∷◌,
  if◌then◌else◌, ◌=s◌, ◌+s◌,
}
use voxplatform.Operator.Api.{Key, VoiceModelPhase}

abbrev pub default_cpu_image : String
default_cpu_image = "fedirz/faster-whisper-server:0.3.0-cpu"

abbrev pub default_gpu_image : String
default_gpu_image = "fedirz/faster-whisper-server:0.3.0-cuda"

pub deployment_name : VoiceModel → String
deployment_name vm = "vox-" +s vm.key.name

pub service_name : VoiceModel → String
service_name vm = "vox-" +s vm.key.name

pub get_port : VoiceModel → ℤ
get_port vm = if is_pos vm.spec.port then vm.spec.port else pos 8000

pub labels_for_voice_model : VoiceModel → Labels
labels_for_voice_model vm =
    ("app.kubernetes.io/name", "voicemodel")
    ∷ ("app.kubernetes.io/instance", vm.key.name)
    ∷ ("app.kubernetes.io/managed-by", "voxplatform-operator")
    ∷ ("vox.io/model", vm.key.name)
    ∷ []

pub default_resources : String → ResourceRequirements
default_resources device =
    if device =s "gpu"
    then record {
      requests = ("cpu", "1") ∷ ("memory", "4Gi") ∷ ("nvidia.com/gpu", "1") ∷ [];
      limits = ("cpu", "4") ∷ ("memory", "8Gi") ∷ ("nvidia.com/gpu", "1") ∷ [];
    }
    else record {
      requests = ("cpu", "500m") ∷ ("memory", "1Gi") ∷ [];
      limits = ("cpu", "1500m") ∷ ("memory", "3Gi") ∷ [];
    }

abbrev pub wanted_replicas : Option ℤ → ℤ
wanted_replicas none = pos 1
wanted_replicas (some n) = n

pub image_of : VoiceModelSpec → String
image_of spec =
    if spec.image =s ""
    then (if spec.device =s "gpu" then default_gpu_image else default_cpu_image)
    else spec.image

abbrev positive_or : ℤ → ℤ → ℤ
positive_or n fallback = if is_pos n then n else fallback

-- The health path, the initial delay and the period, each with its default.
pub probe_of : Option HealthConfig → Probe
probe_of none = record {
  path = "/health";
  port_name = "http";
  initial_delay_seconds = pos 60;
  period_seconds = pos 10;
}
probe_of (some h) = record {
  path = if h.path =s "" then "/health" else h.path;
  port_name = "http";
  initial_delay_seconds = positive_or h.initial_delay_seconds (pos 60);
  period_seconds = positive_or h.period_seconds (pos 10);
}

abbrev pub resources_of : VoiceModelSpec → Option ResourceRequirements → ResourceRequirements
resources_of spec none = default_resources spec.device
resources_of spec (some r) = r

abbrev pub metrics_enabled : Option Bool → Bool
metrics_enabled none = true
metrics_enabled (some b) = b

pub annotations_of : VoiceModel → List (String × String)
unfolding get_port
annotations_of vm =
    if metrics_enabled vm.spec.metrics
    then ("prometheus.io/scrape", "true")
      ∷ ("prometheus.io/port", show_ℤ (get_port vm))
      ∷ ("prometheus.io/path", "/metrics")
      ∷ []
    else []

pub build_deployment : VoiceModel → Deployment
unfolding deployment_name get_port labels_for_voice_model default_resources image_of probe_of
    annotations_of
build_deployment vm = record {
  key = record { namespace = vm.key.namespace; name = deployment_name vm };
  labels = labels_for_voice_model vm;
  owner = none;
  spec = record {
    replicas = wanted_replicas vm.spec.replicas;
    selector = labels_for_voice_model vm;
    pod_labels = labels_for_voice_model vm;
    pod_annotations = annotations_of vm;
    containers =
        record {
          name = "inference";
          image = image_of vm.spec;
          image_pull_policy = "IfNotPresent";
          ports = record { name = "http"; container_port = get_port vm; protocol = "TCP" } ∷ [];
          env =
              ("WHISPER__MODEL", vm.spec.model)
              ∷ ("WHISPER__INFERENCE_DEVICE", vm.spec.device)
              ∷ ("WHISPER__COMPUTE_TYPE", vm.spec.quantization)
              ∷ [];
          resources = resources_of vm.spec vm.spec.resources;
          readiness_probe = probe_of vm.spec.health;
          liveness_probe = probe_of vm.spec.health;
        }
        ∷ [];
  };
}

pub build_service : VoiceModel → Service
unfolding service_name get_port labels_for_voice_model
build_service vm = record {
  key = record { namespace = vm.key.namespace; name = service_name vm };
  labels = labels_for_voice_model vm;
  owner = none;
  spec = record {
    type = "ClusterIP";
    selector = labels_for_voice_model vm;
    cluster_ip = "";
    ports =
        record { name = "http"; port = get_port vm; target_port = "http"; protocol = "TCP" } ∷ [];
  };
}
