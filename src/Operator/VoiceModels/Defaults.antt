-- ===== src/Operator/VoiceModels/Defaults.antt =====
-- The defaults that the markers of operator/api/v1alpha1/voicemodel_types.go declare, which the API
-- server fills in, and those that the controller falls back on. The types leave out an empty text,
-- a 0 and a nil pointer when they are encoded, so that these are the absent fields.
use voxplatform.Prelude.{
  List, [], ◌∷◌, map, ℕ, zero, suc, ℤ, pos, negsuc, ◌≡◌, refl, inl, inr, String, Bool, true, Option,
  none, some, Bool-cases, arith, ◌=s◌, text_eq→eq,
}
use voxplatform.Operator.Api.{or_text, or_else, or_text-or_text}
use voxplatform.Operator.VoiceModels.{
  positive_or, metrics_enabled, Container, ResourceRequirements, HealthConfig, VoiceModelSpec,
  VoiceModel, Deployment, probe_of, image_of, get_port, default_resources, resources_of,
  build_deployment, build_service, wanted_replicas,
}

abbrev pub or_number : ℕ → ℤ → ℤ
or_number fallback (pos zero) = pos fallback
or_number fallback n = n

abbrev pub health_defaults : Option HealthConfig → Option HealthConfig
health_defaults none = none
health_defaults (some h) = some (record {
  path = or_text "/health" h.path;
  initial_delay_seconds = or_number 60 h.initial_delay_seconds;
  period_seconds = or_number 10 h.period_seconds;
})

abbrev pub spec_defaults : VoiceModelSpec → VoiceModelSpec
spec_defaults spec = record spec {
  replicas = or_else (pos 1) spec.replicas;
  device = or_text "cpu" spec.device;
  quantization = or_text "int8" spec.quantization;
  port = or_number 8000 spec.port;
  health = health_defaults spec.health;
  metrics = or_else true spec.metrics;
}

abbrev pub with_defaults : VoiceModel → VoiceModel
with_defaults vm = record vm { spec = spec_defaults vm.spec }

-- A Deployment whose containers have this environment.
abbrev pub with_env : List (String × String) → Deployment → Deployment
with_env env d = record d {
  spec = record (d.spec) {
    containers = map (λ (c : Container). record c { env = env }) d.spec.containers;
  };
}

abbrev pub default_env : VoiceModelSpec → List (String × String)
default_env spec =
    ("WHISPER__MODEL", spec.model)
    ∷ ("WHISPER__INFERENCE_DEVICE", or_text "cpu" spec.device)
    ∷ ("WHISPER__COMPUTE_TYPE", or_text "int8" spec.quantization)
    ∷ []

wanted_replicas-or_else : (r : Option ℤ) → wanted_replicas (or_else (pos 1) r) ≡ wanted_replicas r
wanted_replicas-or_else none = refl
wanted_replicas-or_else (some n) = refl

positive_or-or_number :
    (k : ℕ) (n : ℤ) → positive_or (or_number k n) (pos k) ≡ positive_or n (pos k)
positive_or-or_number zero (pos zero) = refl
positive_or-or_number (suc k) (pos zero) = ground arith
positive_or-or_number k (pos (suc n)) = ground arith
positive_or-or_number k (negsuc n) = refl

gpu-or_text : (d : String) → (or_text "cpu" d =s "gpu") ≡ (d =s "gpu")
gpu-or_text d = elim (Bool-cases (d =s "")) [
  | inl empty ↦ rw (text_eq→eq d "" empty)
  | inr given ↦ rw given
]

probe_of-health_defaults : (h : Option HealthConfig) → probe_of (health_defaults h) ≡ probe_of h
unfolding probe_of
probe_of-health_defaults none = refl
probe_of-health_defaults (some h) = rw (
  or_text-or_text "/health" h.path,
  positive_or-or_number 60 h.initial_delay_seconds,
  positive_or-or_number 10 h.period_seconds,
)

get_port-with_defaults : (vm : VoiceModel) → get_port (with_defaults vm) ≡ get_port vm
unfolding get_port
get_port-with_defaults vm = positive_or-or_number 8000 vm.spec.port

image_of-spec_defaults : (spec : VoiceModelSpec) → image_of (spec_defaults spec) ≡ image_of spec
unfolding image_of
image_of-spec_defaults spec = rw (gpu-or_text spec.device)

resources_of-spec_defaults :
    (spec : VoiceModelSpec) (r : Option ResourceRequirements)
    → resources_of (spec_defaults spec) r ≡ resources_of spec r
unfolding default_resources
resources_of-spec_defaults spec none = rw (gpu-or_text spec.device)
resources_of-spec_defaults spec (some r) = refl

metrics-or_else : (m : Option Bool) → metrics_enabled (or_else true m) ≡ metrics_enabled m
metrics-or_else none = refl
metrics-or_else (some b) = refl

-- The defaults of the API server and those of the controller agree: a VoiceModel with its absent
-- fields filled in gets the Service that it would get without, and the Deployment that it would
-- get without but for the environment, which then names the device cpu and the quantization int8
-- where none were given; the controller has no default for these two.
pub build-with_defaults :
    (vm : VoiceModel)
    → (build_service (with_defaults vm) ≡ build_service vm)
      × (build_deployment (with_defaults vm) ≡ with_env (default_env vm.spec) (build_deployment vm))
unfolding build_deployment build_service
build-with_defaults vm = (
  rw (get_port-with_defaults vm),
  rw (
    wanted_replicas-or_else vm.spec.replicas,
    get_port-with_defaults vm,
    metrics-or_else vm.spec.metrics,
    image_of-spec_defaults vm.spec,
    resources_of-spec_defaults vm.spec vm.spec.resources,
    probe_of-health_defaults vm.spec.health,
  ),
)
