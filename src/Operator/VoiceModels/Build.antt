-- ===== src/Operator/VoiceModels/Build.antt =====
-- How the Deployment and the Service that the builders of
-- operator/internal/controller/voicemodel_controller.go give for a VoiceModel fit together.
use text.Mathlib.TextLemmas.{append_cancel_left}
use voxplatform.Prelude.{
  String, is_pos, ◌≡◌, ◌↔◌, inl, refl, ap, sym, true, ℤ, pos, List, [], ◌∷◌, Option, none, some,
  arith, All, ◌+s◌, show_ℤ,
}
use voxplatform.Operator.Api.{Key}
use voxplatform.Operator.Pipelines.Phases.{Any}
use voxplatform.Operator.VoiceModels.Reconcile.{endpoint_of}
use voxplatform.Operator.VoiceModels.{
  VoiceModel, VoiceModelStatus, HealthConfig, Probe, Container, Deployment, ServicePort, Service,
  deployment_name, service_name, labels_for_voice_model, get_port, probe_of, build_deployment,
  build_service,
}

-- The container opens the port that the Service's port is forwarded to.
abbrev pub IsForwarded : Container → ServicePort → Type 0
IsForwarded c p = Any (λ q. (q.name ≡ p.target_port) × (q.container_port ≡ p.port)) c.ports

-- The probe asks a port that the container opens, after a positive delay.
abbrev pub IsProbed : Container → Probe → Type 0
IsProbed c p =
    Any (λ q. q.name ≡ p.port_name) c.ports
    × (is_pos p.initial_delay_seconds ≡ true)
    × (is_pos p.period_seconds ≡ true)

-- Traffic for the Service reaches the pods of the Deployment.
abbrev pub IsReached : Service → Deployment → Type 0
IsReached s d =
    (s.key ≡ d.key)
    × (d.spec.selector ≡ d.spec.pod_labels)
    × (s.spec.selector ≡ d.spec.pod_labels)
    × All
        (λ c.
          All (IsForwarded c) s.spec.ports
          × IsProbed c c.readiness_probe
          × IsProbed c c.liveness_probe)
        d.spec.containers
    × All (λ p. is_pos p.port ≡ true) s.spec.ports

get_port_positive : (vm : VoiceModel) → is_pos (get_port vm) ≡ true
unfolding get_port
get_port_positive vm = ground arith

probe_of-IsProbed :
    (h : Option HealthConfig)
    → ((probe_of h).port_name ≡ "http")
      × (is_pos (probe_of h).initial_delay_seconds ≡ true)
      × (is_pos (probe_of h).period_seconds ≡ true)
unfolding probe_of
probe_of-IsProbed none = (refl, refl, refl)
probe_of-IsProbed (some h) = (refl, ground arith, ground arith)

-- The Service and the Deployment of a VoiceModel have one name; the Service selects exactly the
-- labels of the Deployment's pods, its port is positive and is forwarded to a named port that the
-- container opens under that number, and both probes ask a port that the container opens, after a
-- positive delay and at a positive period, whatever the spec leaves out.
pub build_service-IsReached : (vm : VoiceModel) → IsReached (build_service vm) (build_deployment vm)
unfolding build_service build_deployment
build_service-IsReached vm =
    let p = probe_of-IsProbed vm.spec.health in
    (
      refl,
      refl,
      refl,
      (((inl (refl, refl), tt), (inl (sym p.0), p.1, p.2), (inl (sym p.0), p.1, p.2)), tt),
      (get_port_positive vm, tt),
    )

abbrev prefixed : Key → Key
prefixed k = record { namespace = k.namespace; name = "vox-" +s k.name }

key_iff : (k l : Key) → (prefixed k ≡ prefixed l) ↔ (k ≡ l)
key_iff k l = (
  λ e. λ i. record {
    namespace = (e i).namespace;
    name = append_cancel_left "vox-" k.name l.name (λ j. (e j).name) i;
  },
  λ e. ap prefixed e,
)

-- Two VoiceModels have the same Deployment name and namespace exactly if they are the same
-- object, and so for the Service names and for the labels that select the pods of one namespace.
pub build_deployment_key_iff :
    (vm vm' : VoiceModel)
    → (((build_deployment vm).key ≡ (build_deployment vm').key) ↔ (vm.key ≡ vm'.key))
      × (((build_service vm).key ≡ (build_service vm').key) ↔ (vm.key ≡ vm'.key))
      × (((build_service vm).spec.selector ≡ (build_deployment vm').spec.pod_labels)
          ↔ (vm.key.name ≡ vm'.key.name))
unfolding build_service build_deployment deployment_name service_name labels_for_voice_model
build_deployment_key_iff vm vm' =
    (key_iff vm.key vm'.key, key_iff vm.key vm'.key, ((λ e. cc), λ e. cc))

-- The address of the Service of a VoiceModel within the cluster.
abbrev pub first_port : List ServicePort → ℤ
first_port [] = pos 0
first_port (p ∷ ps) = p.port

-- The address of a Service in the cluster, with its first port.
abbrev pub service_address : Service → String
service_address s =
    s.key.name
    +s "."
    +s s.key.namespace
    +s ".svc.cluster.local:"
    +s show_ℤ (first_port s.spec.ports)

-- The endpoint in the status is the address of the Service, whatever the status is.
pub endpoint_of-service_address :
    (vm : VoiceModel) (status : VoiceModelStatus)
    → endpoint_of vm ≡ service_address (build_service (record vm { status = status }))
unfolding build_service
endpoint_of-service_address vm status = refl
