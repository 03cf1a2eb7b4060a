-- ===== src/Operator/VoiceModels/Reconcile.antt =====
-- The reconciler of operator/internal/controller/voicemodel_controller.go. The API server is a
-- record of parameters whose answers may depend on the calls made so far; the state of a
-- reconcile is the list of its calls that change the cluster.
pub mod Types
pub mod Trace
pub mod Status
pub mod Finalizer
pub mod Store
pub mod Calls
pub mod Converge
pub mod Serving
pub mod Watch
pub mod Changes
pub mod Honest
mod Tests
pub use Types.*
use voxplatform.Prelude.{
  ℕ, ℤ, pos, is_pos, lebℤ, show_ℤ, String, Bool, true, false, not, ◌&&◌, Option, none, some, List,
  [], ◌∷◌, ◌++◌, if◌then◌else◌, ◌=s◌, ◌+s◌,
}
use voxplatform.Operator.Api.{
  ApiError, is_not_found, Reply, ok, err, Key, Outcome, requeue_after, error, done, ten_seconds,
  VoiceModelPhase, unset, pending, deploying, ready, failed, terminating,
}
use voxplatform.Operator.VoiceModels.{
  VoiceModel, VoiceModelStatus, Deployment, Service, deployment_name, service_name, get_port,
  wanted_replicas, build_deployment, build_service,
}

abbrev pub finalizer_name : String
finalizer_name = "vox.io/voicemodel-cleanup"

abbrev pub same_phase : VoiceModelPhase → VoiceModelPhase → Bool
same_phase unset unset = true
same_phase pending pending = true
same_phase deploying deploying = true
same_phase ready ready = true
same_phase failed failed = true
same_phase terminating terminating = true
same_phase _ _ = false

abbrev pub is_settled : VoiceModelPhase → Bool
is_settled ready = true
is_settled failed = true
is_settled _ = false

-- The object after the assignments of setPhase.
abbrev pub with_phase : ℕ → VoiceModel → VoiceModelPhase → String → VoiceModel
with_phase now vm phase message = record vm {
  status = record (vm.status) {
    phase = phase;
    message = message;
    last_transition_time =
        if same_phase vm.status.phase phase then vm.status.last_transition_time else some now;
  };
}

-- The message of the first condition that reports a replica failure.
abbrev pub replica_failure : List Condition → Option String
replica_failure [] = none
replica_failure (c ∷ cs) =
    if c.type =s "ReplicaFailure" && c.status =s "True" then some c.message else replica_failure cs

-- An error text, or none.
abbrev pub Fault : Type 0
Fault = Option String

-- The `switch` of updateStatus: the phase and the message.
pub phase_of : ℤ → SeenDeployment → VoiceModelPhase × String
phase_of replicas d =
    if lebℤ replicas d.ready_replicas
    then (ready, show_ℤ d.ready_replicas +s "/" +s show_ℤ replicas +s " replicas ready")
    else if is_pos d.ready_replicas
    then (deploying, show_ℤ d.ready_replicas +s "/" +s show_ℤ replicas +s " replicas ready")
    else elim (replica_failure d.conditions) [
      | some message ↦ (failed, message)
      | none ↦ (deploying, "waiting for pods to be ready")
    ]

abbrev pub endpoint_of : VoiceModel → String
endpoint_of vm =
    service_name vm +s "." +s vm.key.namespace +s ".svc.cluster.local:" +s show_ℤ (get_port vm)

abbrev pub observed : VoiceModel → SeenDeployment → VoiceModel
observed vm d = record vm {
  status = record (vm.status) { ready_replicas = d.ready_replicas; endpoint = endpoint_of vm };
}

module _ (cluster : Cluster) where
  open cluster use {describe}

  -- A call that changes the cluster: it is recorded, and answered.
  abbrev pub call : Effect → List Effect → Reply (Unit {0}) × List Effect
  call e es = (cluster.accept es e, es ++ e ∷ [])

  abbrev pub fault_of : Reply (Unit {0}) × List Effect → Fault × List Effect
  fault_of (ok _, es) = (none, es)
  fault_of (err e, es) = (some (describe e), es)

  abbrev pub write_deployment :
      Deployment → Reply SeenDeployment → List Effect → Fault × List Effect
  write_deployment desired (ok existing) es =
      fault_of (call (updated_deployment (record (existing.deployment) { spec = desired.spec })) es)
  write_deployment desired (err e) es =
      if is_not_found e
      then fault_of (call (created_deployment desired) es)
      else (some ("fetching Deployment: " +s describe e), es)

  abbrev pub place_deployment : VoiceModel → Reply Key → List Effect → Fault × List Effect
  place_deployment vm (err e) es = (some ("setting owner reference: " +s describe e), es)
  place_deployment vm (ok owner) es =
      let desired = record (build_deployment vm) { owner = some owner } in
      write_deployment desired (cluster.get_deployment es desired.key) es

  pub reconcile_deployment : VoiceModel → List Effect → Fault × List Effect
  unfolding build_deployment
  reconcile_deployment vm es = place_deployment vm (cluster.controller_reference vm) es

  abbrev pub write_service : Service → Reply Service → List Effect → Fault × List Effect
  write_service desired (ok existing) es = fault_of (
      call
        (updated_service (record existing {
          spec = record (desired.spec) { cluster_ip = existing.spec.cluster_ip };
        }))
        es)
  write_service desired (err e) es =
      if is_not_found e
      then fault_of (call (created_service desired) es)
      else (some ("fetching Service: " +s describe e), es)

  abbrev pub place_service : VoiceModel → Reply Key → List Effect → Fault × List Effect
  place_service vm (err e) es = (some ("setting owner reference: " +s describe e), es)
  place_service vm (ok owner) es =
      let desired = record (build_service vm) { owner = some owner } in
      write_service desired (cluster.get_service es desired.key) es

  pub reconcile_service : VoiceModel → List Effect → Fault × List Effect
  unfolding build_service
  reconcile_service vm es = place_service vm (cluster.controller_reference vm) es

  abbrev answer : VoiceModelPhase → Reply (Unit {0}) × List Effect → Outcome × List Effect
  answer phase (ok _, es) = (if is_settled phase then done else requeue_after ten_seconds, es)
  answer phase (err e, es) = (error ("updating status: " +s describe e), es)

  pub set_phase : ℕ → VoiceModel → VoiceModelPhase → String → List Effect → Outcome × List Effect
  set_phase now vm phase message es =
      answer phase (call (wrote_status (with_phase now vm phase message)) es)

  abbrev status_from : ℕ → VoiceModel → List Effect → Reply SeenDeployment → Outcome × List Effect
  status_from now vm es (err e) = set_phase now vm deploying "waiting for Deployment" es
  status_from now vm es (ok d) =
      let (phase, message) = phase_of (wanted_replicas vm.spec.replicas) d in
      set_phase now (observed vm d) phase message es

  pub update_status : ℕ → VoiceModel → List Effect → Outcome × List Effect
  unfolding phase_of set_phase deployment_name
  update_status now vm es = status_from now vm es (
      cluster.get_deployment es
        (record { namespace = vm.key.namespace; name = deployment_name vm }))

  abbrev pub after_service : ℕ → VoiceModel → Fault × List Effect → Outcome × List Effect
  after_service now vm (some fault, es) = set_phase now vm failed fault es
  after_service now vm (none, es) = update_status now vm es

  abbrev pub after_deployment : ℕ → VoiceModel → Fault × List Effect → Outcome × List Effect
  after_deployment now vm (some fault, es) = set_phase now vm failed fault es
  after_deployment now vm (none, es) = after_service now vm (reconcile_service vm es)

  -- Steps 3 to 5 of Reconcile.
  pub reconcile_resources : ℕ → VoiceModel → List Effect → Outcome × List Effect
  unfolding reconcile_deployment reconcile_service set_phase update_status
  reconcile_resources now vm es = after_deployment now vm (reconcile_deployment vm es)

  abbrev pub after_release : Reply VoiceModel → Outcome
  after_release (ok _) = done
  after_release (err e) = error ("removing finalizer: " +s describe e)

  pub reconcile_delete : VoiceModel → List Effect → Outcome × List Effect
  reconcile_delete vm es =
      let vm' = record vm { finalizers = cluster.remove_finalizer vm.finalizers finalizer_name } in
      (after_release (cluster.update_model es vm'), es ++ updated_model vm' ∷ [])

  -- Adding the finalizer; the update gives the object of the server.
  abbrev pub add_then : ℕ → VoiceModel → Reply VoiceModel → List Effect → Outcome × List Effect
  add_then now vm' (ok vm) es = reconcile_resources now vm (es ++ updated_model vm' ∷ [])
  add_then now vm' (err e) es =
      (error ("adding finalizer: " +s describe e), es ++ updated_model vm' ∷ [])

  pub with_finalizer : VoiceModel → VoiceModel
  with_finalizer vm = record vm { finalizers = cluster.add_finalizer vm.finalizers finalizer_name }

  -- Reconcile once the VoiceModel has been read.
  pub reconcile_model : ℕ → VoiceModel → List Effect → Outcome × List Effect
  unfolding reconcile_resources reconcile_delete with_finalizer
  reconcile_model now vm es =
      if vm.deleting
      then reconcile_delete vm es
      else if not (cluster.contains_finalizer vm.finalizers finalizer_name)
      then add_then now (with_finalizer vm) (cluster.update_model es (with_finalizer vm)) es
      else reconcile_resources now vm es

  abbrev reconcile_read : ℕ → List Effect → Reply VoiceModel → Outcome × List Effect
  reconcile_read now es (ok vm) = reconcile_model now vm es
  reconcile_read now es (err e) =
      if is_not_found e then (done, es) else (error ("fetching VoiceModel: " +s describe e), es)

  pub reconcile : ℕ → Key → Outcome × List Effect
  unfolding reconcile_model
  reconcile now key = reconcile_read now [] (cluster.get_model [] key)
