-- ===== src/Operator/VoiceModels/Reconcile/Status.antt =====
-- What the status of a VoiceModel says of its Deployment.
use voxplatform.Prelude.{
  ℕ, ℤ, is_pos, lebℤ, ◌≡◌, ◌≢◌, ◌↔◌, refl, String, true, false, none, some, List, [], ◌∷◌, ◌++◌,
  arith, if◌then◌else◌, ◌+s◌, eq_iff,
}
use voxplatform.Operator.Api.{
  Reply, ok, err, Key, Outcome, requeue_after, error, done, ten_seconds, VoiceModelPhase, deploying,
  ready, failed,
}
use voxplatform.Operator.Pipelines.Phases.{Any}
use voxplatform.Operator.VoiceModels.{VoiceModel, wanted_replicas, deployment_name}
use voxplatform.Operator.VoiceModels.Reconcile.{
  Condition, SeenDeployment, Effect, wrote_status, Cluster, same_phase, is_settled, with_phase,
  replica_failure, phase_of, set_phase, update_status, observed,
}

-- A condition that reports a replica failure.
abbrev pub IsReplicaFailure : Condition → Type 0
IsReplicaFailure c = (c.type ≡ "ReplicaFailure") × (c.status ≡ "True")

replica_failure_iff : (cs : List Condition) → (replica_failure cs ≢ none) ↔ Any IsReplicaFailure cs
replica_failure_iff [] = (λ n. elim (n refl) [ ], λ h. elim h [ ])
replica_failure_iff (c ∷ cs) =
    ground (arith, replica_failure_iff cs, eq_iff c.type "ReplicaFailure", eq_iff c.status "True")

-- The phase is Ready exactly if at least the wanted replicas are ready. Otherwise it is Failed
-- exactly if no replica is ready and a condition of the Deployment reports a replica failure.
pub phase_of_iff :
    (replicas : ℤ) (d : SeenDeployment)
    → (((phase_of replicas d).0 ≡ ready) ↔ (lebℤ replicas d.ready_replicas ≡ true))
      × (((phase_of replicas d).0 ≡ failed) ↔ (
          (lebℤ replicas d.ready_replicas ≡ false)
          × (is_pos d.ready_replicas ≡ false)
          × Any IsReplicaFailure d.conditions))
unfolding phase_of
phase_of_iff replicas d = ground (arith, replica_failure_iff d.conditions)

-- The status that updateStatus writes for what it reads of the Deployment.
abbrev pub written : ℕ → VoiceModel → Reply SeenDeployment → VoiceModel
written now vm (err e) = with_phase now vm deploying "waiting for Deployment"
written now vm (ok d) =
    let (phase, message) = phase_of (wanted_replicas vm.spec.replicas) d in
    with_phase now (observed vm d) phase message

abbrev pub deployment_key : VoiceModel → Key
deployment_key vm = record { namespace = vm.key.namespace; name = deployment_name vm }

-- Enough replicas are ready.
abbrev pub IsServing : ℤ → Reply SeenDeployment → Type 0
IsServing replicas (ok d) = lebℤ replicas d.ready_replicas ≡ true
IsServing replicas (err e) = ⊥

pub written_ready_iff :
    (now : ℕ) (vm : VoiceModel) (r : Reply SeenDeployment)
    → ((written now vm r).status.phase ≡ ready) ↔ IsServing (wanted_replicas vm.spec.replicas) r
written_ready_iff now vm (err e) = ((λ h. cc), λ h. elim h [ ])
written_ready_iff now vm (ok d) = (phase_of_iff (wanted_replicas vm.spec.replicas) d).0

same_phase_iff : (p q : VoiceModelPhase) → (same_phase p q ≡ true) ↔ (p ≡ q)
same_phase_iff p q = ground arith

-- The transition time is kept with the phase, and otherwise `now`.
abbrev pub IsTimed : ℕ → VoiceModel → VoiceModel → Type 0
IsTimed now vm v =
    ((v.status.phase ≡ vm.status.phase)
      → v.status.last_transition_time ≡ vm.status.last_transition_time)
    × ((v.status.phase ≢ vm.status.phase) → v.status.last_transition_time ≡ some now)

with_phase-IsTimed :
    (now : ℕ) (vm : VoiceModel) (phase : VoiceModelPhase) (message : String)
    → IsTimed now vm (with_phase now vm phase message)
with_phase-IsTimed now vm phase message = (
  λ e. ground (arith, e, same_phase_iff vm.status.phase phase),
  λ n. ground (arith, n, same_phase_iff vm.status.phase phase),
)

written-IsTimed :
    (now : ℕ) (vm : VoiceModel) (r : Reply SeenDeployment) → IsTimed now vm (written now vm r)
written-IsTimed now vm (err e) = with_phase-IsTimed now vm deploying "waiting for Deployment"
written-IsTimed now vm (ok d) =
    with_phase-IsTimed now (observed vm d) (phase_of (wanted_replicas vm.spec.replicas) d).0
      (phase_of (wanted_replicas vm.spec.replicas) d).1

-- The result of a reconcile that ends with a write of the status, by the write's answer.
abbrev pub answered : Cluster → VoiceModel → Reply (Unit {0}) → Outcome
answered cluster v (ok _) = if is_settled v.status.phase then done else requeue_after ten_seconds
answered cluster v (err e) = error ("updating status: " +s cluster.describe e)

module _ (cluster : Cluster) (now : ℕ) (vm : VoiceModel) (es : List Effect) where
  pub set_phase_lem :
      (vm : VoiceModel) (phase : VoiceModelPhase) (message : String)
      → set_phase cluster now vm phase message es ≡ (
          let v = with_phase now vm phase message in
          (answered cluster v (cluster.accept es (wrote_status v)), es ++ wrote_status v ∷ []))
  unfolding set_phase
  set_phase_lem vm phase message = ground arith

  pub update_status-written :
      (v : VoiceModel)
      → v ≡ written now vm (cluster.get_deployment es (deployment_key vm))
      → update_status cluster now vm es
        ≡ (answered cluster v (cluster.accept es (wrote_status v)), es ++ wrote_status v ∷ [])
  unfolding update_status set_phase
  update_status-written v e = ground (arith, e)

  -- updateStatus makes one call, the write of the status: the phase is Ready exactly if the
  -- Deployment was read and at least the wanted replicas are ready, and the transition time is
  -- changed only with the phase.
  pub update_status_lem :
      (v : VoiceModel)
      → v ≡ written now vm (cluster.get_deployment es (deployment_key vm))
      → (update_status cluster now vm es
          ≡ (answered cluster v (cluster.accept es (wrote_status v)), es ++ wrote_status v ∷ []))
        × ((v.status.phase ≡ ready)
            ↔ IsServing
                (wanted_replicas vm.spec.replicas)
                (cluster.get_deployment es (deployment_key vm)))
        × IsTimed now vm v
  unfolding update_status
  update_status_lem v e = (
    update_status-written v e,
    rw (e) (written_ready_iff now vm (cluster.get_deployment es (deployment_key vm))),
    rw (e) (written-IsTimed now vm (cluster.get_deployment es (deployment_key vm))),
  )
