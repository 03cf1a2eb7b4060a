-- ===== src/Operator/VoiceModels/Reconcile/Trace.antt =====
-- The calls of one reconcile of a VoiceModel that change the cluster, in their order.
use voxplatform.Prelude.{
  ℕ, ◌≡◌, ◌⊎◌, inl, inr, refl, String, Bool, true, false, some, List, [], ◌∷◌, ◌++◌, if◌then◌else◌,
}
use voxplatform.Operator.Api.{ApiError, is_not_found, Reply, ok, err, Key, Outcome, failed}
use voxplatform.Operator.VoiceModels.{VoiceModel, Service, build_deployment, build_service}
use voxplatform.Operator.VoiceModels.Reconcile.{
  SeenDeployment, Effect, created_deployment, updated_deployment, created_service, updated_service,
  wrote_status, Cluster, Fault, write_deployment, write_service, place_deployment, place_service,
  after_deployment, after_service, with_phase, fault_of, call, reconcile_deployment,
  reconcile_service, reconcile_resources,
}
use voxplatform.Operator.VoiceModels.Reconcile.Status.{
  answered, written, deployment_key, update_status-written, set_phase_lem,
}

module _ (cluster : Cluster) (vm : VoiceModel) (es : List Effect) where
  -- The call puts the Deployment that is built for the VoiceModel in place: a new one, if there
  -- was none under its key, or else the one that was read, with its spec replaced.
  pub data PutsDeployment : Effect → Type 0 where
    created :
        (owner : Key) (e : ApiError)
        → cluster.controller_reference vm ≡ ok owner
        → cluster.get_deployment es (build_deployment vm).key ≡ err e
        → is_not_found e ≡ true
        → PutsDeployment (created_deployment (record (build_deployment vm) { owner = some owner }))
    updated :
        (seen : SeenDeployment)
        → cluster.get_deployment es (build_deployment vm).key ≡ ok seen
        → PutsDeployment
            (updated_deployment (record (seen.deployment) { spec = (build_deployment vm).spec }))

  -- The same for the Service, whose cluster address is kept.
  pub data PutsService : Effect → Type 0 where
    created :
        (owner : Key) (e : ApiError)
        → cluster.controller_reference vm ≡ ok owner
        → cluster.get_service es (build_service vm).key ≡ err e
        → is_not_found e ≡ true
        → PutsService (created_service (record (build_service vm) { owner = some owner }))
    updated :
        (seen : Service)
        → cluster.get_service es (build_service vm).key ≡ ok seen
        → PutsService (
            updated_service (record seen {
              spec = record ((build_service vm).spec) { cluster_ip = seen.spec.cluster_ip };
            }))

  -- Why there is no call for the Deployment: its owner cannot be set, or whether it is there cannot
  -- be read.
  abbrev pub DeploymentBlocked : Type 0
  DeploymentBlocked =
      (e : ApiError) × ((cluster.controller_reference vm ≡ err e)
        ⊎ ((cluster.get_deployment es (build_deployment vm).key ≡ err e)
            × (is_not_found e ≡ false)))

  -- The same for the Service.
  abbrev pub ServiceBlocked : Type 0
  ServiceBlocked =
      (e : ApiError) × ((cluster.controller_reference vm ≡ err e)
        ⊎ ((cluster.get_service es (build_service vm).key ≡ err e) × (is_not_found e ≡ false)))

  -- A reconcile step that is blocked before its call, or makes one call and passes its answer on.
  abbrev Attempt : (Effect → Type 0) → Type 0 → Fault × List Effect → Type 0
  Attempt P Blocked r =
      ((fault : String) × Blocked × (r ≡ (some fault, es)))
      ⊎ ((e : Effect) × P e × (r ≡ fault_of cluster (call cluster e es)))

  missing-Attempt :
      (P : Effect → Type 0) (Blocked : Type 0) (b : Bool) (e : Effect) (fault : String)
      → (b ≡ true → P e)
      → (b ≡ false → Blocked)
      → Attempt P Blocked (if b then fault_of cluster (call cluster e es) else (some fault, es))
  missing-Attempt P Blocked true e fault p n = inr (e, p refl, refl)
  missing-Attempt P Blocked false e fault p n = inl (fault, n refl, refl)

  write_deployment-Attempt :
      (owner : Key)
      → cluster.controller_reference vm ≡ ok owner
      → (r : Reply SeenDeployment) → cluster.get_deployment es (build_deployment vm).key ≡ r
      → Attempt PutsDeployment DeploymentBlocked
          (write_deployment cluster (record (build_deployment vm) { owner = some owner }) r es)
  write_deployment-Attempt owner ho (ok seen) h = inr (_, updated seen h, refl)
  write_deployment-Attempt owner ho (err e) h =
      missing-Attempt PutsDeployment DeploymentBlocked (is_not_found e) _ _ (created owner e ho h)
        (λ n. (e, inr (h, n)))

  place_deployment-Attempt :
      (r : Reply Key)
      → cluster.controller_reference vm ≡ r
      → Attempt PutsDeployment DeploymentBlocked (place_deployment cluster vm r es)
  place_deployment-Attempt (err e) h = inl (_, (e, inl h), refl)
  place_deployment-Attempt (ok owner) h = write_deployment-Attempt owner h _ refl

  reconcile_deployment-Attempt :
      Attempt PutsDeployment DeploymentBlocked (reconcile_deployment cluster vm es)
  unfolding reconcile_deployment
  reconcile_deployment-Attempt = place_deployment-Attempt (cluster.controller_reference vm) refl

  write_service-Attempt :
      (owner : Key)
      → cluster.controller_reference vm ≡ ok owner
      → (r : Reply Service) → cluster.get_service es (build_service vm).key ≡ r
      → Attempt PutsService ServiceBlocked
          (write_service cluster (record (build_service vm) { owner = some owner }) r es)
  write_service-Attempt owner ho (ok seen) h = inr (_, updated seen h, refl)
  write_service-Attempt owner ho (err e) h =
      missing-Attempt PutsService ServiceBlocked (is_not_found e) _ _ (created owner e ho h)
        (λ n. (e, inr (h, n)))

  place_service-Attempt :
      (r : Reply Key)
      → cluster.controller_reference vm ≡ r
      → Attempt PutsService ServiceBlocked (place_service cluster vm r es)
  place_service-Attempt (err e) h = inl (_, (e, inl h), refl)
  place_service-Attempt (ok owner) h = write_service-Attempt owner h _ refl

  reconcile_service-Attempt : Attempt PutsService ServiceBlocked (reconcile_service cluster vm es)
  unfolding reconcile_service
  reconcile_service-Attempt = place_service-Attempt (cluster.controller_reference vm) refl

-- What reconciling the resources of a VoiceModel does to the cluster after the calls `es`: the
-- calls before the last one, and the status that the last one writes.
pub data Course (cluster : Cluster) (now : ℕ) (vm : VoiceModel) (es : List Effect)
    : List Effect → VoiceModel → Type 0 where
  no_deployment :
      (message : String)
      → DeploymentBlocked cluster vm es
      → Course cluster now vm es es (with_phase now vm failed message)
  deployment_refused :
      (d : Effect) (e : ApiError) (message : String)
      → PutsDeployment cluster vm es d
      → cluster.accept es d ≡ err e
      → Course cluster now vm es (es ++ d ∷ []) (with_phase now vm failed message)
  no_service :
      (d : Effect) (message : String)
      → PutsDeployment cluster vm es d
      → cluster.accept es d ≡ ok tt
      → ServiceBlocked cluster vm (es ++ d ∷ [])
      → Course cluster now vm es (es ++ d ∷ []) (with_phase now vm failed message)
  service_refused :
      (d s : Effect) (e : ApiError) (message : String)
      → PutsDeployment cluster vm es d
      → PutsService cluster vm (es ++ d ∷ []) s
      → cluster.accept es d ≡ ok tt
      → cluster.accept (es ++ d ∷ []) s ≡ err e
      → Course cluster now vm es ((es ++ d ∷ []) ++ s ∷ []) (with_phase now vm failed message)
  placed :
      (d s : Effect)
      → PutsDeployment cluster vm es d
      → PutsService cluster vm (es ++ d ∷ []) s
      → cluster.accept es d ≡ ok tt
      → cluster.accept (es ++ d ∷ []) s ≡ ok tt
      → Course cluster now vm es
          ((es ++ d ∷ []) ++ s ∷ [])
          (written now vm (cluster.get_deployment ((es ++ d ∷ []) ++ s ∷ []) (deployment_key vm)))

module _ (cluster : Cluster) (now : ℕ) (vm : VoiceModel) where
  -- The result and the calls of a reconcile that ends with the write of `v` after `calls`.
  abbrev pub Ends : List Effect → Outcome × List Effect → Type 0
  Ends es r =
      (calls : List Effect) × (v : VoiceModel) × Course cluster now vm es calls v
      × (r ≡ (
        answered cluster v (cluster.accept calls (wrote_status v)),
        calls ++ wrote_status v ∷ [],
      ))

  module _ (es : List Effect) (d : Effect) (hd : PutsDeployment cluster vm es d)
      (taken : cluster.accept es d ≡ ok tt) where
    after_accept-Ends :
        (s : Effect)
        → PutsService cluster vm (es ++ d ∷ []) s
        → (r : Reply (Unit {0})) → cluster.accept (es ++ d ∷ []) s ≡ r
        → Ends es (after_service cluster now vm (fault_of cluster (r, (es ++ d ∷ []) ++ s ∷ [])))
    after_accept-Ends s hs (ok tt) h =
        (_, _, placed d s hd hs taken h, update_status-written cluster now vm _ _ refl)
    after_accept-Ends s hs (err e) h =
        (_, _, service_refused d s e _ hd hs taken h, set_phase_lem cluster now vm _ vm failed _)

    after_service-Ends :
        (r : Fault × List Effect)
        → Attempt cluster vm
            (es ++ d ∷ [])
            (PutsService cluster vm (es ++ d ∷ []))
            (ServiceBlocked cluster vm (es ++ d ∷ []))
            r
        → Ends es (after_service cluster now vm r)
    after_service-Ends r (inl (fault, why, e)) =
        rw (e) (_, _, no_service d _ hd taken why, set_phase_lem cluster now vm _ vm failed fault)
    after_service-Ends r (inr (s, hs, e)) = rw (e) (after_accept-Ends s hs _ refl)

  after_call-Ends :
      (es : List Effect) (d : Effect)
      → PutsDeployment cluster vm es d
      → (r : Reply (Unit {0})) → cluster.accept es d ≡ r
      → Ends es (after_deployment cluster now vm (fault_of cluster (r, es ++ d ∷ [])))
  after_call-Ends es d hd (ok tt) h =
      after_service-Ends es d hd h _ (reconcile_service-Attempt cluster vm (es ++ d ∷ []))
  after_call-Ends es d hd (err e) h =
      (_, _, deployment_refused d e _ hd h, set_phase_lem cluster now vm _ vm failed _)

  after_deployment-Ends :
      (es : List Effect) (r : Fault × List Effect)
      → Attempt cluster vm es (PutsDeployment cluster vm es) (DeploymentBlocked cluster vm es) r
      → Ends es (after_deployment cluster now vm r)
  after_deployment-Ends es r (inl (fault, why, e)) =
      rw (e) (_, _, no_deployment _ why, set_phase_lem cluster now vm _ vm failed fault)
  after_deployment-Ends es r (inr (d, hd, e)) = rw (e) (after_call-Ends es d hd _ refl)

-- Whatever the API server answers, reconciling the resources of a VoiceModel makes the call that
-- puts the built Deployment in place, then the one for the built Service, and then writes the
-- status once. It stops before a call only if the owner cannot be set, if the read of the object
-- fails otherwise than with "not found", or if the call before was refused; in these cases, and if
-- the call for the Service is refused, the written phase is Failed. The result follows the answer to that last call and the phase.
pub reconcile_resources-Ends :
    (cluster : Cluster) (now : ℕ) (vm : VoiceModel) (es : List Effect)
    → Ends cluster now vm es (reconcile_resources cluster now vm es)
unfolding reconcile_resources
reconcile_resources-Ends cluster now vm es =
    after_deployment-Ends cluster now vm es _ (reconcile_deployment-Attempt cluster vm es)
