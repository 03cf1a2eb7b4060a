-- ===== src/Operator/VoiceModels/Reconcile/Calls.antt =====
-- The two calls that place the objects of a VoiceModel, and what they do to a store of objects.
use mathlib.Core.Path.{subst}
use voxplatform.Prelude.{eq_iff, ◌≡◌, refl, sym, ap, ◌∙◌, String, Option, none, some, arith}
use voxplatform.Operator.Api.{Key}
use voxplatform.Operator.VoiceModels.{
  VoiceModel, DeploymentSpec, Service, build_deployment, build_service,
}
use voxplatform.Operator.VoiceModels.Reconcile.{
  SeenDeployment, Effect, created_deployment, updated_deployment, created_service, updated_service,
}
use voxplatform.Operator.VoiceModels.Reconcile.Store.{
  Store, put, same_key_self, apply, IsKeyed, KeepsSelector,
}

-- The calls that a reconcile makes for what it finds.
abbrev pub deployment_call : VoiceModel → Key → Option SeenDeployment → Effect
deployment_call vm owner none =
    created_deployment (record (build_deployment vm) { owner = some owner })
deployment_call vm owner (some seen) =
    updated_deployment (record (seen.deployment) { spec = (build_deployment vm).spec })

abbrev pub service_call : VoiceModel → Key → Option Service → Effect
service_call vm owner none = created_service (record (build_service vm) { owner = some owner })
service_call vm owner (some seen) =
    updated_service (record seen {
      spec = record ((build_service vm).spec) { cluster_ip = seen.spec.cluster_ip };
    })

-- The Deployment and the Service that are built for the VoiceModel exist, with the spec that is
-- built for each; the Service's address is any.
abbrev pub HasDeployment : VoiceModel → Store → SeenDeployment → Type 0
HasDeployment vm store d =
    (store.deployments (build_deployment vm).key ≡ some d)
    × (d.deployment.spec ≡ (build_deployment vm).spec)

abbrev pub HasService : VoiceModel → Store → Service → Type 0
HasService vm store s =
    (store.services (build_service vm).key ≡ some s)
    × (s.spec ≡ record ((build_service vm).spec) { cluster_ip = s.spec.cluster_ip })

abbrev pub IsInPlace : VoiceModel → Store → Type 0
IsInPlace vm store =
    ((d : SeenDeployment) × HasDeployment vm store d) × ((s : Service) × HasService vm store s)

-- A Deployment that stands under the key of the VoiceModel's has the selector that is built.
abbrev pub IsCompatible : VoiceModel → Store → Type 0
IsCompatible vm store =
    (seen : SeenDeployment)
    → store.deployments (build_deployment vm).key ≡ some seen
    → seen.deployment.spec.selector ≡ (build_deployment vm).spec.selector

pub deployment_call-KeepsSelector :
    (vm : VoiceModel) (owner : Key) (store : Store) (o : Option SeenDeployment)
    → IsKeyed store
    → IsCompatible vm store
    → store.deployments (build_deployment vm).key ≡ o
    → KeepsSelector (deployment_call vm owner o) store
deployment_call-KeepsSelector vm owner store none keyed fits h = tt
deployment_call-KeepsSelector vm owner store (some seen) keyed fits h =
    λ other there. fits other (ap store.deployments (sym (keyed.0 _ seen h)) ∙ there)

pub service_call-KeepsSelector :
    (vm : VoiceModel) (owner : Key) (store : Store) (o : Option Service)
    → KeepsSelector (service_call vm owner o) store
service_call-KeepsSelector vm owner store none = tt
service_call-KeepsSelector vm owner store (some seen) = tt

pub HasDeployment-IsCompatible :
    (vm : VoiceModel) (store : Store) (d : SeenDeployment)
    → HasDeployment vm store d
    → IsCompatible vm store
HasDeployment-IsCompatible vm store d hd seen there =
    let same : d ≡ seen = cc (hd.0, there) in
    ap (λ (x : SeenDeployment). x.deployment.spec.selector) (sym same)
    ∙ ap (λ (s : DeploymentSpec). s.selector) hd.1

pub put_self {ℓ} :
    {A : Type ℓ} (k : Key) (a : A) (objects : Key → Option A) → put k a objects k ≡ some a
put_self k a objects = rw (same_key_self k) refl

pub keyed_put {ℓ} :
    {A : Type ℓ} (name : A → Key) (k : Key) (a : A) (objects : Key → Option A)
    → name a ≡ k
    → ((l : Key) (b : A) → objects l ≡ some b → name b ≡ l)
    → (l : Key) (b : A) → put k a objects l ≡ some b
    → name b ≡ l
keyed_put name k a objects e keyed l b h =
    ground (arith, h, e, keyed l b, eq_iff k.name l.name, eq_iff k.namespace l.namespace)

put_same {ℓ} :
    {A : Type ℓ} (k : Key) (a : A) (objects : Key → Option A) (l : Key)
    → objects k ≡ some a
    → put k a objects l ≡ objects l
put_same k a objects l h = ground (arith, h, eq_iff k.name l.name, eq_iff k.namespace l.namespace)

module _ (allocate : Key → String) (vm : VoiceModel) (owner : Key) where
  abbrev respecified : SeenDeployment → SeenDeployment
  respecified seen = record seen {
    deployment = record (seen.deployment) { spec = (build_deployment vm).spec };
  }

  abbrev refreshed : Service → Service
  refreshed seen = record seen {
    spec = record ((build_service vm).spec) { cluster_ip = seen.spec.cluster_ip };
  }

  deployments_updated :
      (store : Store) (seen : SeenDeployment) (k : Key)
      → seen.deployment.key ≡ k
      → store.deployments k ≡ some seen
      → (apply allocate (updated_deployment (respecified seen).deployment) store).deployments
        ≡ put k (respecified seen) store.deployments
  deployments_updated store seen k e h = simp (e, h) refl

  services_updated :
      (store : Store) (seen : Service) (k : Key)
      → seen.key ≡ k
      → (apply allocate (updated_service (refreshed seen)) store).services
        ≡ put k (refreshed seen) store.services
  services_updated store seen k e = simp e refl

  pub HasDeployment-call :
      (store : Store) (o : Option SeenDeployment)
      → IsKeyed store
      → store.deployments (build_deployment vm).key ≡ o
      → ((d : SeenDeployment) × HasDeployment vm
            (apply allocate (deployment_call vm owner o) store)
            d)
        × IsKeyed (apply allocate (deployment_call vm owner o) store)
  HasDeployment-call store none keyed h = (
    (_, (put_self (build_deployment vm).key _ store.deployments, refl)),
    (
      keyed_put (λ d. d.deployment.key) (build_deployment vm).key _ store.deployments refl keyed.0,
      keyed.1,
    ),
  )
  HasDeployment-call store (some seen) keyed h =
      let k = (build_deployment vm).key in
      let e = keyed.0 k seen h in
      let same = deployments_updated store seen k e h in
      (
        (
          respecified seen,
          (
            ap (λ (f : Key → Option SeenDeployment). f k) same
                ∙ put_self k (respecified seen) store.deployments,
            refl,
          ),
        ),
        (
          subst
              (λ (f : Key → Option SeenDeployment).
                (l : Key) (d : SeenDeployment) → f l ≡ some d → d.deployment.key ≡ l)
              (sym same)
              (keyed_put (λ d. d.deployment.key) k (respecified seen) store.deployments e keyed.0),
          keyed.1,
        ),
      )

  pub HasService-call :
      (store : Store) (o : Option Service)
      → IsKeyed store
      → store.services (build_service vm).key ≡ o
      → ((s : Service) × HasService vm (apply allocate (service_call vm owner o) store) s)
        × IsKeyed (apply allocate (service_call vm owner o) store)
  HasService-call store none keyed h = (
    (_, (put_self (build_service vm).key _ store.services, refl)),
    (keyed.0, keyed_put (λ s. s.key) (build_service vm).key _ store.services refl keyed.1),
  )
  HasService-call store (some seen) keyed h =
      let k = (build_service vm).key in
      let e = keyed.1 k seen h in
      let same = services_updated store seen k e in
      (
        (
          refreshed seen,
          (
            ap (λ (f : Key → Option Service). f k) same
                ∙ put_self k (refreshed seen) store.services,
            refl,
          ),
        ),
        (
          keyed.0,
          subst (λ (f : Key → Option Service). (l : Key) (s : Service) → f l ≡ some s → s.key ≡ l)
              (sym same) (keyed_put (λ s. s.key) k (refreshed seen) store.services e keyed.1),
        ),
      )

  -- A call of the Service leaves the Deployments alone, and the other way round.
  pub deployments-service_call :
      (store : Store) (o : Option Service)
      → (apply allocate (service_call vm owner o) store).deployments ≡ store.deployments
  deployments-service_call store none = refl
  deployments-service_call store (some seen) = refl

  pub services-deployment_call :
      (store : Store) (o : Option SeenDeployment)
      → (apply allocate (deployment_call vm owner o) store).services ≡ store.services
  services-deployment_call store none = refl
  services-deployment_call store (some seen) = refl

  -- A call finds nothing to change if the object is in place.
  pub deployment_call_rests :
      (store : Store) (seen : SeenDeployment)
      → IsKeyed store
      → HasDeployment vm store seen
      → (l : Key)
      → (apply allocate
            (deployment_call vm owner (store.deployments (build_deployment vm).key))
            store).deployments
          l
        ≡ store.deployments l
  deployment_call_rests store seen keyed (h, spec) l =
      let k = (build_deployment vm).key in
      rw (h) (
        ap (λ (f : Key → Option SeenDeployment). f l)
          (deployments_updated store seen k (keyed.0 k seen h) h)
        ∙ put_same k (respecified seen) store.deployments l (
            h
            ∙ ap (λ sp. some (record seen { deployment = record (seen.deployment) { spec = sp } }))
                spec))

  pub service_call_rests :
      (store : Store) (seen : Service)
      → IsKeyed store
      → HasService vm store seen
      → (l : Key)
      → (apply allocate
            (service_call vm owner (store.services (build_service vm).key))
            store).services
          l
        ≡ store.services l
  service_call_rests store seen keyed (h, spec) l =
      let k = (build_service vm).key in
      rw (h) (
        ap (λ (f : Key → Option Service). f l) (services_updated store seen k (keyed.1 k seen h))
        ∙ put_same k (refreshed seen) store.services l
            (h ∙ ap (λ sp. some (record seen { spec = sp })) spec))
