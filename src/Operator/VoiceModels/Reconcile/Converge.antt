-- ===== src/Operator/VoiceModels/Reconcile/Converge.antt =====
-- A VoiceModel on an API server that works: the reconcile reaches what it wants and then rests.
use mathlib.Core.Path.{subst}
use voxplatform.Prelude.{
  ℕ, ◌≡◌, refl, sym, ap, ◌∙◌, String, true, Option, none, some, List, [], ◌∷◌, ◌++◌, if◌then◌else◌,
  lebℤ,
}
use voxplatform.Operator.Api.{
  VoiceModelPhase, ok, Key, Outcome, done, requeue_after, ten_seconds, ready,
}
use voxplatform.Operator.VoiceModels.{
  VoiceModel, Service, wanted_replicas, build_deployment, build_service,
}
use voxplatform.Operator.VoiceModels.Reconcile.{
  SeenDeployment, Effect, wrote_status, Cluster, reconcile_deployment, reconcile_service,
  reconcile_resources, is_settled,
}
use voxplatform.Operator.VoiceModels.Reconcile.Status.{
  answered, written, deployment_key, update_status-written, written_ready_iff,
}
use voxplatform.Operator.VoiceModels.Reconcile.Store.{
  Store, put, apply, replay, replay-append, found, IsLawful, IsKeyed, KeepsSelector,
}
use voxplatform.Operator.VoiceModels.Reconcile.Calls.{
  deployment_call, service_call, HasDeployment, HasService, IsInPlace, HasDeployment-call,
  HasService-call, deployments-service_call, services-deployment_call, deployment_call_rests,
  service_call_rests, put_self, IsCompatible, deployment_call-KeepsSelector,
  HasDeployment-IsCompatible,
}

module _ (cluster : Cluster) (allocate : Key → String) (owner : VoiceModel → Key) (store : Store)
    (lawful : IsLawful cluster allocate owner store) (now : ℕ) (vm : VoiceModel) where
  open lawful use {read_deployment, read_service, accepts, owned}

  reconcile_deployment_found :
      (es : List Effect) (o : Option SeenDeployment)
      → (replay allocate es store).deployments (build_deployment vm).key ≡ o
      → KeepsSelector (deployment_call vm (owner vm) o) (replay allocate es store)
      → reconcile_deployment cluster vm es ≡ (none, es ++ deployment_call vm (owner vm) o ∷ [])
  unfolding reconcile_deployment
  reconcile_deployment_found es none h fits =
      rw (owned vm, read_deployment es (build_deployment vm).key, h)
        (rw (accepts es (deployment_call vm (owner vm) none) fits) refl)
  reconcile_deployment_found es (some seen) h fits =
      rw (owned vm, read_deployment es (build_deployment vm).key, h)
        (rw (accepts es (deployment_call vm (owner vm) (some seen)) fits) refl)

  reconcile_service_found :
      (es : List Effect) (o : Option Service)
      → (replay allocate es store).services (build_service vm).key ≡ o
      → reconcile_service cluster vm es ≡ (none, es ++ service_call vm (owner vm) o ∷ [])
  unfolding reconcile_service
  reconcile_service_found es none h =
      rw (owned vm, read_service es (build_service vm).key, h)
        (rw (accepts es (service_call vm (owner vm) none) tt) refl)
  reconcile_service_found es (some seen) h =
      rw (owned vm, read_service es (build_service vm).key, h)
        (rw (accepts es (service_call vm (owner vm) (some seen)) tt) refl)

  -- What the reconcile after the calls `es` does: two calls, and the write of the status.
  abbrev pub first_call : List Effect → Effect
  first_call es =
      deployment_call vm (owner vm)
        ((replay allocate es store).deployments (build_deployment vm).key)

  abbrev pub second_call : List Effect → Effect
  second_call es =
      service_call vm (owner vm)
        ((replay allocate (es ++ first_call es ∷ []) store).services (build_service vm).key)

  abbrev pub calls : List Effect → List Effect
  calls es = (es ++ first_call es ∷ []) ++ second_call es ∷ []

  abbrev pub final_status : List Effect → VoiceModel
  final_status es =
      written now vm (found ((replay allocate (calls es) store).deployments (deployment_key vm)))

  -- The objects after the calls `es`.
  abbrev pub before : List Effect → Store
  before es = replay allocate es store

  reconcile_resources_found :
      (es : List Effect)
      → IsKeyed (before es)
      → IsCompatible vm (before es)
      → reconcile_resources cluster now vm es ≡ (
        answered cluster (final_status es) (ok tt),
        calls es ++ wrote_status (final_status es) ∷ [],
      )
  unfolding reconcile_resources
  reconcile_resources_found es keyed fits =
      rw
        (
          reconcile_deployment_found es _ refl
              (deployment_call-KeepsSelector vm (owner vm) (before es) _ keyed fits refl),
          reconcile_service_found (es ++ first_call es ∷ []) _ refl,
        )
        (update_status-written cluster now vm (calls es) (final_status es)
            (rw (read_deployment (calls es) (deployment_key vm)) refl)
          ∙ rw (accepts (calls es) (wrote_status (final_status es)) tt) refl)

  -- The objects after a reconcile.
  abbrev pub after : List Effect → Store
  after es = replay allocate (reconcile_resources cluster now vm es).1 store

  objects_after :
      (es : List Effect)
      → IsKeyed (before es)
      → IsCompatible vm (before es)
      → after es
        ≡ apply allocate
            (wrote_status (final_status es))
            (apply allocate (second_call es) (apply allocate (first_call es) (before es)))
  objects_after es keyed fits =
      ap (λ (r : Outcome × List Effect). replay allocate r.1 store)
        (reconcile_resources_found es keyed fits)
      ∙ replay-append allocate (calls es) (wrote_status (final_status es)) store
      ∙ ap (λ t. apply allocate (wrote_status (final_status es)) t)
          (replay-append allocate (es ++ first_call es ∷ []) (second_call es) store
            ∙ ap (λ t. apply allocate (second_call es) t)
                (replay-append allocate es (first_call es) store))

  -- The objects after the two calls, each computed from the objects that it finds.
  abbrev pub with_first : List Effect → Store
  with_first es = apply allocate (first_call es) (before es)

  abbrev pub with_both : List Effect → Store
  with_both es =
      apply allocate (service_call vm (owner vm) ((with_first es).services (build_service vm).key))
        (with_first es)

  pub after-with_both :
      (es : List Effect)
      → IsKeyed (before es)
      → IsCompatible vm (before es)
      → after es ≡ apply allocate (wrote_status (final_status es)) (with_both es)
  after-with_both es keyed fits =
      objects_after es keyed fits
      ∙ ap
          (λ (t : Store). apply allocate (wrote_status (final_status es)) (
            apply allocate (service_call vm (owner vm) (t.services (build_service vm).key))
              (with_first es)))
          (replay-append allocate es (first_call es) store)

  -- On an API server that answers and takes every call but one that changes the immutable selector
  -- of a Deployment, one reconcile of the resources puts the built Deployment and the built Service
  -- in place, and every object stays under its key. Whatever objects there were before, a
  -- Deployment under the key of the built one had its selector.
  pub reconcile_resources-IsInPlace :
      (es : List Effect)
      → IsKeyed (before es)
      → IsCompatible vm (before es)
      → IsInPlace vm (after es) × IsKeyed (after es)
  reconcile_resources-IsInPlace es keyed fits =
      let first = HasDeployment-call allocate vm (owner vm) (before es) _ keyed refl in
      let both = HasService-call allocate vm (owner vm) (with_first es) _ first.1 refl in
      let kept =
        ap (λ (f : Key → Option SeenDeployment). f (build_deployment vm).key)
          (deployments-service_call allocate vm (owner vm) (with_first es)
            ((with_first es).services (build_service vm).key)) in
      subst (λ (t : Store). IsInPlace vm t × IsKeyed t) (sym (after-with_both es keyed fits))
        (((first.0.0, (kept ∙ first.0.1.0, first.0.1.1)), both.0), both.1)

  -- The two calls, replayed.
  pub replay-calls : (es : List Effect) → replay allocate (calls es) store ≡ with_both es
  replay-calls es =
      replay-append allocate (es ++ first_call es ∷ []) (second_call es) store
      ∙ ap (λ t. apply allocate (second_call es) t)
          (replay-append allocate es (first_call es) store)
      ∙ ap
          (λ (t : Store).
            apply allocate (service_call vm (owner vm) (t.services (build_service vm).key))
              (with_first es))
          (replay-append allocate es (first_call es) store)

  deployments_rest :
      (es : List Effect) (d : SeenDeployment)
      → IsKeyed (before es)
      → HasDeployment vm (before es) d
      → (l : Key) → (with_both es).deployments l ≡ (before es).deployments l
  deployments_rest es d keyed hd l =
      ap (λ (f : Key → Option SeenDeployment). f l)
        (deployments-service_call allocate vm (owner vm) (with_first es)
          ((with_first es).services (build_service vm).key))
      ∙ deployment_call_rests allocate vm (owner vm) (before es) d keyed hd l

  services_rest :
      (es : List Effect) (s : Service)
      → IsKeyed (before es)
      → HasService vm (before es) s
      → (l : Key) → (with_both es).services l ≡ (before es).services l
  services_rest es s keyed hs l =
      let kept =
        services-deployment_call allocate vm (owner vm) (before es)
          ((before es).deployments (build_deployment vm).key) in
      let first = HasDeployment-call allocate vm (owner vm) (before es) _ keyed refl in
      service_call_rests allocate vm (owner vm) (with_first es) s first.1
        (ap (λ (f : Key → Option Service). f (build_service vm).key) kept ∙ hs.0, hs.1) l
      ∙ ap (λ (f : Key → Option Service). f l) kept

  deployment-calls :
      (es : List Effect) (d : SeenDeployment)
      → IsKeyed (before es)
      → HasDeployment vm (before es) d
      → (replay allocate (calls es) store).deployments (deployment_key vm) ≡ some d
  unfolding build_deployment
  deployment-calls es d keyed hd =
      ap (λ (t : Store). t.deployments (deployment_key vm)) (replay-calls es)
      ∙ deployments_rest es d keyed hd (deployment_key vm)
      ∙ hd.0

  -- Once both objects are in place, a reconcile of the resources on an API server that works
  -- changes no Deployment and no Service, and writes the status of the Deployment `d` that it
  -- finds. If enough replicas of it are ready, the phase is Ready and the reconcile does not ask
  -- to be called again.
  pub reconcile_resources_rests :
      (es : List Effect) (d : SeenDeployment) (s : Service)
      → IsKeyed (before es)
      → HasDeployment vm (before es) d
      → HasService vm (before es) s
      → ((l : Key) → (after es).deployments l ≡ (before es).deployments l)
        × ((l : Key) → (after es).services l ≡ (before es).services l)
        × ((reconcile_resources cluster now vm es).1
            ≡ calls es ++ wrote_status (written now vm (ok d)) ∷ [])
        × (lebℤ (wanted_replicas vm.spec.replicas) d.ready_replicas ≡ true
            → ((written now vm (ok d)).status.phase ≡ ready)
              × ((reconcile_resources cluster now vm es).0 ≡ done))
  reconcile_resources_rests es d s keyed hd hs =
      let fits = HasDeployment-IsCompatible vm (before es) d hd in
      let status : final_status es ≡ written now vm (ok d) =
        ap (λ (o : Option SeenDeployment). written now vm (found o))
          (deployment-calls es d keyed hd) in
      let result = reconcile_resources_found es keyed fits in
      (
        λ l.
            ap (λ (t : Store). t.deployments l) (after-with_both es keyed fits)
            ∙ deployments_rest es d keyed hd l,
        λ l.
            ap (λ (t : Store). t.services l) (after-with_both es keyed fits)
            ∙ services_rest es s keyed hs l,
        ap (λ (r : Outcome × List Effect). r.1) result
            ∙ ap (λ (v : VoiceModel). calls es ++ wrote_status v ∷ []) status,
        λ h.
            let is_ready = (written_ready_iff now vm (ok d)).1 h in
            (
              is_ready,
              ap (λ (r : Outcome × List Effect). r.0) result
                  ∙ ap (λ (v : VoiceModel). answered cluster v (ok tt)) status
                  ∙ ap
                      (λ (p : VoiceModelPhase).
                        if is_settled p then done else requeue_after ten_seconds)
                      is_ready,
            ),
      )

  -- The object of the VoiceModel after such a reconcile has the status that was written.
  pub model_after :
      (es : List Effect) (d : SeenDeployment)
      → IsKeyed (before es)
      → HasDeployment vm (before es) d
      → (after es).models vm.key ≡ some (written now vm (ok d))
  model_after es d keyed hd =
      let fits = HasDeployment-IsCompatible vm (before es) d hd in
      let status : final_status es ≡ written now vm (ok d) =
        ap (λ (o : Option SeenDeployment). written now vm (found o))
          (deployment-calls es d keyed hd) in
      ap (λ (t : Store). t.models vm.key) (after-with_both es keyed fits)
      ∙ ap (λ (v : VoiceModel). put v.key v (with_both es).models vm.key) status
      ∙ put_self vm.key (written now vm (ok d)) (with_both es).models
