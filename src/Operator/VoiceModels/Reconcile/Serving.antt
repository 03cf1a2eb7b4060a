-- ===== src/Operator/VoiceModels/Reconcile/Serving.antt =====
-- Whether a VoiceModel that is Ready is served by its Deployment, and what a reconcile of the
-- resources of one VoiceModel makes of the others.
use mathlib.Core.List.{Memᴰ}
use mathlib.Core.Path.{subst}
use text.Mathlib.TextLemmas.{append_cancel_left}
use voxplatform.Prelude.{
  ℕ, ◌≡◌, ◌≢◌, ◌⊎◌, inl, inr, refl, sym, ap, ◌∙◌, String, false, Option, none, some, List, arith,
  eq_iff, Bool-cases,
}
use voxplatform.Operator.WorkQueue.{set_cases}
use voxplatform.Operator.Api.{Key, Reply, ok, err, ready, found, same_key, same_key→eq}
use voxplatform.Operator.VoiceModels.{
  VoiceModel, wanted_replicas, build_service, build_deployment, deployment_name, Service,
}
use voxplatform.Operator.VoiceModels.Reconcile.{SeenDeployment, Effect, wrote_status, Cluster}
use voxplatform.Operator.VoiceModels.Reconcile.Status.{
  written, deployment_key, IsServing, written_ready_iff,
}
use voxplatform.Operator.VoiceModels.Reconcile.Store.{Store, put, apply, replay, IsLawful, IsKeyed}
use voxplatform.Operator.VoiceModels.Reconcile.Calls.{
  IsCompatible, deployment_call, service_call, deployments-service_call,
}
use voxplatform.Operator.VoiceModels.Reconcile.Converge.{
  before, after, with_first, with_both, final_status, calls, after-with_both, replay-calls,
  reconcile_resources-IsInPlace,
}

-- The Deployment of the VoiceModel has enough replicas ready.
abbrev pub IsServed : Store → VoiceModel → Type 0
IsServed store m =
    IsServing (wanted_replicas m.spec.replicas) (found (store.deployments (deployment_key m)))

abbrev pub IsHonestAt : Store → List Key → Key → VoiceModel → Type 0
IsHonestAt store queue k m =
    (m.key ≡ k) × (m.deleting ≡ false → m.status.phase ≡ ready → IsServed store m ⊎ Memᴰ k queue)

-- Each stored VoiceModel that is Ready and is not being deleted is served, or its key is queued.
abbrev pub IsHonest : Store → List Key → Type 0
IsHonest store queue =
    IsKeyed store
    × ((k : Key) (m : VoiceModel) → store.models k ≡ some m → IsHonestAt store queue k m)

put_other :
    {A : Type 0} (k l : Key) (a : A) (objects : Key → Option A)
    → k ≢ l
    → put k a objects l ≡ objects l
put_other k l a objects n = elim (Bool-cases (same_key k l)) [
  | inl same ↦ absurd (n (same_key→eq k l same))
  | inr away ↦ simp away refl
]

same_fields : (k l : Key) → k.namespace ≡ l.namespace → k.name ≡ l.name → k ≡ l
same_fields k l e f =
    same_key→eq k l (ground (arith, e, f, eq_iff k.namespace l.namespace, eq_iff k.name l.name))

pub deployment_key-injective :
    (a b : VoiceModel) → deployment_key a ≡ deployment_key b → a.key ≡ b.key
unfolding deployment_name
deployment_key-injective a b e =
    same_fields a.key b.key (ap (λ (k : Key). k.namespace) e)
      (append_cancel_left "vox-" a.key.name b.key.name (ap (λ (k : Key). k.name) e))

key-written :
    (now : ℕ) (vm : VoiceModel) (r : Reply SeenDeployment) → (written now vm r).key ≡ vm.key
key-written now vm (ok d) = refl
key-written now vm (err e) = refl

IsServed-written :
    (now : ℕ) (vm : VoiceModel) (r : Reply SeenDeployment) (s : Store)
    → IsServed s vm
    → IsServed s (written now vm r)
unfolding deployment_name
IsServed-written now vm (ok d) s h = h
IsServed-written now vm (err e) s h = h

module _ (allocate : Key → String) (vm : VoiceModel) (owner : Key) (store : Store) where
  models-deployment_call :
      (o : Option SeenDeployment)
      → (apply allocate (deployment_call vm owner o) store).models ≡ store.models
  models-deployment_call none = refl
  models-deployment_call (some seen) = refl

  models-service_call :
      (o : Option Service) → (apply allocate (service_call vm owner o) store).models ≡ store.models
  models-service_call none = refl
  models-service_call (some seen) = refl

  other_deployments :
      (o : Option SeenDeployment) (l : Key)
      → IsKeyed store
      → store.deployments (build_deployment vm).key ≡ o
      → (build_deployment vm).key ≢ l
      → (apply allocate (deployment_call vm owner o) store).deployments l ≡ store.deployments l
  other_deployments none l keyed h n = put_other _ l _ store.deployments n
  other_deployments (some seen) l keyed h n =
      put_other _ l _ store.deployments (λ e. n (sym (keyed.0 _ seen h) ∙ e))

-- One reconcile of the resources of a VoiceModel, after the calls `es`.
module _ (cluster : Cluster) (allocate : Key → String) (owner : VoiceModel → Key) (store : Store)
    (lawful : IsLawful cluster allocate owner store) (now : ℕ) (vm : VoiceModel) (es : List Effect)
    (keyed : IsKeyed (replay allocate es store))
    (fits : IsCompatible vm (replay allocate es store)) where
  abbrev found_store : Store
  found_store = before cluster allocate owner store lawful now vm es

  abbrev left_store : Store
  left_store = after cluster allocate owner store lawful now vm es

  abbrev one_call : Store
  one_call = with_first cluster allocate owner store lawful now vm es

  abbrev two_calls : Store
  two_calls = with_both cluster allocate owner store lawful now vm es

  abbrev final : VoiceModel
  final = final_status cluster allocate owner store lawful now vm es

  left : left_store ≡ apply allocate (wrote_status final) two_calls
  left = after-with_both cluster allocate owner store lawful now vm es keyed fits

  models_left : left_store.models ≡ put vm.key final found_store.models
  models_left =
      ap (λ (t : Store). t.models) left
      ∙ ap (λ (k : Key). put k final two_calls.models) (key-written now vm _)
      ∙ ap (put vm.key final) (
          models-service_call allocate vm (owner vm) _ _
          ∙ models-deployment_call allocate vm (owner vm) found_store _)

  deployments_left :
      (l : Key)
      → (build_deployment vm).key ≢ l
      → left_store.deployments l ≡ found_store.deployments l
  deployments_left l n =
      ap (λ (t : Store). t.deployments l) left
      ∙ ap (λ (f : Key → Option SeenDeployment). f l)
          (deployments-service_call allocate vm (owner vm) one_call
            (one_call.services (build_service vm).key))
      ∙ other_deployments allocate vm (owner vm) found_store _ l keyed refl n

  final-IsServed : final.status.phase ≡ ready → IsServed left_store final
  final-IsServed h =
      let read = found (
        (replay allocate (calls cluster allocate owner store lawful now vm es) store).deployments
          (deployment_key vm)) in
      IsServed-written now vm read left_store (
        subst
          (λ (o : Option SeenDeployment). IsServing (wanted_replicas vm.spec.replicas) (found o))
          (ap (λ (t : Store). t.deployments (deployment_key vm))
              (replay-calls cluster allocate owner store lawful now vm es)
            ∙ sym (ap (λ (t : Store). t.deployments (deployment_key vm)) left))
          ((written_ready_iff now vm read).0 h))

  other_key : (m : VoiceModel) → vm.key ≢ m.key → (build_deployment vm).key ≢ deployment_key m
  unfolding build_deployment
  other_key m n e = n (deployment_key-injective vm m e)

  pub resources-IsHonest :
      (queue queue' : List Key)
      → ((k : Key) → vm.key ≢ k → Memᴰ k queue → Memᴰ k queue')
      → IsHonest found_store queue
      → IsHonest left_store queue'
  resources-IsHonest queue queue' others (k, honest) = (
    (reconcile_resources-IsInPlace cluster allocate owner store lawful now vm es keyed fits).1,
    λ k m h.
        elim (set_cases vm.key (some final) found_store.models k (some m)
          (sym (ap (λ (f : Key → Option VoiceModel). f k) models_left) ∙ h)) [
            | inl (own, same) ↦
                let new : final ≡ m = cc same in
                subst (IsHonestAt left_store queue' k) new
                  (key-written now vm _ ∙ own, λ live up. inl (final-IsServed up))
            | inr (n, old) ↦
                let (key, status) = honest k m old in
                (
                  key,
                  λ live up. elim (status live up) [
                    | inl served ↦ inl (
                        subst
                          (λ (o : Option SeenDeployment).
                            IsServing (wanted_replicas m.spec.replicas) (found o))
                          (sym
                            (deployments_left (deployment_key m) (other_key m (λ e. n (e ∙ key)))))
                          served)
                    | inr queued ↦ inr (others k n queued)
                  ],
                )
          ],
  )
