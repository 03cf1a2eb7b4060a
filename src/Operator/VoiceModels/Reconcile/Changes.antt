-- ===== src/Operator/VoiceModels/Reconcile/Changes.antt =====
-- Changes of the cluster around the controller of
-- operator/internal/controller/voicemodel_controller.go: each queues the VoiceModel that it
-- concerns.
use mathlib.Core.List.{Memᴰ}
use mathlib.Core.List.Memᴰ
use mathlib.Core.Path.{subst}
use voxplatform.Prelude.{
  ◌≡◌, ◌≢◌, ◌⊎◌, inl, inr, refl, sym, ◌∙◌, false, Option, none, some, List, [], ◌∷◌, ◌++◌,
  Bool-cases,
}
use voxplatform.Operator.WorkQueue.{queued_last, set, set_cases}
use voxplatform.Operator.Api.{Key, ready, found, same_key, same_key→eq}
use voxplatform.Operator.VoiceModels.{VoiceModel, wanted_replicas}
use voxplatform.Operator.VoiceModels.Reconcile.{SeenDeployment}
use voxplatform.Operator.VoiceModels.Reconcile.Status.{deployment_key, IsServing}
use voxplatform.Operator.VoiceModels.Reconcile.Store.{Store, put}
use voxplatform.Operator.VoiceModels.Reconcile.Serving.{
  deployment_key-injective, IsServed, IsHonestAt, IsHonest,
}
use voxplatform.Operator.VoiceModels.Reconcile.Watch.{Controller}

module _ (store : Store) (queue queue' : List Key) where
  pub model_put-IsHonest :
      (m : VoiceModel)
      → ((k : Key) → m.key ≢ k → Memᴰ k queue → Memᴰ k queue')
      → (m.deleting ≡ false → m.status.phase ≡ ready → IsServed store m ⊎ Memᴰ m.key queue')
      → IsHonest store queue
      → IsHonest (record store { models = put m.key m store.models }) queue'
  model_put-IsHonest m others up (keyed, honest) = (
    keyed,
    λ k q h. elim (set_cases m.key (some m) store.models k (some q) h) [
      | inl (own, same) ↦
          let new : m ≡ q = cc same in
          subst (IsHonestAt (record store { models = put m.key m store.models }) queue' k) new (
            own,
            λ live is_up. subst (λ (x : Key). IsServed store m ⊎ Memᴰ x queue') own (up live is_up),
          )
      | inr (n, old) ↦
          let (key, status) = honest k q old in
          (
            key,
            λ live is_up. elim (status live is_up) [
              | inl served ↦ inl served
              | inr queued ↦ inr (others k n queued)
            ],
          )
    ],
  )

module _ (c : Controller) (held : IsHonest c.store c.queue) where
  pub deployment_changed-IsHonest :
      (vm : VoiceModel) (seen : Option SeenDeployment)
      → ((d : SeenDeployment) → seen ≡ some d → d.deployment.key ≡ deployment_key vm)
      → IsHonest
          (record (c.store) { deployments = set (deployment_key vm) seen c.store.deployments })
          (c.queue ++ vm.key ∷ [])
  deployment_changed-IsHonest vm seen own = (
    (
      λ k d h. elim (set_cases (deployment_key vm) seen c.store.deployments k (some d) h) [
        | inl (e, same) ↦ own d same ∙ e
        | inr (n, old) ↦ held.0.0 k d old
      ],
      held.0.1,
    ),
    λ k m h.
        let (key, status) = held.1 k m h in
        (
          key,
          λ live up. elim (Bool-cases (same_key (deployment_key vm) (deployment_key m))) [
            | inl same ↦
                let e = deployment_key-injective vm m (same_key→eq _ _ same) in
                inr (
                  subst (λ (x : Key). Memᴰ x (c.queue ++ vm.key ∷ [])) (e ∙ key)
                    (queued_last vm.key c.queue))
            | inr away ↦ elim (status live up) [
              | inl served ↦ inl (
                  subst
                    (λ (o : Option SeenDeployment).
                      IsServing (wanted_replicas m.spec.replicas) (found o))
                    (sym (simp away refl)) served)
              | inr queued ↦ inr (Memᴰ.append_left _ queued)
            ]
          ],
        ),
  )

  pub model_removed-IsHonest :
      (k : Key)
      → IsHonest (record (c.store) { models = set k none c.store.models }) (c.queue ++ k ∷ [])
  model_removed-IsHonest gone = (
    held.0,
    λ k m h. elim (set_cases gone none c.store.models k (some m) h) [
      | inl (e, none_some) ↦ cc
      | inr (n, old) ↦
          let (key, status) = held.1 k m old in
          (
            key,
            λ live up. elim (status live up) [
              | inl served ↦ inl served
              | inr queued ↦ inr (Memᴰ.append_left _ queued)
            ],
          )
    ],
  )
