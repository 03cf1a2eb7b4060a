-- ===== src/Operator/VoiceModels/Reconcile/Watch.antt =====
-- The controller that SetupWithManager of operator/internal/controller/voicemodel_controller.go
-- registers, at work on an API server that works: VoiceModels and the Deployments that they own
-- change, their watches queue the VoiceModel, and queued VoiceModels are reconciled.
use mathlib.Core.List.{Memᴰ}
use voxplatform.Prelude.{ℕ, ◌≡◌, ◌⊎◌, String, Option, none, some, List, [], ◌∷◌, ◌++◌}
use voxplatform.Operator.WorkQueue.{again, set}
use voxplatform.Operator.Api.{Key, ok, found}
use voxplatform.Operator.VoiceModels.{VoiceModel}
use voxplatform.Operator.VoiceModels.Reconcile.{SeenDeployment, Effect, Cluster, reconcile}
use voxplatform.Operator.VoiceModels.Reconcile.Status.{deployment_key}
use voxplatform.Operator.VoiceModels.Reconcile.Calls.{IsCompatible}
use voxplatform.Operator.VoiceModels.Reconcile.Store.{Store, put, replay, IsLawful, IsKeyed}

-- Reads of VoiceModels answer what is stored, and an update of one returns it, besides the laws of
-- the calls on Deployments and Services; and no Deployment under the key of a VoiceModel's has
-- another selector, which the API server would not let the controller change.
pub record IsWorking (cluster : Cluster) (allocate : Key → String) (owner : VoiceModel → Key)
    (store : Store) : Type 0 where
  pub lawful : IsLawful cluster allocate owner store
  pub fits : (vm : VoiceModel) → IsCompatible vm store
  pub read_model : (k : Key) → cluster.get_model [] k ≡ found (store.models k)
  pub takes_model : (es : List Effect) (vm : VoiceModel) → cluster.update_model es vm ≡ ok vm

-- The stored objects and the work queue.
pub record Controller : Type 0 where
  pub store : Store
  pub queue : List Key

abbrev pub after_reconcile : Cluster → (Key → String) → ℕ → Key → List Key → Store → Controller
after_reconcile cluster allocate now key rest store = record {
  store = replay allocate (reconcile cluster now key).1 store;
  queue = again (reconcile cluster now key).0 key rest;
}

-- The object names the VoiceModel as its owner.
pub data IsOwned (vm : VoiceModel) : Option SeenDeployment → Type 0 where
  owned : (d : SeenDeployment) → d.deployment.owner ≡ some vm.key → IsOwned vm (some d)

pub data Step : Controller → Controller → Type 0 where
  -- The Deployment of a VoiceModel was changed, by its own controller or otherwise, or deleted, and
  -- named its owner before or names it after; the owner is queued. The controller does not see the
  -- changes of a Deployment without an owner.
  deployment_changed :
      (c : Controller) (vm : VoiceModel) (seen : Option SeenDeployment)
      → ((d : SeenDeployment) → seen ≡ some d → d.deployment.key ≡ deployment_key vm)
      → IsOwned vm (c.store.deployments (deployment_key vm)) ⊎ IsOwned vm seen
      → Step c (record {
        store = record (c.store) { deployments = set (deployment_key vm) seen c.store.deployments };
        queue = c.queue ++ vm.key ∷ [];
      })
  -- A VoiceModel was created or edited, or the watch delivered it again.
  model_stored :
      (c : Controller) (vm : VoiceModel)
      → Step c (record {
        store = record (c.store) { models = put vm.key vm c.store.models };
        queue = c.queue ++ vm.key ∷ [];
      })
  model_removed :
      (c : Controller) (k : Key)
      → Step c (record {
        store = record (c.store) { models = set k none c.store.models };
        queue = c.queue ++ k ∷ [];
      })
  reconciled :
      (c : Controller) (cluster : Cluster) (allocate : Key → String) (owner : VoiceModel → Key)
      (now : ℕ) (key : Key) (before rest : List Key)
      → c.queue ≡ before ++ key ∷ rest
      → IsWorking cluster allocate owner c.store
      → Step c (after_reconcile cluster allocate now key (before ++ rest) c.store)

-- The controller starts with every stored VoiceModel queued.
abbrev pub IsStart : Controller → Type 0
IsStart c =
    IsKeyed c.store
    × ((k : Key) (m : VoiceModel) → c.store.models k ≡ some m → (m.key ≡ k) × Memᴰ k c.queue)
