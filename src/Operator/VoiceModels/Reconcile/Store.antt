-- ===== src/Operator/VoiceModels/Reconcile/Store.antt =====
-- An API server that keeps objects by key, as the reconciler of a VoiceModel meets it: what its
-- calls do to the objects, and what reads then answer.
use voxplatform.Prelude.{◌≡◌, refl, pos, String, Option, none, some, List, [], ◌∷◌, ◌++◌}
use voxplatform.Operator.Api.{Key, ok}
pub use voxplatform.Operator.Api.{found, same_key, put, same_key_self}
use voxplatform.Operator.VoiceModels.{VoiceModel, Deployment, Service}
use voxplatform.Operator.VoiceModels.Reconcile.{
  SeenDeployment, Effect, updated_model, created_deployment, updated_deployment, created_service,
  updated_service, wrote_status, Cluster,
}

pub record Store : Type 0 where
  pub deployments : Key → Option SeenDeployment
  pub services : Key → Option Service
  pub models : Key → Option VoiceModel

abbrev fresh : Deployment → SeenDeployment
fresh d = record { deployment = d; ready_replicas = pos 0; conditions = [] }

-- An update of a Deployment leaves its status to the Deployment's controller.
abbrev with_deployment : Deployment → Option SeenDeployment → SeenDeployment
with_deployment d none = fresh d
with_deployment d (some seen) = record seen { deployment = d }

-- A new Service is given an address.
abbrev addressed : String → Service → Service
addressed address s = record s { spec = record (s.spec) { cluster_ip = address } }

module _ (allocate : Key → String) where
  abbrev pub apply : Effect → Store → Store
  apply (created_deployment d) store = record store {
    deployments = put d.key (fresh d) store.deployments;
  }
  apply (updated_deployment d) store = record store {
    deployments = put d.key (with_deployment d (store.deployments d.key)) store.deployments;
  }
  apply (created_service s) store = record store {
    services = put s.key (addressed (allocate s.key) s) store.services;
  }
  apply (updated_service s) store = record store { services = put s.key s store.services }
  apply (updated_model vm) store = record store { models = put vm.key vm store.models }
  apply (wrote_status vm) store = record store { models = put vm.key vm store.models }

  -- The objects after these calls, oldest first.
  abbrev pub replay : List Effect → Store → Store
  replay [] store = store
  replay (e ∷ es) store = replay es (apply e store)

  pub replay-append :
      (es : List Effect) (e : Effect) (store : Store)
      → replay (es ++ e ∷ []) store ≡ apply e (replay es store)
  replay-append [] e store = refl
  replay-append (x ∷ es) e store = replay-append es e (apply x store)

-- An update of a Deployment keeps the selector of the stored one, which is immutable.
abbrev pub KeepsSelector : Effect → Store → Type 0
KeepsSelector (updated_deployment d) store =
    (seen : SeenDeployment)
    → store.deployments d.key ≡ some seen
    → seen.deployment.spec.selector ≡ d.spec.selector
KeepsSelector _ store = Unit

-- The cluster answers reads from the objects, accepts a call that changes no selector, and knows
-- the owner.
pub record IsLawful (cluster : Cluster) (allocate : Key → String) (owner : VoiceModel → Key)
    (store : Store) : Type 0 where
  pub read_deployment :
      (es : List Effect) (k : Key)
      → cluster.get_deployment es k ≡ found ((replay allocate es store).deployments k)
  pub read_service :
      (es : List Effect) (k : Key)
      → cluster.get_service es k ≡ found ((replay allocate es store).services k)
  pub accepts :
      (es : List Effect) (e : Effect)
      → KeepsSelector e (replay allocate es store)
      → cluster.accept es e ≡ ok tt
  pub owned : (vm : VoiceModel) → cluster.controller_reference vm ≡ ok (owner vm)

-- Every object is kept under its own key.
abbrev pub IsKeyed : Store → Type 0
IsKeyed store =
    ((k : Key) (d : SeenDeployment) → store.deployments k ≡ some d → d.deployment.key ≡ k)
    × ((k : Key) (s : Service) → store.services k ≡ some s → s.key ≡ k)
