-- ===== src/Operator/VoiceModels/Tests.antt =====
-- A VoiceModel with two replicas on a cluster that holds neither a Deployment nor a Service, or
-- whose Deployment has one replica ready.
use voxplatform.Prelude.{
  ◌++◌, pos, lebℤ, ◌≡◌, ◌↔◌, refl, String, Bool, true, false, ◌||◌, none, some, List, [], ◌∷◌,
  if◌then◌else◌, ◌=s◌,
}
use voxplatform.Operator.Api.{
  Key, Outcome, done, ApiError, not_found, already_exists, other, Reply, ok, err, unset, ready,
}
use voxplatform.Operator.VoiceModels.{VoiceModel, build_deployment, build_service}
use voxplatform.Operator.VoiceModels.Defaults.{
  with_defaults, with_env, default_env, build-with_defaults,
}
use voxplatform.Operator.VoiceModels.Build.{IsReached, build_service-IsReached}
use voxplatform.Operator.VoiceModels.Reconcile.{
  Effect, SeenDeployment, wrote_status, Cluster, update_status, reconcile_resources,
}
use voxplatform.Operator.VoiceModels.Reconcile.Status.{
  IsServing, IsTimed, answered, written, update_status_lem,
}
use voxplatform.Operator.VoiceModels.Reconcile.Store.{Store, put, replay, found, IsLawful, IsKeyed}
use voxplatform.Operator.VoiceModels.Reconcile.Calls.{
  HasDeployment-IsCompatible, IsInPlace, keyed_put, put_self,
}
use voxplatform.Operator.VoiceModels.Reconcile.Converge.{
  calls, reconcile_resources-IsInPlace, reconcile_resources_rests,
}
use voxplatform.Operator.VoiceModels.Reconcile.Trace.{Ends, reconcile_resources-Ends}

abbrev whisper : VoiceModel
whisper = record {
  key = record { namespace = "vox"; name = "whisper" };
  finalizers = [];
  deleting = false;
  spec = record {
    model = "small";
    replicas = some (pos 2);
    device = "cpu";
    quantization = "int8";
    image = "";
    resources = none;
    port = pos 0;
    health = none;
    metrics = none;
  };
  status = record {
    phase = unset;
    ready_replicas = pos 0;
    endpoint = "";
    message = "";
    last_transition_time = none;
  };
}

abbrev half : SeenDeployment
half = record { deployment = build_deployment whisper; ready_replicas = pos 1; conditions = [] }

abbrev contains : List String → String → Bool
contains [] f = false
contains (x ∷ fs) f = x =s f || contains fs f

abbrev remove : List String → String → List String
remove [] f = []
remove (x ∷ fs) f = let rest = remove fs f in if x =s f then rest else x ∷ rest

abbrev describe : ApiError → String
describe not_found = "not found"
describe already_exists = "exists"
describe (other m) = m

abbrev cluster_with : Reply SeenDeployment → Cluster
cluster_with reply = record {
  get_model = λ es k. ok whisper;
  get_deployment = λ es k. reply;
  get_service = λ es k. err not_found;
  update_model = λ es vm. ok vm;
  accept = λ es e. ok tt;
  contains_finalizer = contains;
  add_finalizer = λ fs f. f ∷ fs;
  remove_finalizer = remove;
  controller_reference = λ vm. ok vm.key;
  describe = describe;
}

build_service-IsReached_example : IsReached (build_service whisper) (build_deployment whisper)
build_service-IsReached_example = build_service-IsReached whisper

abbrev bare : VoiceModel
bare = record whisper {
  spec = record (whisper.spec) {
    replicas = none;
    device = "";
    quantization = "";
    health = some (record { path = ""; initial_delay_seconds = pos 0; period_seconds = pos 5 });
  };
}

build-with_defaults_example :
    (build_service (with_defaults bare) ≡ build_service bare)
    × (build_deployment (with_defaults bare)
        ≡ with_env (default_env bare.spec) (build_deployment bare))
build-with_defaults_example = build-with_defaults bare

abbrev half_up : VoiceModel
half_up = written 7 whisper (ok half)

update_status_lem_example :
    (update_status (cluster_with (ok half)) 7 whisper []
      ≡ (answered (cluster_with (ok half)) half_up (ok tt), wrote_status half_up ∷ []))
    × ((half_up.status.phase ≡ ready) ↔ IsServing (pos 2) (ok half))
    × IsTimed 7 whisper half_up
update_status_lem_example = update_status_lem (cluster_with (ok half)) 7 whisper [] half_up refl

reconcile_resources-Ends_example :
    Ends
      (cluster_with (err not_found))
      7
      whisper
      []
      (reconcile_resources (cluster_with (err not_found)) 7 whisper [])
reconcile_resources-Ends_example =
    reconcile_resources-Ends (cluster_with (err not_found)) 7 whisper []

-- An API server that keeps the objects by key, after the calls so far.
abbrev address_of : Key → String
address_of k = "10.0.0.1"

abbrev memory_cluster : Store → Cluster
memory_cluster store = record (cluster_with (err not_found)) {
  get_deployment = λ es k. found ((replay address_of es store).deployments k);
  get_service = λ es k. found ((replay address_of es store).services k);
}

abbrev owner_of : VoiceModel → Key
owner_of vm = vm.key

memory_cluster-IsLawful :
    (store : Store) → IsLawful (memory_cluster store) address_of owner_of store
memory_cluster-IsLawful store = record {
  read_deployment = λ es k. refl;
  read_service = λ es k. refl;
  accepts = λ es e keeps. refl;
  owned = λ vm. refl;
}

abbrev empty_store : Store
empty_store = record { deployments = λ k. none; services = λ k. none; models = λ k. none }

abbrev both_up : SeenDeployment
both_up = record half { ready_replicas = pos 2 }

abbrev served_store : Store
served_store = record empty_store {
  deployments = put (build_deployment whisper).key both_up empty_store.deployments;
  services = put (build_service whisper).key (build_service whisper) empty_store.services;
}

served_store-IsKeyed : IsKeyed served_store
served_store-IsKeyed = (
  keyed_put (λ d. d.deployment.key) (build_deployment whisper).key both_up empty_store.deployments
      refl (λ k d e. cc),
  keyed_put (λ s. s.key) (build_service whisper).key (build_service whisper) empty_store.services
      refl (λ k s e. cc),
)

abbrev served_again : Outcome × List Effect
served_again = reconcile_resources (memory_cluster served_store) 7 whisper []

reconcile_resources_rests_example :
    ((l : Key)
      → (replay address_of served_again.1 served_store).deployments l ≡ served_store.deployments l)
    × ((l : Key)
        → (replay address_of served_again.1 served_store).services l ≡ served_store.services l)
    × (served_again.1
        ≡ calls
            (memory_cluster served_store)
            address_of
            owner_of
            served_store
            (memory_cluster-IsLawful served_store)
            7
            whisper
            []
          ++ wrote_status (written 7 whisper (ok both_up)) ∷ [])
    × (lebℤ (pos 2) (pos 2) ≡ true
        → ((written 7 whisper (ok both_up)).status.phase ≡ ready) × (served_again.0 ≡ done))
reconcile_resources_rests_example =
    reconcile_resources_rests (memory_cluster served_store) address_of owner_of served_store
      (memory_cluster-IsLawful served_store) 7 whisper [] both_up (build_service whisper)
      served_store-IsKeyed
      (put_self (build_deployment whisper).key both_up empty_store.deployments, refl)
      (put_self (build_service whisper).key (build_service whisper) empty_store.services, refl)

-- The Deployment is there, without its Service, and is updated.
abbrev deployed_store : Store
deployed_store = record empty_store { deployments = served_store.deployments }

abbrev placed : List Effect
placed = (reconcile_resources (memory_cluster deployed_store) 7 whisper []).1

reconcile_resources-IsInPlace_example :
    IsInPlace whisper (replay address_of placed deployed_store)
    × IsKeyed (replay address_of placed deployed_store)
reconcile_resources-IsInPlace_example =
    reconcile_resources-IsInPlace (memory_cluster deployed_store) address_of owner_of deployed_store
      (memory_cluster-IsLawful deployed_store) 7 whisper [] (served_store-IsKeyed.0, λ k s e. cc)
      (HasDeployment-IsCompatible whisper deployed_store both_up
        (put_self (build_deployment whisper).key both_up empty_store.deployments, refl))
