-- ===== src/Operator/VoiceModels/Reconcile/Tests.antt =====
-- A Ready VoiceModel that loses one of its two replicas.
use mathlib.Core.List.{Memᴰ}
use voxplatform.Prelude.{◌≡◌, ◌⊎◌, inl, inr, refl, sym, ap, ◌∙◌, pos, false, none, some, [], ◌∷◌}
use voxplatform.Operator.WorkQueue.{Reach, started, stepped}
use voxplatform.Operator.WorkQueue.{set, set_cases}
use voxplatform.Operator.Api.{ok, VoiceModelPhase}
use voxplatform.Operator.VoiceModels.{VoiceModel, build_deployment}
use voxplatform.Operator.VoiceModels.Reconcile.{SeenDeployment}
use voxplatform.Operator.VoiceModels.Reconcile.Status.{written, deployment_key}
use voxplatform.Operator.VoiceModels.Reconcile.Store.{IsKeyed}
use voxplatform.Operator.VoiceModels.Reconcile.Serving.{IsServed}
use voxplatform.Operator.VoiceModels.Reconcile.Watch.{
  Controller, IsStart, owned, deployment_changed, Step,
}
use voxplatform.Operator.VoiceModels.Reconcile.Honest.{ready_holds}

abbrev wanted : VoiceModel
wanted = record {
  key = record { namespace = "vox"; name = "whisper" };
  finalizers = [];
  deleting = false;
  spec = record {
    model = "small";
    replicas = some (pos 2);
    device = "cpu";
    quantization = "int8";
    image = "";
    resources = none;
    port = pos 0;
    health = none;
    metrics = none;
  };
  status = record {
    phase = VoiceModelPhase.unset;
    ready_replicas = pos 0;
    endpoint = "";
    message = "";
    last_transition_time = none;
  };
}

abbrev seen_with : SeenDeployment
seen_with = record {
  deployment = record (build_deployment wanted) { owner = some wanted.key };
  ready_replicas = pos 2;
  conditions = [];
}

abbrev one_left : SeenDeployment
one_left = record seen_with { ready_replicas = pos 1 }

abbrev serving : VoiceModel
serving = written 7 wanted (ok seen_with)

abbrev start : Controller
start = record {
  store = record {
    deployments = set (deployment_key wanted) (some seen_with) (λ k. none);
    services = λ k. none;
    models = set wanted.key (some serving) (λ k. none);
  };
  queue = wanted.key ∷ [];
}

start-IsKeyed : IsKeyed start.store
unfolding build_deployment
start-IsKeyed = (
  λ k d h. elim (set_cases (deployment_key wanted) (some seen_with) (λ l. none) k (some d) h) [
    | inl (e, same) ↦
        let new : seen_with ≡ d = cc same in
        sym (ap (λ (x : SeenDeployment). x.deployment.key) new) ∙ e
    | inr (n, old) ↦ cc old
  ],
  λ k s h. cc,
)

start-IsStart : IsStart start
start-IsStart = (
  start-IsKeyed,
  λ k m h. elim (set_cases wanted.key (some serving) (λ l. none) k (some m) h) [
    | inl (e, same) ↦
        let new : serving ≡ m = cc same in
        (sym (ap (λ (x : VoiceModel). x.key) new) ∙ e, Memᴰ.head (sym e))
    | inr (n, old) ↦ cc old
  ],
)

own_key : (d : SeenDeployment) → some one_left ≡ some d → d.deployment.key ≡ deployment_key wanted
unfolding build_deployment
own_key d h =
    let new : one_left ≡ d = cc h in sym (ap (λ (x : SeenDeployment). x.deployment.key) new)

abbrev shrunk : Controller
shrunk = record {
  store = record (start.store) {
    deployments = set (deployment_key wanted) (some one_left) start.store.deployments;
  };
  queue = wanted.key ∷ wanted.key ∷ [];
}

shrunk-Reach : Reach Step start shrunk
shrunk-Reach =
    stepped started
      (deployment_changed start wanted (some one_left) own_key (inr (owned one_left refl)))

ready_holds_example : IsServed shrunk.store serving ⊎ Memᴰ wanted.key shrunk.queue
unfolding voxplatform.Operator.VoiceModels.Reconcile.phase_of
ready_holds_example =
    ready_holds start shrunk wanted.key serving start-IsStart shrunk-Reach refl refl refl
