-- ===== src/Operator/Composition/Tests.antt =====
-- A pipeline of one stage, over a VoiceModel whose reconcile found two replicas ready.
use voxplatform.Prelude.{◌≡◌, refl, pos, false, none, some, List, [], ◌∷◌}
use voxplatform.Operator.WorkQueue.{started}
use voxplatform.Operator.Api.{ok, VoiceModelPhase}
use voxplatform.Operator.VoiceModels.{VoiceModel, build_deployment}
use voxplatform.Operator.VoiceModels.Reconcile.{SeenDeployment}
use voxplatform.Operator.VoiceModels.Reconcile.Status.{written}
use voxplatform.Operator.VoiceModels.Reconcile.Store.{Store, put}
use voxplatform.Operator.VoiceModels.Reconcile.Calls.{put_self}
use voxplatform.Operator.Pipelines.{InferencePipeline, InferencePipelinePhase, PipelineStage}
use voxplatform.Operator.Pipelines.Queue.{Cluster}
use voxplatform.Operator.Pipelines.Queue.Drain.{drain}
use voxplatform.Operator.Pipelines.Queue.Single.{direct, direct-IsHealthy, single, single-IsStart}
use voxplatform.Operator.Composition.Published.{models_of, IsPublished, drained-IsPublished}

abbrev whisper : VoiceModel
whisper = record {
  key = record { namespace = "vox"; name = "whisper" };
  finalizers = [];
  deleting = false;
  spec = record {
    model = "small";
    replicas = some (pos 2);
    device = "cpu";
    quantization = "int8";
    image = "";
    resources = none;
    port = pos 0;
    health = none;
    metrics = none;
  };
  status = record {
    phase = VoiceModelPhase.unset;
    ready_replicas = pos 0;
    endpoint = "";
    message = "";
    last_transition_time = none;
  };
}

abbrev two_up : SeenDeployment
two_up = record { deployment = build_deployment whisper; ready_replicas = pos 2; conditions = [] }

abbrev store : Store
store = record {
  deployments = λ k. none;
  services = λ k. none;
  models = put whisper.key (written 7 whisper (ok two_up)) (λ k. none);
}

abbrev stages : List PipelineStage
stages = record { name = "stt"; model = "whisper"; enabled = none } ∷ []

abbrev talk : InferencePipeline
talk = record {
  key = record { namespace = "vox"; name = "talk" };
  deleting = false;
  stages = stages;
  status = record {
    phase = InferencePipelinePhase.unset;
    stages = [];
    message = "";
    last_transition_time = none;
  };
}

abbrev cluster : Cluster
cluster = single (models_of store) talk

drained-IsPublished_example :
    (q : InferencePipeline) × ((drain direct 9 cluster.queue cluster.world).pipelines talk.key
      ≡ some q)
    × (q.stages ≡ stages)
    × IsPublished store q
drained-IsPublished_example =
    drained-IsPublished direct 9 cluster cluster store talk.key talk direct-IsHealthy
      (single-IsStart (models_of store) talk) started refl refl refl
      (
        (λ on. (
          7,
          whisper,
          two_up,
          refl,
          put_self whisper.key (written 7 whisper (ok two_up)) (λ k. none),
          refl,
        )),
        tt,
      )
