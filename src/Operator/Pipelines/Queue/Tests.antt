-- ===== src/Operator/Pipelines/Queue/Tests.antt =====
-- Two VoiceModels and a pipeline over them: one of the VoiceModels becomes Ready.
use mathlib.Core.List.{Memᴰ}
use voxplatform.Prelude.{
  ◌≡◌, ◌⊎◌, refl, sym, String, true, false, none, some, List, [], ◌∷◌, if◌then◌else◌, ◌=s◌,
}
use voxplatform.Operator.WorkQueue.{Reach, started, stepped}
use voxplatform.Operator.WorkQueue.{set}
use voxplatform.Operator.Api.{Reply, ok, Key, VoiceModelPhase}
use voxplatform.Operator.Pipelines.{
  ModelStatus, unset, InferencePipeline, map_voice_model_to_pipelines,
}
use voxplatform.Operator.Pipelines.Queue.{Cluster, IsListing, model_changed, Step}
use voxplatform.Operator.Pipelines.Queue.Reads.{IsCurrent}
use voxplatform.Operator.Pipelines.Queue.Tracked.{never_stale}
use voxplatform.Operator.Pipelines.Queue.Single.{
  direct, direct-IsHealthy, single, only_one, single-IsStart,
}
use voxplatform.Operator.Pipelines.Queue.Drain.{drain, drained-IsCurrent}

abbrev key : String → Key
key name = record { namespace = "vox"; name = name }

abbrev duo : InferencePipeline
duo = record {
  key = key "duo";
  deleting = false;
  stages =
      record { name = "stt"; model = "a"; enabled = none }
      ∷ record { name = "diarize"; model = "b"; enabled = some true }
      ∷ [];
  status = record { phase = unset; stages = []; message = ""; last_transition_time = none };
}

abbrev up : String → ModelStatus
up endpoint = record { phase = VoiceModelPhase.ready; endpoint = endpoint }

abbrev down : ModelStatus
down = record { phase = VoiceModelPhase.deploying; endpoint = "" }

abbrev start : Cluster
start = single (set (key "a") (some (up "a:1")) (set (key "b") (some down) (λ k. none))) duo

abbrev list_in : String → Reply (List InferencePipeline)
list_in namespace = ok (if namespace =s "vox" then duo ∷ [] else [])

abbrev changed : Cluster
changed = record {
  world = record (start.world) { models = set (key "b") (some (up "b:1")) start.world.models };
  queue = key "duo" ∷ map_voice_model_to_pipelines list_in (key "b");
}

duo-IsListing : IsListing start.world "vox" (duo ∷ [])
duo-IsListing p h n = Memᴰ.head (sym (only_one start.world.models duo p.key p h).1)

changed-Reach : Reach Step start changed
changed-Reach =
    stepped started
      (model_changed start (key "b") (some (up "b:1")) list_in (duo ∷ []) refl duo-IsListing)

never_stale_example : IsCurrent changed.world.models duo ⊎ Memᴰ (key "duo") changed.queue
never_stale_example =
    never_stale start changed (key "duo") duo (single-IsStart start.world.models duo) changed-Reach
      refl refl

drained-IsCurrent_example :
    (q : InferencePipeline) × ((drain direct 7 changed.queue changed.world).pipelines (key "duo")
      ≡ some q)
    × (q.key ≡ key "duo")
    × (q.stages ≡ duo.stages)
    × IsCurrent changed.world.models q
drained-IsCurrent_example =
    drained-IsCurrent direct 7 start changed (key "duo") duo direct-IsHealthy
      (single-IsStart start.world.models duo) changed-Reach refl refl
