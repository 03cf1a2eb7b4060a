-- ===== src/Operator/Pipelines/Queue.antt =====
-- The controller that SetupWithManager of
-- operator/internal/controller/inferencepipeline_controller.go registers, at work: VoiceModels and
-- pipelines change, the watches put keys into the work queue, and queued pipelines are reconciled.
-- What a reconcile meets is a hypothesis on the API server; a key may be taken from any place of
-- the queue.
pub mod Reads
pub mod Round
pub mod Watch
pub mod Tracked
pub mod Drain
pub mod Single
mod Tests
use mathlib.Core.List.{Memᴰ}
use mathlib.Core.Option
use voxplatform.Prelude.{
  ℕ, zero, suc, ◌≡◌, ◌⊎◌, String, Option, none, some, List, [], ◌∷◌, ◌++◌, if◌then◌else◌,
}
use voxplatform.Operator.Api.{
  ApiError, other, not_found, Reply, ok, err, Key, Outcome, requeue_after, error, found, same_key,
}
use voxplatform.Operator.WorkQueue.{set, again}
use voxplatform.Operator.Pipelines.{
  ModelStatus, InferencePipeline, PipelineApi, reconcile, map_voice_model_to_pipelines,
}

-- The objects that the controller reads and writes.
pub record World : Type 0 where
  pub models : Key → Option ModelStatus
  pub pipelines : Key → Option InferencePipeline

pub record Cluster : Type 0 where
  pub world : World
  pub queue : List Key

-- An update of the status subresource replaces the status of the stored object.
abbrev pub with_status_of : InferencePipeline → Option InferencePipeline → Option InferencePipeline
with_status_of p none = none
with_status_of p (some q) = some (record q { status = p.status })

abbrev pub store_status : InferencePipeline → World → World
store_status p w = record w {
  pipelines = set p.key (with_status_of p (w.pipelines p.key)) w.pipelines;
}

-- A read that failed, which is not the answer that the object does not exist.
abbrev pub IsFailedRead : {A : Type 0} → Reply A → Type 0
IsFailedRead r = (m : String) × (r ≡ err (other m))

-- The API server answers from the stored objects, or fails. A failed update may have been applied.
pub record IsAnswering (api : PipelineApi World) (w : World) : Type 0 where
  pub reads_pipeline :
      (k : Key)
      → (api.get_pipeline k w ≡ found (w.pipelines k)) ⊎ IsFailedRead (api.get_pipeline k w)
  pub reads_model :
      (k : Key) → (api.get_model k w ≡ found (w.models k)) ⊎ IsFailedRead (api.get_model k w)
  pub writes :
      (p : InferencePipeline)
      → (api.update_status p w ≡ (ok tt, store_status p w))
        ⊎ ((e : ApiError) × (api.update_status p w ≡ (err e, w)))
        ⊎ ((e : ApiError) × (api.update_status p w ≡ (err e, store_status p w)))

-- A list call on the namespace returns all its pipelines.
abbrev pub IsListing : World → String → List InferencePipeline → Type 0
IsListing w namespace ps =
    (p : InferencePipeline) → w.pipelines p.key ≡ some p → p.key.namespace ≡ namespace → Memᴰ p ps

abbrev pub after : PipelineApi World → ℕ → Key → List Key → World → Cluster
after api now key rest w = record {
  world = (reconcile api now key w).1;
  queue = again (reconcile api now key w).0 key rest;
}

pub data Step : Cluster → Cluster → Type 0 where
  -- A VoiceModel was created, changed or deleted, and the watch mapped it to pipelines.
  model_changed :
      (c : Cluster) (k : Key) (m : Option ModelStatus)
      (list_in : String → Reply (List InferencePipeline)) (ps : List InferencePipeline)
      → list_in k.namespace ≡ ok ps
      → IsListing c.world k.namespace ps
      → Step c (record {
        world = record (c.world) { models = set k m c.world.models };
        queue = c.queue ++ map_voice_model_to_pipelines list_in k;
      })
  -- A pipeline was created or edited, or the watch delivered it again.
  pipeline_stored :
      (c : Cluster) (p : InferencePipeline)
      → Step c (record {
        world = record (c.world) { pipelines = set p.key (some p) c.world.pipelines };
        queue = c.queue ++ p.key ∷ [];
      })
  pipeline_removed :
      (c : Cluster) (k : Key)
      → Step c (record {
        world = record (c.world) { pipelines = set k none c.world.pipelines };
        queue = c.queue ++ k ∷ [];
      })
  reconciled :
      (c : Cluster) (api : PipelineApi World) (now : ℕ) (key : Key) (before rest : List Key)
      → c.queue ≡ before ++ key ∷ rest
      → IsAnswering api c.world
      → Step c (after api now key (before ++ rest) c.world)

-- The controller starts with every stored pipeline queued: the first list of the watch delivers
-- them all.
abbrev pub IsStart : Cluster → Type 0
IsStart c =
    (k : Key) (p : InferencePipeline) → c.world.pipelines k ≡ some p → (p.key ≡ k) × Memᴰ k c.queue
