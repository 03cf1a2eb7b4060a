-- ===== src/Operator/Composition/Published.antt =====
-- From the reconciler of the VoiceModels to the published status of a pipeline, through the work
-- queue of operator/internal/controller/inferencepipeline_controller.go.
use mathlib.Core.Path.{subst}
use voxplatform.Prelude.{
  ℕ, ◌≡◌, refl, sym, ap, ◌∙◌, String, true, false, Option, none, some, List, [], ◌∷◌, All,
}
use voxplatform.Operator.WorkQueue.{Reach}
use voxplatform.Operator.Api.{Key, found, ok, err, not_found}
use voxplatform.Operator.VoiceModels.{VoiceModel}
use voxplatform.Operator.VoiceModels.Reconcile.Store.{Store}
use voxplatform.Operator.Pipelines.{
  ModelStatus, PipelineStage, PipelineStageStatus, InferencePipeline, PipelineApi, Tally,
  is_enabled, ready, no_tally, tally_stages, aggregate_phase,
}
use voxplatform.Operator.Pipelines.Stages.{report, reports, statuses-tally_stages}
use voxplatform.Operator.Pipelines.Queue.{World, Cluster, IsStart, Step}
use voxplatform.Operator.Pipelines.Queue.Reads.{Models, stored, IsCurrent, tally_stages_agree}
use voxplatform.Operator.Pipelines.Queue.Drain.{IsHealthy, drain, drained-IsCurrent}
use voxplatform.Operator.Composition.{view, viewed, IsBacked, IsConnected, pipeline_of_models}

-- The VoiceModels of a store, as the pipelines' controller sees them.
abbrev pub seen_model : Option VoiceModel → Option ModelStatus
seen_model none = none
seen_model (some vm) = some (view vm)

abbrev pub models_of : Store → Models
models_of store k = seen_model (store.models k)

-- Each enabled stage has an entry in the status that is ready, at the address of the Service of its
-- stored VoiceModel.
abbrev pub ArePublished : Store → String → List PipelineStage → List PipelineStageStatus → Type 0
ArePublished store namespace [] [] = Unit
ArePublished store namespace (stage ∷ stages) (r ∷ rs) =
    (is_enabled stage.enabled ≡ true → IsConnected store namespace stage r)
    × ArePublished store namespace stages rs
ArePublished store namespace _ _ = ⊥

abbrev store_api : PipelineApi Store
store_api = record {
  get_pipeline = λ k store. err not_found;
  get_model = λ k store. viewed (store.models k);
  update_status = λ p store. (ok tt, store);
  describe = λ e. "";
}

viewed-seen_model : (o : Option VoiceModel) → viewed o ≡ found (seen_model o)
viewed-seen_model none = refl
viewed-seen_model (some vm) = refl

module _ (store : Store) (namespace : String) where
  tally_of_store :
      (stages : List PipelineStage)
      → tally_stages store_api store namespace no_tally stages
        ≡ tally_stages stored (models_of store) namespace no_tally stages
  tally_of_store =
      tally_stages_agree store_api store (models_of store) namespace
        (λ stage.
          viewed-seen_model (store.models (record { namespace = namespace; name = stage.model })))
        no_tally

  reports_of_store :
      (stages : List PipelineStage)
      → reports store_api store namespace stages ≡ reports stored (models_of store) namespace stages
  reports_of_store stages =
      sym (statuses-tally_stages store_api store namespace no_tally stages)
      ∙ ap (λ (t : Tally). t.statuses) (tally_of_store stages)
      ∙ statuses-tally_stages stored (models_of store) namespace no_tally stages

  reports-ArePublished :
      (stages : List PipelineStage)
      → All
          (λ stage.
            is_enabled stage.enabled ≡ true
            → IsConnected store namespace stage (report store_api store namespace stage))
          stages
      → ArePublished store namespace stages (reports store_api store namespace stages)
  reports-ArePublished [] h = tt
  reports-ArePublished (stage ∷ stages) (here, h) = (here, reports-ArePublished stages h)

abbrev pub IsPublished : Store → InferencePipeline → Type 0
IsPublished store p =
    (p.status.phase ≡ ready) × ArePublished store p.key.namespace p.stages p.status.stages

abbrev pub AreBacked : Store → Key → List PipelineStage → Type 0
AreBacked store key stages =
    All (λ stage. is_enabled stage.enabled ≡ true → IsBacked store key.namespace stage) stages

IsCurrent-IsPublished :
    (store : Store) (p : InferencePipeline)
    → AreBacked store p.key p.stages
    → IsCurrent (models_of store) p
    → IsPublished store p
IsCurrent-IsPublished store p backed (phase, stages) =
    let namespace = p.key.namespace in
    let (up, connected) =
      pipeline_of_models store_api (λ k s. refl) store namespace p.stages backed in
    let is_ready : p.status.phase ≡ ready =
      phase ∙ sym (ap aggregate_phase (tally_of_store store namespace p.stages)) ∙ up in
    (
      is_ready,
      subst (ArePublished store namespace p.stages)
          (reports_of_store store namespace p.stages ∙ sym (stages is_ready))
          (reports-ArePublished store namespace p.stages connected),
    )

-- If the VoiceModel of each enabled stage of a pipeline was last reconciled with enough ready
-- replicas, one reconcile of each queued pipeline, with no failing call, leaves the stored status
-- of the pipeline Ready, with an entry for each stage, in order, in which each enabled stage is
-- ready at the address and the port of the Service that is built for its stored VoiceModel.
pub drained-IsPublished :
    (api : PipelineApi World) (now : ℕ) (start c : Cluster) (store : Store) (k : Key)
    (p : InferencePipeline)
    → IsHealthy api
    → IsStart start
    → Reach Step start c
    → c.world.models ≡ models_of store
    → c.world.pipelines k ≡ some p
    → p.deleting ≡ false
    → AreBacked store p.key p.stages
    → (q : InferencePipeline) × ((drain api now c.queue c.world).pipelines k ≡ some q)
      × (q.stages ≡ p.stages)
      × IsPublished store q
drained-IsPublished api now start c store k p healthy h reached models here live backed =
    let (q, there, key, stages, current) =
      drained-IsCurrent api now start c k p healthy h reached here live in
    (
      q,
      there,
      stages,
      IsCurrent-IsPublished store q
          (subst (λ (x : Key). AreBacked store x q.stages) (sym key)
            (subst (AreBacked store p.key) (sym stages) backed))
          (subst (λ (m : Models). IsCurrent m q) models current),
    )
