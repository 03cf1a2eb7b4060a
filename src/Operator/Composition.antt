-- ===== src/Operator/Composition.antt =====
-- The reconcilers of operator/internal/controller together: the pipelines read what the reconciler
-- of the VoiceModels writes.
pub mod Published
mod Tests
use mathlib.Core.Path.{subst}
use voxplatform.Prelude.{
  ℕ, ◌≡◌, refl, ap, ◌∙◌, String, Bool, true, Option, none, some, List, [], ◌∷◌, All, lebℤ, sym,
  arith, if◌then◌else◌, Bool-cases, inl, inr, false, ◌+s◌, show_ℤ,
}
use voxplatform.Operator.Api.{Reply, ok, err, Key, VoiceModelPhase}
use voxplatform.Operator.VoiceModels.{VoiceModel, wanted_replicas, build_service, get_port}
use voxplatform.Operator.VoiceModels.Build.{service_address, endpoint_of-service_address}
use voxplatform.Operator.VoiceModels.Reconcile.{SeenDeployment, endpoint_of}
use voxplatform.Operator.VoiceModels.Reconcile.Status.{written, written_ready_iff}
use voxplatform.Operator.VoiceModels.Reconcile.Store.{Store, found}
use voxplatform.Operator.Pipelines.{
  ModelStatus, PipelineStage, PipelineStageStatus, PipelineApi, is_enabled, ready, stage_status,
  resolve_stage,
}
use voxplatform.Operator.Pipelines.Stages.{reply, report, reports, stage_status_up}
use voxplatform.Operator.Pipelines.Phases.{IsServed, IsUp, phase_of, phase_ready_iff}

-- What a pipeline reads of a VoiceModel.
abbrev pub view : VoiceModel → ModelStatus
view vm = record { phase = vm.status.phase; endpoint = vm.status.endpoint }

abbrev pub viewed : Option VoiceModel → Reply ModelStatus
viewed none = found none
viewed (some vm) = ok (view vm)

-- The pipelines' API server reads the objects of the store.
abbrev pub ReadsStore : PipelineApi Store → Type 0
ReadsStore api = (k : Key) (store : Store) → api.get_model k store ≡ viewed (store.models k)

-- The VoiceModel that the stage names was last reconciled with enough replicas ready.
abbrev pub IsBacked : Store → String → PipelineStage → Type 0
IsBacked store namespace stage =
    (now : ℕ) × (vm : VoiceModel) × (d : SeenDeployment) × (vm.key
      ≡ record { namespace = namespace; name = stage.model })
    × (store.models vm.key ≡ some (written now vm (ok d)))
    × (lebℤ (wanted_replicas vm.spec.replicas) d.ready_replicas ≡ true)

-- The report of an enabled stage: it is ready, at the address and the port of the Service that is
-- built for the stored VoiceModel that the stage names.
abbrev pub IsConnected : Store → String → PipelineStage → PipelineStageStatus → Type 0
IsConnected store namespace stage r =
    (r.ready ≡ true)
    × ((vm : VoiceModel) × (store.models (record { namespace = namespace; name = stage.model })
          ≡ some vm)
        × (r.endpoint ≡ service_address (build_service vm)))

module _ (api : PipelineApi Store) (reads : ReadsStore api) (store : Store)
    (namespace : String) where
  reply-IsBacked :
      (stage : PipelineStage) (b : IsBacked store namespace stage)
      → reply api store namespace stage ≡ ok (view (written b.0 b.1 (ok b.2)))
  reply-IsBacked stage (now, vm, d, k, m, h) =
      reads _ store ∙ ap viewed (ap store.models (sym k) ∙ m)

  report-IsConnected :
      (stage : PipelineStage)
      → is_enabled stage.enabled ≡ true
      → (b : IsBacked store namespace stage)
      → IsConnected store namespace stage (report api store namespace stage)
  report-IsConnected stage on (now, vm, d, k, m, h) =
      let up = (written_ready_iff now vm (ok d)).1 h in
      rw (on, reply-IsBacked stage (now, vm, d, k, m, h))
        (rw (stage_status_up api stage (view (written now vm (ok d))) up) (
          refl,
          (
            written now vm (ok d),
            ap store.models (sym k) ∙ m,
            endpoint_of-service_address vm (written now vm (ok d)).status,
          ),
        ))

  served_reply :
      (stage : PipelineStage)
      → IsBacked store namespace stage
      → IsUp (reply api store namespace stage)
  served_reply stage (now, vm, d, k, m, h) =
      subst IsUp (sym (reply-IsBacked stage (now, vm, d, k, m, h)))
        ((written_ready_iff now vm (ok d)).1 h)

  IsServed-IsBacked :
      (stages : List PipelineStage)
      → All (λ stage. is_enabled stage.enabled ≡ true → IsBacked store namespace stage) stages
      → All (IsServed api store namespace) stages
  IsServed-IsBacked [] h = tt
  IsServed-IsBacked (stage ∷ stages) h =
      (λ on. served_reply stage (h.0 on), IsServed-IsBacked stages h.1)

  reports-IsConnected :
      (stages : List PipelineStage)
      → All (λ stage. is_enabled stage.enabled ≡ true → IsBacked store namespace stage) stages
      → All
          (λ stage.
            is_enabled stage.enabled ≡ true
            → IsConnected store namespace stage (report api store namespace stage))
          stages
  reports-IsConnected [] h = tt
  reports-IsConnected (stage ∷ stages) h =
      (λ on. report-IsConnected stage on (h.0 on), reports-IsConnected stages h.1)

  -- A pipeline whose enabled stages name VoiceModels that were last reconciled with enough ready
  -- replicas is Ready, and reports each of these stages as ready at the address of the Service
  -- that was built for its VoiceModel. The pipelines' API server reads the objects that the
  -- reconciler of the VoiceModels has written.
  pub pipeline_of_models :
      (stages : List PipelineStage)
      → All (λ stage. is_enabled stage.enabled ≡ true → IsBacked store namespace stage) stages
      → (phase_of api store namespace stages ≡ ready)
        × All
            (λ stage.
              is_enabled stage.enabled ≡ true
              → IsConnected store namespace stage (report api store namespace stage))
            stages
  pipeline_of_models stages h = (
    (phase_ready_iff api store namespace stages).1 (IsServed-IsBacked stages h),
    reports-IsConnected stages h,
  )
