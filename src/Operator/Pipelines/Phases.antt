-- ===== src/Operator/Pipelines/Phases.antt =====
-- What the phase of an InferencePipeline says of the VoiceModels behind its stages.
use voxplatform.Prelude.{
  ◌≤◌, ◌<◌, ◌≡◌, ◌↔◌, ◌⊎◌, refl, String, true, false, List, [], ◌∷◌, arith, All,
}
use voxplatform.Operator.Api.{not_found, Reply, ok, err, VoiceModelPhase}
use voxplatform.Operator.Pipelines.{
  ModelStatus, PipelineStage, PipelineApi, is_enabled, InferencePipelinePhase, ready, degraded,
  validating, failed, no_tally, tally_stages, aggregate_phase,
}
use voxplatform.Operator.Pipelines.Stages.{
  is_missing, is_up, reply, enabled, up, lacks, enabled_count-tally_stages,
  ready_count-tally_stages, has_missing-tally_stages,
}

-- Some element satisfies `P`.
abbrev pub Any {ℓ} : {A : Type ℓ} → (A → Type 0) → List A → Type 0
Any P [] = ⊥
Any P (x ∷ xs) = P x ⊎ Any P xs

-- The VoiceModel was read, and its phase is Ready.
abbrev pub IsUp : Reply ModelStatus → Type 0
IsUp (ok vm) = vm.phase ≡ VoiceModelPhase.ready
IsUp (err e) = ⊥

module _ {S : Type 0} (api : PipelineApi S) (s : S) (namespace : String) where
  abbrev pub IsServed : PipelineStage → Type 0
  IsServed stage = is_enabled stage.enabled ≡ true → IsUp (reply api s namespace stage)

  abbrev pub IsServing : PipelineStage → Type 0
  IsServing stage = (is_enabled stage.enabled ≡ true) × IsUp (reply api s namespace stage)

  abbrev pub IsLacking : PipelineStage → Type 0
  IsLacking stage =
      (is_enabled stage.enabled ≡ true) × (reply api s namespace stage ≡ err not_found)

  -- The phase that reconcileStages computes.
  abbrev pub phase_of : List PipelineStage → InferencePipelinePhase
  phase_of stages = aggregate_phase (tally_stages api s namespace no_tally stages)

  is_up_iff : (r : Reply ModelStatus) → (is_up r ≡ true) ↔ IsUp r
  is_up_iff (ok vm) = ground arith
  is_up_iff (err e) = ground arith

  is_missing_iff : (r : Reply ModelStatus) → (is_missing r ≡ true) ↔ (r ≡ err not_found)
  is_missing_iff (ok vm) = ground arith
  is_missing_iff (err e) = ground arith

  lacks_iff :
      (stages : List PipelineStage) → (lacks api s namespace stages ≡ true) ↔ Any IsLacking stages
  lacks_iff [] = ground arith
  lacks_iff (stage ∷ stages) =
      ground (arith, is_missing_iff (reply api s namespace stage), lacks_iff stages)

  up-le-enabled :
      (stages : List PipelineStage) → up api s namespace stages ≤ enabled api s namespace stages
  up-le-enabled [] = omega arith
  up-le-enabled (stage ∷ stages) = ground (arith, up-le-enabled stages)

  All-up_iff :
      (stages : List PipelineStage)
      → (up api s namespace stages ≡ enabled api s namespace stages) ↔ All IsServed stages
  All-up_iff [] = ground arith
  All-up_iff (stage ∷ stages) =
      ground
        (arith, is_up_iff (reply api s namespace stage), up-le-enabled stages, All-up_iff stages)

  some_up_iff :
      (stages : List PipelineStage) → (0 < up api s namespace stages) ↔ Any IsServing stages
  some_up_iff [] = ground arith
  some_up_iff (stage ∷ stages) =
      ground (arith, is_up_iff (reply api s namespace stage), some_up_iff stages)

  missing_down : (r : Reply ModelStatus) → is_missing r ≡ true → is_up r ≡ false
  missing_down (ok vm) h = cc
  missing_down (err e) h = refl

  lacking_down :
      (stages : List PipelineStage)
      → lacks api s namespace stages ≡ true
      → up api s namespace stages < enabled api s namespace stages
  lacking_down [] h = cc
  lacking_down (stage ∷ stages) h =
      ground (
        arith,
        missing_down (reply api s namespace stage),
        up-le-enabled stages,
        lacking_down stages,
      )

  -- The pipeline is Failed exactly when an enabled stage names a VoiceModel that does not exist.
  pub phase_failed_iff :
      (stages : List PipelineStage) → (phase_of stages ≡ failed) ↔ Any IsLacking stages
  unfolding aggregate_phase
  phase_failed_iff stages =
      ground (arith, lacks_iff stages, has_missing-tally_stages api s namespace no_tally stages)

  -- The pipeline is Ready exactly when the VoiceModel of every enabled stage was read and is Ready.
  pub phase_ready_iff :
      (stages : List PipelineStage) → (phase_of stages ≡ ready) ↔ All IsServed stages
  unfolding aggregate_phase
  phase_ready_iff stages = ground (
    arith,
    All-up_iff stages,
    up-le-enabled stages,
    lacking_down stages,
    enabled_count-tally_stages api s namespace no_tally stages,
    ready_count-tally_stages api s namespace no_tally stages,
    has_missing-tally_stages api s namespace no_tally stages,
  )

  -- The pipeline is Degraded exactly when no enabled stage names a missing VoiceModel, the
  -- VoiceModel of some enabled stage is Ready, and that of some other is not. A VoiceModel in
  -- phase Failed, or one that could not be read, counts as not ready.
  pub phase_degraded_iff :
      (stages : List PipelineStage)
      → (phase_of stages ≡ degraded)
        ↔ ((¬ Any IsLacking stages) × Any IsServing stages × (¬ All IsServed stages))
  unfolding aggregate_phase
  phase_degraded_iff stages = ground (
    arith,
    lacks_iff stages,
    some_up_iff stages,
    All-up_iff stages,
    up-le-enabled stages,
    enabled_count-tally_stages api s namespace no_tally stages,
    ready_count-tally_stages api s namespace no_tally stages,
    has_missing-tally_stages api s namespace no_tally stages,
  )

  validating_iff :
      (stages : List PipelineStage)
      → (phase_of stages ≡ validating)
        ↔ ((¬ Any IsLacking stages) × (¬ Any IsServing stages) × (¬ All IsServed stages))
  unfolding aggregate_phase
  validating_iff stages = ground (
    arith,
    lacks_iff stages,
    some_up_iff stages,
    All-up_iff stages,
    up-le-enabled stages,
    lacking_down stages,
    enabled_count-tally_stages api s namespace no_tally stages,
    ready_count-tally_stages api s namespace no_tally stages,
    has_missing-tally_stages api s namespace no_tally stages,
  )

  -- The phase of a pipeline says which VoiceModels serve its enabled stages. It is Ready exactly
  -- when each of these was read and is Ready, and Failed exactly when one of them does not exist;
  -- otherwise it is Degraded if some is Ready and Validating if none is. A VoiceModel in phase
  -- Failed, or one that could not be read, counts as not ready.
  pub phase_of_lem :
      (stages : List PipelineStage)
      → ((phase_of stages ≡ ready) ↔ All IsServed stages)
        × ((phase_of stages ≡ failed) ↔ Any IsLacking stages)
        × ((phase_of stages ≡ degraded)
            ↔ ((¬ Any IsLacking stages) × Any IsServing stages × (¬ All IsServed stages)))
        × ((phase_of stages ≡ validating)
            ↔ ((¬ Any IsLacking stages) × (¬ Any IsServing stages) × (¬ All IsServed stages)))
  phase_of_lem stages = (
    phase_ready_iff stages,
    phase_failed_iff stages,
    phase_degraded_iff stages,
    validating_iff stages,
  )
