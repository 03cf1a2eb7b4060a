-- ===== src/Operator/Pipelines/Defaults.antt =====
-- The default of a stage that the marker of operator/api/v1alpha1/inferencepipeline_types.go
-- declares, and the one of reconcileStages.
use voxplatform.Prelude.{
  ◌≡◌, refl, ap, ◌∙◌, String, Bool, true, Option, none, some, List, [], ◌∷◌, map,
}
use voxplatform.Operator.Api.{Reply, ok, err, or_else}
use voxplatform.Operator.Pipelines.{
  ModelStatus, stage_status, PipelineStage, PipelineApi, Tally, is_enabled, tally_stage,
  tally_stages,
}

abbrev pub with_default : PipelineStage → PipelineStage
with_default stage = record stage { enabled = or_else true stage.enabled }

is_enabled-or_else : (on : Option Bool) → is_enabled (or_else true on) ≡ is_enabled on
is_enabled-or_else none = refl
is_enabled-or_else (some b) = refl

module _ {S : Type 0} (api : PipelineApi S) (s : S) (namespace : String) where
  status-with_default :
      (stage : PipelineStage) (r : Reply ModelStatus)
      → stage_status api (with_default stage) r ≡ stage_status api stage r
  unfolding stage_status
  status-with_default stage (ok vm) = refl
  status-with_default stage (err e) = refl

  tally_stage-with_default :
      (t : Tally) (stage : PipelineStage)
      → tally_stage api s namespace t (with_default stage) ≡ tally_stage api s namespace t stage
  unfolding tally_stage
  tally_stage-with_default t stage = rw (
    is_enabled-or_else stage.enabled,
    status-with_default stage
        (api.get_model (record { namespace = namespace; name = stage.model }) s),
  )

  -- A stage that does not say whether it is enabled is treated by the controller as the default of
  -- the API server would have it: the stages are evaluated alike before and after it is filled in.
  pub tally_stages-with_default :
      (t : Tally) (stages : List PipelineStage)
      → tally_stages api s namespace t (map with_default stages)
        ≡ tally_stages api s namespace t stages
  unfolding tally_stages
  tally_stages-with_default t [] = refl
  tally_stages-with_default t (stage ∷ stages) =
      tally_stages-with_default (tally_stage api s namespace t (with_default stage)) stages
      ∙ ap (λ (t' : Tally). tally_stages api s namespace t' stages)
          (tally_stage-with_default t stage)
