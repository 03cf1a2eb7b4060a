-- ===== src/Operator/Pipelines/Queue/Reads.antt =====
-- What a reconcile of a pipeline concludes from its reads of the VoiceModels, against what is
-- stored.
use mathlib.Core.Path.{subst}
use voxplatform.Prelude.{
  ◌≡◌, ◌⊎◌, inl, inr, refl, sym, ◌∙◌, String, Option, none, some, List, [], ◌∷◌, All, Bool-cases,
}
use voxplatform.Operator.Api.{not_found, Reply, ok, err, Key, found}
use voxplatform.Operator.Pipelines.{
  ModelStatus, PipelineStage, PipelineApi, InferencePipeline, is_enabled, ready, failed,
  stage_status, Tally, tally_stage, tally_stages,
}
use voxplatform.Operator.Pipelines.Stages.{reply, report, reports}
use voxplatform.Operator.Pipelines.Phases.{
  Any, IsUp, IsServed, IsLacking, phase_of, phase_failed_iff, phase_ready_iff,
}
use voxplatform.Operator.Pipelines.Queue.{IsFailedRead}

abbrev pub Models : Type 0
Models = Key → Option ModelStatus

-- Reads of the stored VoiceModels that never fail.
abbrev pub stored : PipelineApi Models
stored = record {
  get_pipeline = λ k models. err not_found;
  get_model = λ k models. found (models k);
  update_status = λ p models. (ok tt, models);
  describe = λ e. "";
}

-- The status says what the stored VoiceModels say: the phase is theirs, and a Ready pipeline
-- reports each stage as its VoiceModel is.
abbrev pub IsCurrent : Models → InferencePipeline → Type 0
IsCurrent models p =
    (p.status.phase ≡ phase_of stored models p.key.namespace p.stages)
    × (p.status.phase ≡ ready → p.status.stages ≡ reports stored models p.key.namespace p.stages)

module _ {S : Type 0} (api : PipelineApi S) (s : S) (models : Models) (namespace : String) where
  abbrev seen : PipelineStage → Reply ModelStatus
  seen = reply api s namespace

  abbrev held : PipelineStage → Reply ModelStatus
  held = reply stored models namespace

  status_found :
      (stage : PipelineStage) (m : Option ModelStatus)
      → stage_status api stage (found m) ≡ stage_status stored stage (found m)
  unfolding stage_status
  status_found stage none = refl
  status_found stage (some vm) = refl

  report_agrees :
      (stage : PipelineStage)
      → seen stage ≡ held stage
      → report api s namespace stage ≡ report stored models namespace stage
  report_agrees stage h = elim (Bool-cases (is_enabled stage.enabled)) [
    | inl on ↦ rw (on, h) (status_found stage _)
    | inr off ↦ rw off refl
  ]

  tally_stage_agrees :
      (t : Tally) (stage : PipelineStage)
      → seen stage ≡ held stage
      → tally_stage api s namespace t stage ≡ tally_stage stored models namespace t stage
  unfolding tally_stage
  tally_stage_agrees t stage h = elim (Bool-cases (is_enabled stage.enabled)) [
    | inl on ↦ rw (on, h, status_found stage _)
    | inr off ↦ rw off
  ]

  -- If every read answers what is stored, the loop over the stages computes the same.
  pub tally_stages_agree :
      ((stage : PipelineStage) → seen stage ≡ held stage)
      → (t : Tally) (stages : List PipelineStage)
      → tally_stages api s namespace t stages ≡ tally_stages stored models namespace t stages
  unfolding tally_stages
  tally_stages_agree h t [] = refl
  tally_stages_agree h t (stage ∷ stages) =
      rw (tally_stage_agrees t stage (h stage))
        (tally_stages_agree h (tally_stage stored models namespace t stage) stages)

  module _
      (reads : (stage : PipelineStage)
        → (seen stage ≡ held stage) ⊎ IsFailedRead (seen stage)) where
    up_held : (stage : PipelineStage) → IsUp (seen stage) → seen stage ≡ held stage
    up_held stage u = elim (reads stage) [ inl e ↦ e | inr (m, e) ↦ absurd (subst IsUp e u) ]

    lacking_held : (stage : PipelineStage) → seen stage ≡ err not_found → held stage ≡ err not_found
    lacking_held stage h = elim (reads stage) [ inl e ↦ sym e ∙ h | inr (m, e) ↦ cc ]

    IsServed-held :
        (stages : List PipelineStage)
        → All (IsServed api s namespace) stages
        → All (IsServed stored models namespace) stages
    IsServed-held [] h = tt
    IsServed-held (stage ∷ stages) (u, h) =
        (λ on. subst IsUp (up_held stage (u on)) (u on), IsServed-held stages h)

    Any-IsLacking_held :
        (stages : List PipelineStage)
        → Any (IsLacking api s namespace) stages
        → Any (IsLacking stored models namespace) stages
    Any-IsLacking_held [] h = absurd h
    Any-IsLacking_held (stage ∷ stages) (inl (on, h)) = inl (on, lacking_held stage h)
    Any-IsLacking_held (stage ∷ stages) (inr h) = inr (Any-IsLacking_held stages h)

    reports_held :
        (stages : List PipelineStage)
        → All (IsServed api s namespace) stages
        → reports api s namespace stages ≡ reports stored models namespace stages
    reports_held [] h = refl
    reports_held (stage ∷ stages) (u, h) = rw (report_held, reports_held stages h) refl
      where
        report_held : report api s namespace stage ≡ report stored models namespace stage
        report_held = elim (Bool-cases (is_enabled stage.enabled)) [
          | inl on ↦ report_agrees stage (up_held stage (u on))
          | inr off ↦ rw off refl
        ]

    -- A reconcile whose reads may fail and that settles on Ready or Failed is right about it.
    pub phase_held :
        (stages : List PipelineStage)
        → (phase_of api s namespace stages ≡ ready) ⊎ (phase_of api s namespace stages ≡ failed)
        → phase_of api s namespace stages ≡ phase_of stored models namespace stages
    phase_held stages (inl h) =
        h
        ∙ sym (
            (phase_ready_iff stored models namespace stages).1
              (IsServed-held stages ((phase_ready_iff api s namespace stages).0 h)))
    phase_held stages (inr h) =
        h
        ∙ sym (
            (phase_failed_iff stored models namespace stages).1
              (Any-IsLacking_held stages ((phase_failed_iff api s namespace stages).0 h)))

    pub ready_reports_held :
        (stages : List PipelineStage)
        → phase_of api s namespace stages ≡ ready
        → reports api s namespace stages ≡ reports stored models namespace stages
    ready_reports_held stages h = reports_held stages ((phase_ready_iff api s namespace stages).0 h)
