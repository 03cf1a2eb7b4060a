-- ===== src/Operator/Pipelines/Stages.antt =====
-- The loop of reconcileStages computes the reports and the counts of the stages.
use Prim.Native.Char.{code}
use mathlib.Core.List.{append_assoc, append-nil}
use text.Mathlib.TextLemmas.{cons-append, head-eq_of_cons-eq}
use voxplatform.Prelude.{
  true, ℕ, suc, ◌+◌, ◌≡◌, ◌≢◌, inl, inr, refl, ap, sym, ◌∙◌, String, Bool, false, ◌&&◌, ◌||◌, List,
  [], ◌∷◌, ◌++◌, arith, Bool-cases, text_eq_ne, if◌then◌else◌, ◌=s◌, ◌+s◌,
}
use voxplatform.Operator.Api.{
  not_found, already_exists, other, is_not_found, Reply, ok, err, VoiceModelPhase,
}
use voxplatform.Operator.Pipelines.{
  ModelStatus, PipelineStage, PipelineStageStatus, PipelineApi, is_enabled, is_ready,
  disabled_status, found_status, stage_status, Tally, tally_stage, tally_stages,
}

error_text_ne : (e : String) → "error fetching VoiceModel: " +s e ≢ "VoiceModel not found"
error_text_ne e h =
    absurd (omega (arith, ap code (head-eq_of_cons-eq (sym (cons-append _ _ e) ∙ h))))

found_message :
    (stage : PipelineStage) (p : VoiceModelPhase) (endpoint : String)
    → ((found_status stage (record { phase = p; endpoint = endpoint })).message
        =s "VoiceModel not found")
      ≡ false
found_message stage VoiceModelPhase.unset e = refl
found_message stage VoiceModelPhase.pending e = refl
found_message stage VoiceModelPhase.deploying e = refl
found_message stage VoiceModelPhase.ready e = refl
found_message stage VoiceModelPhase.failed e = refl
found_message stage VoiceModelPhase.terminating e = refl

-- The reply says that the VoiceModel does not exist, or that it is ready.
abbrev pub is_missing : Reply ModelStatus → Bool
is_missing (ok vm) = false
is_missing (err e) = is_not_found e

abbrev pub is_up : Reply ModelStatus → Bool
is_up (ok vm) = is_ready vm.phase
is_up (err e) = false

module _ {S : Type 0} (api : PipelineApi S) where
  message_missing :
      (stage : PipelineStage) (r : Reply ModelStatus)
      → ((stage_status api stage r).message =s "VoiceModel not found") ≡ is_missing r
  unfolding stage_status
  message_missing stage (ok vm) = found_message stage vm.phase vm.endpoint
  message_missing stage (err not_found) = refl
  message_missing stage (err already_exists) =
      text_eq_ne _ _ (error_text_ne (api.describe already_exists))
  message_missing stage (err (other m)) = text_eq_ne _ _ (error_text_ne (api.describe (other m)))

  status_ready :
      (stage : PipelineStage) (r : Reply ModelStatus) → (stage_status api stage r).ready ≡ is_up r
  unfolding stage_status
  status_ready stage (ok vm) = ground arith
  status_ready stage (err e) = ground arith

  -- The report of a stage whose VoiceModel is Ready.
  pub stage_status_up :
      (stage : PipelineStage) (vm : ModelStatus)
      → vm.phase ≡ VoiceModelPhase.ready
      → stage_status api stage (ok vm) ≡ record {
        name = stage.name;
        model_ref = stage.model;
        ready = true;
        endpoint = vm.endpoint;
        message = "ready";
      }
  unfolding stage_status
  stage_status_up stage vm h = simp h refl

module _ {S : Type 0} (api : PipelineApi S) (s : S) (namespace : String) where
  -- What the API server answers for the VoiceModel that a stage names.
  abbrev pub reply : PipelineStage → Reply ModelStatus
  reply stage = api.get_model (record { namespace = namespace; name = stage.model }) s

  -- The entry of the status for one stage.
  abbrev pub report : PipelineStage → PipelineStageStatus
  report stage =
      if is_enabled stage.enabled
      then stage_status api stage (reply stage)
      else disabled_status stage

  abbrev pub reports : List PipelineStage → List PipelineStageStatus
  reports [] = []
  reports (stage ∷ stages) = report stage ∷ reports stages

  -- How many stages are enabled, and how many of these have a ready VoiceModel.
  abbrev pub enabled : List PipelineStage → ℕ
  enabled [] = 0
  enabled (stage ∷ stages) =
      if is_enabled stage.enabled then suc (enabled stages) else enabled stages

  abbrev pub up : List PipelineStage → ℕ
  up [] = 0
  up (stage ∷ stages) =
      if is_enabled stage.enabled && is_up (reply stage) then suc (up stages) else up stages

  -- Some enabled stage names a VoiceModel that does not exist.
  abbrev pub lacks : List PipelineStage → Bool
  lacks [] = false
  lacks (stage ∷ stages) = (is_enabled stage.enabled && is_missing (reply stage)) || lacks stages

  pub statuses-tally_stages :
      (t : Tally) (stages : List PipelineStage)
      → (tally_stages api s namespace t stages).statuses ≡ t.statuses ++ reports stages
  unfolding tally_stages
  statuses-tally_stages t [] = sym (append-nil _)
  statuses-tally_stages t (stage ∷ stages) =
      statuses-tally_stages (tally_stage api s namespace t stage) stages
      ∙ rw (step t stage) (append_assoc t.statuses (report stage ∷ []) (reports stages))
    where
      step :
          (t : Tally) (stage : PipelineStage)
          → (tally_stage api s namespace t stage).statuses ≡ t.statuses ++ report stage ∷ []
      step t stage = elim (Bool-cases (is_enabled stage.enabled)) [
        | inl on ↦ rw on
        | inr off ↦ rw off
      ]

  pub enabled_count-tally_stages :
      (t : Tally) (stages : List PipelineStage)
      → (tally_stages api s namespace t stages).enabled_count ≡ t.enabled_count + enabled stages
  unfolding tally_stages
  enabled_count-tally_stages t [] = omega arith
  enabled_count-tally_stages t (stage ∷ stages) =
      ground (arith, enabled_count-tally_stages (tally_stage api s namespace t stage) stages)

  pub ready_count-tally_stages :
      (t : Tally) (stages : List PipelineStage)
      → (tally_stages api s namespace t stages).ready_count ≡ t.ready_count + up stages
  unfolding tally_stages
  ready_count-tally_stages t [] = omega arith
  ready_count-tally_stages t (stage ∷ stages) = ground (
    arith,
    ready_count-tally_stages (tally_stage api s namespace t stage) stages,
    status_ready api stage (reply stage),
  )

  pub has_missing-tally_stages :
      (t : Tally) (stages : List PipelineStage)
      → (tally_stages api s namespace t stages).has_missing ≡ t.has_missing || lacks stages
  unfolding tally_stages
  has_missing-tally_stages t [] = ground arith
  has_missing-tally_stages t (stage ∷ stages) = ground (
    arith,
    has_missing-tally_stages (tally_stage api s namespace t stage) stages,
    message_missing api stage (reply stage),
  )
