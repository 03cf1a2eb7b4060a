-- ===== src/Operator/Pipelines/Requests.antt =====
-- mapVoiceModelToPipelines: which pipelines a change of a VoiceModel enqueues, and why no other
-- pipeline has to be looked at.
use mathlib.Core.List.{Memᴰ}
use mathlib.Core.List.Memᴰ
use voxplatform.Prelude.{
  ◌≡◌, ◌≢◌, inl, inr, refl, ap, sym, ◌∙◌, String, true, false, List, [], ◌∷◌, arith, eq_iff,
  Bool-cases, ◌=s◌,
}
use voxplatform.Operator.Api.{Reply, ok, Key}
use voxplatform.Operator.Pipelines.{
  PipelineStage, PipelineApi, InferencePipeline, Tally, tally_stage, tally_stages, references,
  collect_requests, map_voice_model_to_pipelines,
}
use voxplatform.Operator.Pipelines.Phases.{Any}

pub Any-references :
    (model : String) (stages : List PipelineStage)
    → references model stages ≡ true
    → Any (λ stage. stage.model ≡ model) stages
unfolding references
Any-references model [] h = cc
Any-references model (stage ∷ stages) h =
    ground (arith, eq_iff stage.model model, Any-references model stages)

references-Any :
    (model : String) (stages : List PipelineStage)
    → Any (λ stage. stage.model ≡ model) stages
    → references model stages ≡ true
unfolding references
references-Any model [] h = absurd h
references-Any model (stage ∷ stages) h =
    ground (arith, eq_iff stage.model model, references-Any model stages)

collect_complete :
    (model : String) (ps : List InferencePipeline) (p : InferencePipeline)
    → Memᴰ p ps
    → references model p.stages ≡ true
    → Memᴰ p.key (collect_requests model ps)
unfolding collect_requests
collect_complete model [] p m h = elim m [ ]
collect_complete model (q ∷ ps) p (Memᴰ.head e) h =
    let same : references model q.stages ≡ true =
      sym (ap (λ (r : InferencePipeline). references model r.stages) e) ∙ h in
    rw same (Memᴰ.head (ap (λ (r : InferencePipeline). r.key) e))
collect_complete model (q ∷ ps) p (Memᴰ.tail m) h = elim (Bool-cases (references model q.stages)) [
  | inl here ↦ rw here (Memᴰ.tail (collect_complete model ps p m h))
  | inr away ↦ rw away (collect_complete model ps p m h)
]

collect_sound :
    (model : String) (ps : List InferencePipeline) (k : Key)
    → Memᴰ k (collect_requests model ps)
    → (p : InferencePipeline) × Memᴰ p ps × (references model p.stages ≡ true) × (k ≡ p.key)
unfolding collect_requests
collect_sound model [] k m = elim m [ ]
collect_sound model (q ∷ ps) k m = elim (Bool-cases (references model q.stages)) [
  | inl here ↦ elim (Memᴰ.cases_cons (rw here at m)) [
    | inl e ↦ (q, Memᴰ.head refl, here, e)
    | inr later ↦
        let (p, listed, r, e) = collect_sound model ps k later in (p, Memᴰ.tail listed, r, e)
  ]
  | inr away ↦
      let (p, listed, r, e) = collect_sound model ps k (rw away at m) in (p, Memᴰ.tail listed, r, e)
]

-- When the pipelines of the VoiceModel's namespace can be listed, a change of the VoiceModel
-- enqueues the key of each listed pipeline with a stage that names it, enabled or not, and no
-- other key.
pub map_requests_lem :
    (list_in : String → Reply (List InferencePipeline)) (vm : Key) (ps : List InferencePipeline)
    → list_in vm.namespace ≡ ok ps
    → ((p : InferencePipeline)
        → Memᴰ p ps
        → Any (λ stage. stage.model ≡ vm.name) p.stages
        → Memᴰ p.key (map_voice_model_to_pipelines list_in vm))
      × ((k : Key)
          → Memᴰ k (map_voice_model_to_pipelines list_in vm)
          → (p : InferencePipeline) × Memᴰ p ps
            × Any (λ stage. stage.model ≡ vm.name) p.stages
            × (k ≡ p.key))
unfolding map_voice_model_to_pipelines
map_requests_lem list_in vm ps listed = (
  λ p m a.
      rw (listed, map_voice_model_to_pipelines)
        (collect_complete vm.name ps p m (references-Any vm.name p.stages a)),
  λ k m.
      let (p, inside, r, e) =
        collect_sound vm.name ps k (rw (listed, map_voice_model_to_pipelines) at m) in
      (p, inside, Any-references vm.name p.stages r, e),
)

module _ {S : Type 0} (api : PipelineApi S) (s s' : S) (vm : Key)
    (others_unchanged : (k : Key) → k ≢ vm → api.get_model k s ≡ api.get_model k s') where
  tally_stage_unchanged :
      (t : Tally) (stage : PipelineStage)
      → (stage.model =s vm.name) ≡ false
      → tally_stage api s vm.namespace t stage ≡ tally_stage api s' vm.namespace t stage
  unfolding tally_stage
  tally_stage_unchanged t stage h = rw (
      others_unchanged (record { namespace = vm.namespace; name = stage.model })
        (λ e. ground (arith, h, eq_iff stage.model vm.name, ap (λ (k : Key). k.name) e)))

  -- If only one VoiceModel changes between two states, a pipeline of its namespace that is not
  -- enqueued would be given the same phase, counts and stage reports before and after: the watch
  -- misses no pipeline that the change concerns.
  pub tally_stages_unchanged :
      (t : Tally) (stages : List PipelineStage)
      → references vm.name stages ≡ false
      → tally_stages api s vm.namespace t stages ≡ tally_stages api s' vm.namespace t stages
  unfolding tally_stages references
  tally_stages_unchanged t [] h = refl
  tally_stages_unchanged t (stage ∷ stages) h = elim (Bool-cases (stage.model =s vm.name)) [
    | inl same ↦ cc (rw same at h)
    | inr other ↦
        rw (tally_stage_unchanged t stage other)
          (tally_stages_unchanged (tally_stage api s' vm.namespace t stage) stages (rw other at h))
  ]
