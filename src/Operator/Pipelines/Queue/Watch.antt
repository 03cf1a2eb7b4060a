-- ===== src/Operator/Pipelines/Queue/Watch.antt =====
-- A pipeline is tracked: its status is current, or its key is queued. A change of a VoiceModel
-- keeps that.
use mathlib.Core.List.{Memᴰ}
use mathlib.Core.List.Memᴰ
use mathlib.Core.Path.{subst}
use voxplatform.Prelude.{
  ◌≡◌, ◌≢◌, ◌⊎◌, inl, inr, refl, sym, ◌∙◌, ap, String, false, Option, some, List, ◌++◌, Bool-cases,
  ◌=s◌, eq_iff,
}
use voxplatform.Operator.WorkQueue.{set}
use voxplatform.Operator.Api.{Key, same_key, same_key→eq, Reply, ok}
use voxplatform.Operator.Pipelines.{
  ModelStatus, InferencePipeline, references, Tally, aggregate_phase, tally_stages, no_tally,
  map_voice_model_to_pipelines,
}
use voxplatform.Operator.Pipelines.Stages.{reports, statuses-tally_stages}
use voxplatform.Operator.Pipelines.Requests.{
  map_requests_lem, Any-references, tally_stages_unchanged,
}
use voxplatform.Operator.Pipelines.Queue.{World, IsListing}
use voxplatform.Operator.Pipelines.Queue.Reads.{Models, stored, IsCurrent, tally_stages_agree}

abbrev pub IsTrackedAt : Models → List Key → Key → InferencePipeline → Type 0
IsTrackedAt models queue k p =
    (p.key ≡ k) × (p.deleting ≡ false → IsCurrent models p ⊎ Memᴰ k queue)

-- Each stored pipeline lies at its key, and unless it is being deleted its status is current or
-- its key is queued.
abbrev pub IsTracked : World → List Key → Type 0
IsTracked w queue =
    (k : Key) (p : InferencePipeline) → w.pipelines k ≡ some p → IsTrackedAt w.models queue k p

-- A change of one VoiceModel leaves the status of a pipeline current that does not name it.
module _ (models : Models) (vm : Key) (m : Option ModelStatus) where
  other_model :
      (k : Key) → k ≢ vm → stored.get_model k models ≡ stored.get_model k (set vm m models)
  other_model k n = elim (Bool-cases (same_key vm k)) [
    | inl same ↦ absurd (n (sym (same_key→eq vm k same)))
    | inr other ↦ simp other refl
  ]

  tally_elsewhere :
      (p : InferencePipeline)
      → p.key.namespace ≢ vm.namespace
      → tally_stages stored models p.key.namespace no_tally p.stages
        ≡ tally_stages stored (set vm m models) p.key.namespace no_tally p.stages
  tally_elsewhere p n =
      tally_stages_agree stored models (set vm m models) p.key.namespace
        (λ stage. other_model _ (λ e. n (ap (λ (k : Key). k.namespace) e))) no_tally p.stages

  tally_unnamed :
      (p : InferencePipeline)
      → references vm.name p.stages ≡ false
      → tally_stages stored models p.key.namespace no_tally p.stages
        ≡ tally_stages stored (set vm m models) p.key.namespace no_tally p.stages
  tally_unnamed p h = elim (Bool-cases (p.key.namespace =s vm.namespace)) [
    | inl same ↦
        rw ((eq_iff p.key.namespace vm.namespace).0 same) (
          tally_stages_unchanged stored models (set vm m models) vm other_model no_tally p.stages h)
    | inr other ↦ tally_elsewhere p (λ e. cc ((eq_iff p.key.namespace vm.namespace).1 e, other))
  ]

  reports_of_tally :
      (ms : Models) (p : InferencePipeline)
      → (tally_stages stored ms p.key.namespace no_tally p.stages).statuses
        ≡ reports stored ms p.key.namespace p.stages
  reports_of_tally ms p = statuses-tally_stages stored ms p.key.namespace no_tally p.stages

  IsCurrent-set :
      (p : InferencePipeline)
      → tally_stages stored models p.key.namespace no_tally p.stages
        ≡ tally_stages stored (set vm m models) p.key.namespace no_tally p.stages
      → IsCurrent models p
      → IsCurrent (set vm m models) p
  IsCurrent-set p e (phase, stages) = (
    phase ∙ ap aggregate_phase e,
    λ h.
        stages h
        ∙ sym (reports_of_tally models p)
        ∙ ap (λ (t : Tally). t.statuses) e
        ∙ reports_of_tally (set vm m models) p,
  )

pub IsTracked-model :
    (w : World) (queue : List Key) (vm : Key) (m : Option ModelStatus)
    (list_in : String → Reply (List InferencePipeline)) (ps : List InferencePipeline)
    → list_in vm.namespace ≡ ok ps
    → IsListing w vm.namespace ps
    → IsTracked w queue
    → IsTracked
        (record w { models = set vm m w.models })
        (queue ++ map_voice_model_to_pipelines list_in vm)
IsTracked-model w queue vm m list_in ps listed all tracked k p h =
    let (key, status) = tracked k p h in
    let kept : tally_stages stored w.models p.key.namespace no_tally p.stages
          ≡ tally_stages stored (set vm m w.models) p.key.namespace no_tally p.stages
        → p.deleting ≡ false
        → IsCurrent (set vm m w.models) p
          ⊎ Memᴰ k (queue ++ map_voice_model_to_pipelines list_in vm) =
      λ e live. elim (status live) [
        | inl current ↦ inl (IsCurrent-set w.models vm m p e current)
        | inr queued ↦ inr (Memᴰ.append_left _ queued)
      ] in
    (
      key,
      λ live. elim (Bool-cases (references vm.name p.stages)) [
        | inr unnamed ↦ kept (tally_unnamed w.models vm m p unnamed) live
        | inl named ↦ elim (Bool-cases (p.key.namespace =s vm.namespace)) [
          | inl same ↦ inr (
              Memᴰ.append_right queue (
                subst (λ (x : Key). Memᴰ x (map_voice_model_to_pipelines list_in vm)) key
                  ((map_requests_lem list_in vm ps listed).0 p
                    (all p (ap w.pipelines key ∙ h) ((eq_iff p.key.namespace vm.namespace).0 same))
                    (Any-references vm.name p.stages named))))
          | inr other ↦
              kept
                (tally_elsewhere w.models vm m p
                  (λ e. cc ((eq_iff p.key.namespace vm.namespace).1 e, other)))
                live
        ]
      ],
    )
