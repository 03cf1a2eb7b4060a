-- ===== src/Operator/Pipelines/Queue/Tracked.antt =====
-- No pipeline is left with a stale status, whatever the cluster does.
use mathlib.Core.List.{Memᴰ}
use mathlib.Core.List.Memᴰ
use mathlib.Core.Path.{subst}
use voxplatform.Prelude.{
  ℕ, ◌≡◌, ◌≢◌, ◌⊎◌, inl, inr, sym, ◌∙◌, ap, false, none, some, List, [], ◌∷◌, ◌++◌, Bool-cases,
}
use voxplatform.Operator.WorkQueue.{Reach, Reach-keeps}
use voxplatform.Operator.WorkQueue.{again, mem_again, mem_others, queued_last, set, set_cases}
use voxplatform.Operator.Api.{
  Key, Outcome, requeue_after, error, done, ten_seconds, same_key, same_key_self, same_key→eq, ok,
}
use voxplatform.Operator.Pipelines.{
  InferencePipelineStatus, PipelineApi, InferencePipeline, reconcile, ready, failed,
}
use voxplatform.Operator.Pipelines.Writes.{written}
use voxplatform.Operator.Pipelines.Queue.{
  World, Cluster, with_status_of, store_status, IsAnswering, after, Step, IsStart, model_changed,
  pipeline_stored, pipeline_removed, reconciled,
}
use voxplatform.Operator.Pipelines.Queue.Reads.{Models, IsCurrent, phase_held, ready_reports_held}
use voxplatform.Operator.Pipelines.Queue.Round.{
  Round, idle, retried, rewritten, waiting, settled, reconcile-Round, IsAbsent,
}
use voxplatform.Operator.Pipelines.Queue.Watch.{IsTracked, IsTrackedAt, IsTracked-model}

requeued :
    (models : Models) (queue queue' : List Key) (k : Key) (q : InferencePipeline)
    → (Memᴰ k queue → Memᴰ k queue')
    → IsTrackedAt models queue k q
    → IsTrackedAt models queue' k q
requeued models queue queue' k q more (key, status) =
    (key, λ live. elim (status live) [ inl current ↦ inl current | inr queued ↦ inr (more queued) ])

module _ (w : World) (queue : List Key) (tracked : IsTracked w queue) where
  IsTracked-stored :
      (p : InferencePipeline)
      → IsTracked (record w { pipelines = set p.key (some p) w.pipelines }) (queue ++ p.key ∷ [])
  IsTracked-stored p k q h = elim (set_cases p.key (some p) w.pipelines k (some q) h) [
    | inl (e, same) ↦
        let new : p ≡ q = cc same in
        (
          sym (ap (λ (r : InferencePipeline). r.key) new) ∙ e,
          λ live. inr (rw e (queued_last k queue)),
        )
    | inr (n, old) ↦
        requeued w.models queue (queue ++ p.key ∷ []) k q (Memᴰ.append_left _) (tracked k q old)
  ]

  IsTracked-removed :
      (key : Key)
      → IsTracked (record w { pipelines = set key none w.pipelines }) (queue ++ key ∷ [])
  IsTracked-removed gone k q h = elim (set_cases gone none w.pipelines k (some q) h) [
    | inl (e, none_some) ↦ cc
    | inr (n, old) ↦
        requeued w.models queue (queue ++ gone ∷ []) k q (Memᴰ.append_left _) (tracked k q old)
  ]

  module _ (key : Key) (queue' : List Key)
      (others : (k : Key) → key ≢ k → Memᴰ k queue → Memᴰ k queue') where
    -- The reconcile of `key` wrote nothing.
    pub IsTracked-kept : IsAbsent w key ⊎ Memᴰ key queue' → IsTracked w queue'
    IsTracked-kept why k q h = elim (Bool-cases (same_key key k)) [
      | inl same ↦ elim why [
        | inl absent ↦ (
          (tracked k q h).0,
          λ live. cc (absent q (ap w.pipelines (same_key→eq key k same) ∙ h), live),
        )
        | inr again ↦ (
          (tracked k q h).0,
          λ live. inr (subst (λ (x : Key). Memᴰ x queue') (same_key→eq key k same) again),
        )
      ]
      | inr other ↦
          requeued w.models queue queue' k q
            (others k (λ e. cc (ap (same_key key) e, same_key_self key, other))) (tracked k q h)
    ]

    -- It wrote this status.
    pub IsTracked-written :
        (p : InferencePipeline) (status : InferencePipelineStatus)
        → w.pipelines key ≡ some p
        → IsCurrent w.models (record p { status = status }) ⊎ Memᴰ key queue'
        → IsTracked (store_status (record p { status = status }) w) queue'
    IsTracked-written p status here why k q h = elim (set_cases p.key _ w.pipelines k (some q) h) [
      | inl (e, new) ↦
          let same : record p { status = status } ≡ q =
            cc (
              ap (with_status_of (record p { status = status })) (ap w.pipelines own ∙ here),
              new,
            ) in
          subst (IsTrackedAt w.models queue' k) same (
            e,
            λ live. elim why [
              | inl current ↦ inl current
              | inr again ↦ inr (subst (λ (x : Key). Memᴰ x queue') (sym own ∙ e) again)
            ],
          )
      | inr (n, old) ↦
          requeued w.models queue queue' k q (others k (λ e. n (own ∙ e))) (tracked k q old)
    ]
      where
        own : p.key ≡ key
        own = (tracked key p here).0

module _ (api : PipelineApi World) (now : ℕ) (key : Key) (w : World) (before rest : List Key)
    (lawful : IsAnswering api w) (tracked : IsTracked w (before ++ key ∷ rest)) where
  abbrev remaining : Outcome → List Key
  remaining o = again o key (before ++ rest)

  others : (o : Outcome) (k : Key) → key ≢ k → Memᴰ k (before ++ key ∷ rest) → Memᴰ k (remaining o)
  others o k n m = mem_again o k key (before ++ rest) (mem_others k key before rest n m)

  IsCurrent-written :
      (p : InferencePipeline) (seen : api.get_pipeline key w ≡ ok p) (live : p.deleting ≡ false)
      → ((written api now key w p seen live).status.phase ≡ ready)
        ⊎ ((written api now key w p seen live).status.phase ≡ failed)
      → IsCurrent w.models (written api now key w p seen live)
  IsCurrent-written p seen live h = (
    phase_held api w w.models p.key.namespace (λ stage. lawful.reads_model _) p.stages h,
    ready_reports_held api w w.models p.key.namespace (λ stage. lawful.reads_model _) p.stages,
  )

  IsTracked-Round : (o : Outcome × World) → Round api now key w o → IsTracked o.1 (remaining o.0)
  IsTracked-Round o (idle absent) =
      IsTracked-kept w _ tracked key (remaining done) (others done) (inl absent)
  IsTracked-Round o (retried e) =
      IsTracked-kept w _ tracked key (remaining (error e)) (others (error e))
        (inr (queued_last key _))
  IsTracked-Round o (rewritten p seen live e here) =
      IsTracked-written w _ tracked key (remaining (error e)) (others (error e)) p
        (written api now key w p seen live).status here (inr (queued_last key _))
  IsTracked-Round o (waiting p seen live here) =
      IsTracked-written w _ tracked key (remaining (requeue_after ten_seconds))
        (others (requeue_after ten_seconds)) p (written api now key w p seen live).status here
        (inr (queued_last key _))
  IsTracked-Round o (settled p seen live here phase) =
      IsTracked-written w _ tracked key (remaining done) (others done) p
        (written api now key w p seen live).status here (inl (IsCurrent-written p seen live phase))

  IsTracked-after :
      IsTracked
        (after api now key (before ++ rest) w).world
        (after api now key (before ++ rest) w).queue
  IsTracked-after = IsTracked-Round (reconcile api now key w) (reconcile-Round api now key w lawful)

Step-IsTracked : {c d : Cluster} → Step c d → IsTracked c.world c.queue → IsTracked d.world d.queue
Step-IsTracked (model_changed c k m list_in ps listed all) tracked =
    IsTracked-model c.world c.queue k m list_in ps listed all tracked
Step-IsTracked (pipeline_stored c p) tracked = IsTracked-stored c.world c.queue tracked p
Step-IsTracked (pipeline_removed c k) tracked = IsTracked-removed c.world c.queue tracked k
Step-IsTracked (reconciled c api now key before rest e lawful) tracked =
    IsTracked-after api now key c.world before rest lawful (rw e at tracked)

pub Reach-IsTracked :
    (start c : Cluster) → IsStart start → Reach Step start c → IsTracked c.world c.queue
Reach-IsTracked start c h =
    Reach-keeps Step (λ (c : Cluster). IsTracked c.world c.queue) start c
      (λ c d s. Step-IsTracked s) (λ k p stored. ((h k p stored).0, λ live. inr (h k p stored).1))

-- From a start of the controller on, in whatever order VoiceModels and pipelines change and queued
-- pipelines are reconciled, against an API server that may fail reads and updates (a failed
-- update may have been applied) but lists the pipelines when a VoiceModel changes: a stored
-- pipeline that is not being deleted has its key queued, or its phase is the one that the stored
-- VoiceModels give and, if that is Ready, it reports each stage as they are.
pub never_stale :
    (start c : Cluster) (k : Key) (p : InferencePipeline)
    → IsStart start
    → Reach Step start c
    → c.world.pipelines k ≡ some p
    → p.deleting ≡ false
    → IsCurrent c.world.models p ⊎ Memᴰ k c.queue
never_stale start c k p h reached here live = (Reach-IsTracked start c h reached k p here).1 live
