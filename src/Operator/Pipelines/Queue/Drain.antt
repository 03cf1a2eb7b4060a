-- ===== src/Operator/Pipelines/Queue/Drain.antt =====
-- The work queue catches up: what is stored once every queued key has been reconciled.
use mathlib.Core.List.{Memᴰ}
use mathlib.Core.List.Memᴰ
use mathlib.Core.Path.{subst}
use voxplatform.Prelude.{
  ℕ, ◌≡◌, ◌≢◌, inl, inr, refl, sym, ◌∙◌, ap, false, Bool-cases, Option, none, some, List, [], ◌∷◌,
}
use voxplatform.Operator.WorkQueue.{Reach}
use voxplatform.Operator.WorkQueue.{mem_others}
use voxplatform.Operator.Api.{Key, ok, found, Outcome, same_key, same_key→eq}
use voxplatform.Operator.Pipelines.{
  PipelineApi, InferencePipeline, reconcile, no_tally, Tally, aggregate_phase, tally_stages,
}
use voxplatform.Operator.Pipelines.Stages.{statuses-tally_stages}
use voxplatform.Operator.Pipelines.Writes.{written, reconcile_lem}
use voxplatform.Operator.Pipelines.Queue.{
  World, IsAnswering, with_status_of, Cluster, store_status, IsStart, Step,
}
use voxplatform.Operator.Pipelines.Queue.Reads.{Models, stored, IsCurrent, tally_stages_agree}
use voxplatform.Operator.Pipelines.Queue.Round.{
  Round, idle, retried, rewritten, waiting, settled, reconcile-Round,
}
use voxplatform.Operator.Pipelines.Queue.Watch.{IsTracked}
use voxplatform.Operator.Pipelines.Queue.Tracked.{
  IsTracked-kept, IsTracked-written, Reach-IsTracked,
}

-- Reads answer what is stored, and updates succeed.
pub record IsHealthy (api : PipelineApi World) : Type 0 where
  pub reads_pipeline : (w : World) (k : Key) → api.get_pipeline k w ≡ found (w.pipelines k)
  pub reads_model : (w : World) (k : Key) → api.get_model k w ≡ found (w.models k)
  pub writes :
      (w : World) (p : InferencePipeline) → api.update_status p w ≡ (ok tt, store_status p w)

module _ (api : PipelineApi World) (now : ℕ) where
  -- One reconcile of each of these keys, in order.
  abbrev pub drain : List Key → World → World
  drain [] w = w
  drain (key ∷ keys) w = drain keys (reconcile api now key w).1

module _ (api : PipelineApi World) (now : ℕ) (healthy : IsHealthy api) where
  IsCurrent-written :
      (key : Key) (w : World) (p : InferencePipeline) (seen : api.get_pipeline key w ≡ ok p)
      (live : p.deleting ≡ false)
      → IsCurrent w.models (written api now key w p seen live)
  IsCurrent-written key w p seen live = (
    ap aggregate_phase agree,
    λ h.
        sym (statuses-tally_stages api w p.key.namespace no_tally p.stages)
        ∙ ap (λ (t : Tally). t.statuses) agree
        ∙ statuses-tally_stages stored w.models p.key.namespace no_tally p.stages,
  )
    where
      agree :
          tally_stages api w p.key.namespace no_tally p.stages
          ≡ tally_stages stored w.models p.key.namespace no_tally p.stages
      agree =
          tally_stages_agree api w w.models p.key.namespace
            (λ stage.
              healthy.reads_model w (record { namespace = p.key.namespace; name = stage.model }))
            no_tally p.stages

  stores_status :
      (key : Key) (w : World) (p : InferencePipeline) (seen : api.get_pipeline key w ≡ ok p)
      (live : p.deleting ≡ false)
      → (reconcile api now key w).1 ≡ store_status (written api now key w p seen live) w
  stores_status key w p seen live =
      elim ((reconcile_lem api now key w p seen live _).0
        (healthy.writes w (written api now key w p seen live))) [
          | inl (r, _) ↦ ap (λ o. o.1) r
          | inr (r, _, _) ↦ ap (λ o. o.1) r
        ]

  module _ (key : Key) (keys : List Key) (w : World) (tracked : IsTracked w (key ∷ keys)) where
    others : (k : Key) → key ≢ k → Memᴰ k (key ∷ keys) → Memᴰ k keys
    others k n = mem_others k key [] keys n

    IsTracked-reconcile :
        (o : Option InferencePipeline)
        → w.pipelines key ≡ o
        → IsTracked (reconcile api now key w).1 keys
    unfolding reconcile
    IsTracked-reconcile none h =
        rw (reconcile, healthy.reads_pipeline w key, h)
          (IsTracked-kept w _ tracked key keys others (inl (λ p e. cc)))
    IsTracked-reconcile (some p) h = elim (Bool-cases p.deleting) [
      | inl gone ↦
          rw (reconcile, healthy.reads_pipeline w key, h, gone)
            (IsTracked-kept w _ tracked key keys others (
              inl (λ q e.
                let same : p ≡ q = cc (sym h ∙ e) in
                sym (ap (λ (r : InferencePipeline). r.deleting) same) ∙ gone)))
      | inr live ↦
          let seen : api.get_pipeline key w ≡ ok p = healthy.reads_pipeline w key ∙ ap found h in
          rw (stores_status key w p seen live) (
            IsTracked-written w _ tracked key keys others p
              (written api now key w p seen live).status h
              (inl (IsCurrent-written key w p seen live)))
    ]

  IsTracked-drain :
      (keys : List Key) (w : World) → IsTracked w keys → IsTracked (drain api now keys w) []
  IsTracked-drain [] w tracked = tracked
  IsTracked-drain (key ∷ keys) w tracked =
      IsTracked-drain keys (reconcile api now key w).1
        (IsTracked-reconcile key keys w tracked (w.pipelines key) refl)

-- The VoiceModels are as before, and each pipeline is still stored, with its stages.
abbrev Kept : World → World → Type 0
Kept w w' =
    (w'.models ≡ w.models)
    × ((k : Key) (p : InferencePipeline)
        → w.pipelines k ≡ some p
        → (q : InferencePipeline) × (w'.pipelines k ≡ some q)
          × (q.key ≡ p.key)
          × (q.stages ≡ p.stages)
          × (q.deleting ≡ p.deleting))

Kept-refl : (w : World) → Kept w w
Kept-refl w = (refl, λ k p h. (p, h, refl, refl, refl))

Kept-store_status : (w : World) (p : InferencePipeline) → Kept w (store_status p w)
Kept-store_status w p = (
  refl,
  λ k q h. elim (Bool-cases (same_key p.key k)) [
    | inl same ↦ (
      record q { status = p.status },
      simp same (ap (with_status_of p) (ap w.pipelines (same_key→eq p.key k same) ∙ h)),
      refl,
      refl,
      refl,
    )
    | inr other ↦ (q, simp other h, refl, refl, refl)
  ],
)

Kept-trans : (u v w : World) → Kept u v → Kept v w → Kept u w
Kept-trans u v w (models, pipelines) (models', pipelines') = (
  models' ∙ models,
  λ k p h.
      let (q, there, key, stages, deleting) = pipelines k p h in
      let (r, there', key', stages', deleting') = pipelines' k q there in
      (r, there', key' ∙ key, stages' ∙ stages, deleting' ∙ deleting),
)

module _ (api : PipelineApi World) (now : ℕ) (healthy : IsHealthy api) where
  IsHealthy-IsAnswering : (w : World) → IsAnswering api w
  IsHealthy-IsAnswering w = record {
    reads_pipeline = λ k. inl (healthy.reads_pipeline w k);
    reads_model = λ k. inl (healthy.reads_model w k);
    writes = λ p. inl (healthy.writes w p);
  }

  Kept-Round : (key : Key) (w : World) (o : Outcome × World) → Round api now key w o → Kept w o.1
  Kept-Round key w o (idle absent) = Kept-refl w
  Kept-Round key w o (retried e) = Kept-refl w
  Kept-Round key w o (rewritten p seen live e here) =
      Kept-store_status w (written api now key w p seen live)
  Kept-Round key w o (waiting p seen live here) =
      Kept-store_status w (written api now key w p seen live)
  Kept-Round key w o (settled p seen live here phase) =
      Kept-store_status w (written api now key w p seen live)

  Kept-drain : (keys : List Key) (w : World) → Kept w (drain api now keys w)
  Kept-drain [] w = Kept-refl w
  Kept-drain (key ∷ keys) w =
      Kept-trans w (reconcile api now key w).1 (drain api now keys (reconcile api now key w).1)
        (Kept-Round key w _ (reconcile-Round api now key w (IsHealthy-IsAnswering w)))
        (Kept-drain keys (reconcile api now key w).1)

-- From wherever the controller has got to, one reconcile of each queued key, with no failing call,
-- keeps every pipeline that is not being deleted, with its key and its stages, and leaves it with
-- the phase that the stored VoiceModels give and, if that is Ready, with their reports.
pub drained-IsCurrent :
    (api : PipelineApi World) (now : ℕ) (start c : Cluster) (k : Key) (p : InferencePipeline)
    → IsHealthy api
    → IsStart start
    → Reach Step start c
    → c.world.pipelines k ≡ some p
    → p.deleting ≡ false
    → (q : InferencePipeline) × ((drain api now c.queue c.world).pipelines k ≡ some q)
      × (q.key ≡ p.key)
      × (q.stages ≡ p.stages)
      × IsCurrent c.world.models q
drained-IsCurrent api now start c k p healthy h reached here live =
    let (models, pipelines) = Kept-drain api now healthy c.queue c.world in
    let (q, there, same, stages, deleting) = pipelines k p here in
    let (key, status) =
      IsTracked-drain api now healthy c.queue c.world (Reach-IsTracked start c h reached) k q
        there in
    (
      q,
      there,
      same,
      stages,
      subst (λ (m : Models). IsCurrent m q) models
          (elim (status (deleting ∙ live)) [
            | inl current ↦ current
            | inr queued ↦ absurd (Memᴰ.not-nil queued)
          ]),
    )
