-- ===== src/Operator/Pipelines/Queue/Single.antt =====
-- An API server whose calls never fail, and a controller that starts with one pipeline.
use mathlib.Core.List.{Memᴰ}
use voxplatform.Prelude.{◌≡◌, refl, sym, ap, ◌∙◌, inl, inr, Bool-cases, none, some, [], ◌∷◌}
use voxplatform.Operator.WorkQueue.{set}
use voxplatform.Operator.Api.{Key, ok, found, same_key, same_key→eq}
use voxplatform.Operator.Pipelines.{InferencePipeline, PipelineApi}
use voxplatform.Operator.Pipelines.Queue.{World, Cluster, store_status, IsStart}
use voxplatform.Operator.Pipelines.Queue.Reads.{Models}
use voxplatform.Operator.Pipelines.Queue.Drain.{IsHealthy}

abbrev pub direct : PipelineApi World
direct = record {
  get_pipeline = λ k w. found (w.pipelines k);
  get_model = λ k w. found (w.models k);
  update_status = λ p w. (ok tt, store_status p w);
  describe = λ e. "";
}

pub direct-IsHealthy : IsHealthy direct
direct-IsHealthy = record {
  reads_pipeline = λ w k. refl;
  reads_model = λ w k. refl;
  writes = λ w p. refl;
}

abbrev pub single : Models → InferencePipeline → Cluster
single models p = record {
  world = record { models = models; pipelines = set p.key (some p) (λ k. none) };
  queue = p.key ∷ [];
}

module _ (models : Models) (p : InferencePipeline) where
  pub only_one :
      (k : Key) (q : InferencePipeline)
      → (single models p).world.pipelines k ≡ some q
      → (p.key ≡ k) × (p ≡ q)
  only_one k q h = elim (Bool-cases (same_key p.key k)) [
    | inl same ↦ let here : some p ≡ some q = simp same at h in (same_key→eq p.key k same, cc here)
    | inr away ↦ cc (simp away at h)
  ]

  pub single-IsStart : IsStart (single models p)
  single-IsStart k q h =
      let (e, same) = only_one k q h in
      (sym (ap (λ (r : InferencePipeline). r.key) same) ∙ e, Memᴰ.head (sym e))
