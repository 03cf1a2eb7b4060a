-- ===== src/Operator/Pipelines/Writes.antt =====
-- What one reconcile of an InferencePipeline writes and answers.
use voxplatform.Prelude.{ℕ, ◌≡◌, ◌≢◌, ◌↔◌, ◌⊎◌, inl, inr, refl, true, false, some, arith, ◌+s◌}
use voxplatform.Operator.Api.{ApiError, ok, err, Key, requeue_after, error, done, ten_seconds}
use voxplatform.Operator.Pipelines.{
  PipelineApi, InferencePipelinePhase, ready, failed, InferencePipeline, no_tally, tally_stages,
  aggregate_message, with_status, answer, reconcile, same_phase,
}
use voxplatform.Operator.Pipelines.Stages.{reports, statuses-tally_stages}
use voxplatform.Operator.Pipelines.Phases.{phase_of}

same_phase_iff : (p q : InferencePipelinePhase) → (same_phase p q ≡ true) ↔ (p ≡ q)
same_phase_iff p q = ground arith

answer_settled :
    {S : Type 0} (api : PipelineApi S) (q : InferencePipelinePhase) (s : S)
    → ((answer api q (ok tt, s) ≡ (done, s)) × ((q ≡ ready) ⊎ (q ≡ failed)))
      ⊎ ((answer api q (ok tt, s) ≡ (requeue_after ten_seconds, s)) × (q ≢ ready) × (q ≢ failed))
answer_settled api ready s = inl (refl, inl refl)
answer_settled api failed s = inl (refl, inr refl)
answer_settled api _ s = inr (refl, λ e. cc, λ e. cc)

module _ {S : Type 0} (api : PipelineApi S) (now : ℕ) (key : Key) (s : S) (p : InferencePipeline)
    (found : api.get_pipeline key s ≡ ok p) (live : p.deleting ≡ false) where
  -- The object that a reconcile of `p` hands to the update of the status.
  abbrev pub written : InferencePipeline
  written =
      with_status now p (phase_of api s p.key.namespace p.stages)
        (aggregate_message (tally_stages api s p.key.namespace no_tally p.stages))
        (reports api s p.key.namespace p.stages)

  reconcile_answers :
      reconcile api now key s ≡ answer api written.status.phase (api.update_status written s)
  unfolding reconcile
  reconcile_answers =
      rw (found, reconcile)
        (simp live (rw (statuses-tally_stages api s p.key.namespace no_tally p.stages)))

  -- A reconcile of a live pipeline writes one entry for each stage in order, the phase, and the
  -- transition time `now` exactly if the phase is new. If the update succeeds, it asks to be
  -- called again after ten seconds unless the phase is Ready or Failed; if it fails, the reconcile
  -- returns an error.
  pub reconcile_lem :
      (s' : S)
      → (api.update_status written s ≡ (ok tt, s')
          → ((reconcile api now key s ≡ (done, s'))
              × ((written.status.phase ≡ ready) ⊎ (written.status.phase ≡ failed)))
            ⊎ ((reconcile api now key s ≡ (requeue_after ten_seconds, s'))
                × (written.status.phase ≢ ready)
                × (written.status.phase ≢ failed)))
        × ((e : ApiError)
            → api.update_status written s ≡ (err e, s')
            → reconcile api now key s
              ≡ (error ("updating InferencePipeline status: " +s api.describe e), s'))
        × ((written.status.phase ≡ p.status.phase)
            → written.status.last_transition_time ≡ p.status.last_transition_time)
        × ((written.status.phase ≢ p.status.phase) → written.status.last_transition_time ≡ some now)
  reconcile_lem s' = (
    λ e. rw (reconcile_answers, e) (answer_settled api written.status.phase s'),
    λ x e. rw (reconcile_answers, e),
    λ e. ground (arith, e, same_phase_iff p.status.phase written.status.phase),
    λ n. ground (arith, n, same_phase_iff p.status.phase written.status.phase),
  )
