-- ===== src/Operator/EvalRuns/Verdict.antt =====
-- A run gets to its verdict: from the submission of the Workflow to the reconcile that finds its
-- report.
use voxplatform.Prelude.{Bool, ℕ, ◌≡◌, Bool, some}
use voxplatform.Operator.Api.{Key}
use voxplatform.Operator.EvalRuns.{EvalRun, EvalReport, verdict_phase}
use voxplatform.Operator.EvalRuns.Lifecycle.{Answers}

module _ {W : Type 0} where
  -- The run has the verdict of the report, since `t`.
  abbrev pub IsJudged : Answers W → Key → ℕ → EvalReport W → EvalRun → Type 0
  IsJudged a key t report run =
      (run.status.phase ≡ verdict_phase report.passed)
      × (run.status.passed ≡ some report.passed)
      × (run.status.corpus_wer ≡ a.show_wer report.corpus_wer)
      × (run.status.mean_wer ≡ a.show_wer report.mean_wer)
      × (run.status.total_samples ≡ report.total_samples)
      × (run.status.workflow_ref ≡ key.name)
      × (run.status.completion_time ≡ some t)
