-- ===== src/Operator/EvalRuns/Defaults.antt =====
-- The defaults that the markers of operator/api/v1alpha1/evalrun_types.go declare, and those that
-- buildWorkflow falls back on.
use voxplatform.Prelude.{ℤ, pos, ◌≡◌, refl, Option, none, some}
use voxplatform.Operator.Api.{or_text, or_else, or_text-or_text}
use voxplatform.Operator.EvalRuns.{EvalRun, timeout_of, build_workflow}

abbrev pub with_defaults : EvalRun → EvalRun
with_defaults run = record run {
  spec = record (run.spec) {
    wer_threshold = or_text "0.3" run.spec.wer_threshold;
    timeout_seconds = or_else (pos 600) run.spec.timeout_seconds;
  };
}

timeout_of-or_else : (t : Option ℤ) → timeout_of (or_else (pos 600) t) ≡ timeout_of t
timeout_of-or_else none = refl
timeout_of-or_else (some n) = refl

-- The defaults of the API server and those of the controller agree: the Workflow of an EvalRun is
-- the same whether or not its absent fields have been filled in.
pub build_workflow-with_defaults :
    (run : EvalRun) → build_workflow (with_defaults run) ≡ build_workflow run
unfolding build_workflow
build_workflow-with_defaults run =
    rw (or_text-or_text "0.3" run.spec.wer_threshold, timeout_of-or_else run.spec.timeout_seconds)
