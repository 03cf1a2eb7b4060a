-- ===== src/Operator/EvalRuns/Tests.antt =====
-- A run that is submitted, waited for and judged, with error rates in ten-thousandths.
use voxplatform.Prelude.{
  ℕ, pos, ◌≡◌, ◌≢◌, refl, String, true, false, Option, none, some, List, [], ◌∷◌, arith, All,
  if◌then◌else◌, ◌=s◌, show_ℕ, eq_iff,
}
use voxplatform.Operator.Api.{done, err, Reply, ApiError, not_found, already_exists, other, ok}
use voxplatform.Operator.EvalRuns.{
  succeeded, EvalRunSpec, unset, running, EvalRun, EvalReport, no_object, object, SeenWorkflow,
  report_path, workflow_args, build_workflow, extract_eval_report, reconcile_run,
}
use voxplatform.Operator.EvalRuns.Workflow.{captured, outputs, extract-build_workflow}
use voxplatform.Operator.EvalRuns.Lifecycle.{wrote, Answers, recorder, effects, Step}
use voxplatform.Operator.EvalRuns.Trace.{effects-Step}
use voxplatform.Operator.EvalRuns.Outcomes
use voxplatform.Operator.EvalRuns.Outcomes.{IsVerdict, Succeeds, effects-IsVerdict}
use voxplatform.Operator.EvalRuns.History.{
  stored, Round, all_creations, IsNamed, all_creations_busy,
}
use voxplatform.Operator.EvalRuns.Verdict.{IsJudged}
use voxplatform.Operator.EvalRuns.Rest.{reconcile_run_rests}

abbrev spec : EvalRunSpec
spec = record {
  dataset = "datasets/sample";
  gateway_url = "http://gateway:8080";
  model = "";
  image = "vox-eval:1";
  wer_threshold = "";
  timeout_seconds = none;
  suspend = false;
}

abbrev run_with : String → EvalRun
run_with workflow_ref = record {
  key = record { namespace = "vox"; name = "nightly" };
  deleting = false;
  spec = spec;
  status = record {
    phase = if workflow_ref =s "" then unset else running;
    workflow_ref = workflow_ref;
    corpus_wer = "";
    mean_wer = "";
    passed = none;
    total_samples = pos 0;
    message = "";
    start_time = none;
    completion_time = none;
  };
}

abbrev good : EvalReport ℕ
good = record { passed = true; corpus_wer = 1200; mean_wer = 1300; total_samples = pos 3 }

abbrev decode : String → Option (EvalReport ℕ)
decode text = if text =s "good" then some good else none

abbrev describe : ApiError → String
describe not_found = "not found"
describe already_exists = "exists"
describe (other m) = m

abbrev seen : String → SeenWorkflow
seen name = record {
  name = name;
  phase = "Succeeded";
  parameters = some (no_object ∷ object (some "eval-report") (some "good") ∷ []);
}

abbrev answers : Answers ℕ
answers = record {
  eval_run = λ k. ok (run_with "nightly");
  workflow = λ k. ok (seen k.name);
  create = λ wf. ok tt;
  update = λ run. ok tt;
  controller = λ run. ok run.key;
  describe = describe;
  decode_report = decode;
  show_wer = show_ℕ;
}

abbrev file : String → Option String
file path = if path =s report_path then some "good" else none

extract-build_workflow_example :
    extract_eval_report (recorder answers) (record {
      name = "nightly";
      phase = "Succeeded";
      parameters = some (captured file (outputs (build_workflow (run_with "")).templates));
    })
    ≡ some good
unfolding workflow_args
extract-build_workflow_example =
    extract-build_workflow (recorder answers) (run_with "") file report_path "good" "nightly"
      "Succeeded" refl refl (λ e. ground (arith, e, eq_iff "good" ""))

judged_run : effects answers 9 (run_with "nightly") ≢ []
unfolding reconcile_run
judged_run = λ e. cc

effects-Step_example : Step answers 9 (run_with "") (effects answers 9 (run_with ""))
effects-Step_example = effects-Step answers 9 (run_with "")

effects-IsVerdict_example :
    All (IsVerdict answers 9 (run_with "nightly")) (effects answers 9 (run_with "nightly"))
    × (Outcomes.IsJudged answers 9 (run_with "nightly") true
        → Succeeds answers 9 (run_with "nightly") (effects answers 9 (run_with "nightly")))
effects-IsVerdict_example = effects-IsVerdict answers 9 (run_with "nightly")

abbrev rounds : List (Round ℕ)
rounds =
    record { spec = spec; now = 9; answers = answers }
    ∷ record { spec = record spec { suspend = true }; now = 19; answers = answers }
    ∷ record { spec = spec; now = 29; answers = answers }
    ∷ []

answers-IsNamed : IsNamed answers
answers-IsNamed k wf e = cc

all_creations_busy_example : all_creations (run_with "nightly") rounds ≡ []
all_creations_busy_example =
    all_creations_busy (run_with "nightly") rounds (λ e. ground (arith, e, eq_iff "nightly" ""))
      (answers-IsNamed, (answers-IsNamed, (answers-IsNamed, tt)))

-- A cluster in which the Workflow has not been read as finished yet.
abbrev busy_with : Reply SeenWorkflow → Round ℕ
busy_with reply = record {
  spec = record spec { suspend = true };
  now = 19;
  answers = record answers { workflow = λ k. reply; update = λ run. err already_exists };
}

abbrev waiting : List (Round ℕ)
waiting =
    busy_with (err (other "timeout"))
    ∷ record (busy_with (ok (record (seen "nightly") { phase = "Running" }))) { spec = spec }
    ∷ []

abbrev at : ℕ → Round ℕ
at now = record { spec = spec; now = now; answers = answers }

nightly_ne : (run_with "nightly").status.workflow_ref ≢ ""
nightly_ne e = ground (arith, e, eq_iff "nightly" "")

reconcile_run_rests_example :
    ((stored answers (run_with "nightly") (effects answers 9 (run_with "nightly"))).status.phase
      ≡ succeeded)
    × (reconcile_run
          (recorder answers)
          19
          (stored answers (run_with "nightly") (effects answers 9 (run_with "nightly")))
          []
        ≡ (
          done,
          wrote (stored answers (run_with "nightly") (effects answers 9 (run_with "nightly"))) ∷ [],
        ))
unfolding voxplatform.Operator.EvalRuns.is_terminal_workflow_phase extract_eval_report
reconcile_run_rests_example =
    reconcile_run_rests answers 9 19 (run_with "nightly") (seen "nightly") good (refl, refl)
      nightly_ne refl refl refl refl (λ o. refl)
