-- ===== src/Operator/EvalRuns.antt =====
-- EvalRun: operator/api/v1alpha1/evalrun_types.go and
-- operator/internal/controller/evalrun_controller.go. The API server, the JSON decoder and the
-- formatting of error rates are a record of parameters; an error rate is of a parameter type `W`.
pub mod Types
pub mod Workflow
pub mod Defaults
pub mod Report
pub mod Lifecycle
pub mod Trace
pub mod Outcomes
pub mod History
pub mod Progress
pub mod Verdict
pub mod Rest
mod Tests
pub use Types.*
use voxplatform.Prelude.{
  ℕ, ℤ, pos, String, Bool, true, false, not, ◌&&◌, ◌||◌, Option, none, some, List, [], ◌∷◌, ◌++◌,
  if◌then◌else◌, ◌=s◌, ◌+s◌,
}
use voxplatform.Operator.Api.{
  ApiError, is_not_found, is_already_exists, Reply, ok, err, Key, Outcome, requeue_after, error,
  done, ten_seconds,
}

abbrev pub eval_report_output_param : String
eval_report_output_param = "eval-report"

abbrev pub report_path : String
report_path = "/tmp/outputs/report.json"

abbrev pub or_default : String → String → String
or_default text fallback = if text =s "" then fallback else text

abbrev timeout_of : Option ℤ → ℤ
timeout_of none = pos 600
timeout_of (some seconds) = seconds

pub workflow_args : EvalRunSpec → List String
workflow_args spec =
    ("run"
      ∷ spec.dataset
      ∷ "--url"
      ∷ spec.gateway_url
      ∷ "--threshold"
      ∷ or_default spec.wer_threshold "0.3"
      ∷ "--report-path"
      ∷ report_path
      ∷ [])
    ++ (if spec.model =s "" then [] else "--model" ∷ spec.model ∷ [])

pub build_workflow : EvalRun → NewWorkflow
unfolding workflow_args
build_workflow run = record {
  key = run.key;
  labels = ("vox.vox.io/evalrun", run.key.name) ∷ [];
  owner = none;
  entrypoint = "eval";
  active_deadline_seconds = timeout_of run.spec.timeout_seconds;
  templates =
      record {
        name = "eval";
        image = run.spec.image;
        command = "vox-eval" ∷ [];
        args = workflow_args run.spec;
        parameters = record { name = eval_report_output_param; path = report_path } ∷ [];
      }
      ∷ [];
}

pub is_terminal_workflow_phase : String → Bool
is_terminal_workflow_phase phase = phase =s "Succeeded" || phase =s "Failed" || phase =s "Error"

pub or_pending : String → String
or_pending phase = if phase =s "" then "Pending" else phase

abbrev text_or_empty : Option String → String
text_or_empty none = ""
text_or_empty (some t) = t

module _ {S W : Type 0} (api : EvalApi S W) where
  abbrev read_value : Option String → Option (EvalReport W)
  read_value none = none
  read_value (some value) = if value =s "" then none else api.decode_report value

  -- The loop over the parameters: the first one with the name decides.
  pub find_report : List Parameter → Option (EvalReport W)
  find_report [] = none
  find_report (no_object ∷ ps) = find_report ps
  find_report (object name value ∷ ps) =
      if text_or_empty name =s eval_report_output_param then read_value value else find_report ps

  pub extract_eval_report : SeenWorkflow → Option (EvalReport W)
  unfolding find_report
  extract_eval_report wf = elim wf.parameters [ none ↦ none | some ps ↦ find_report ps ]

abbrev is_final : EvalRunPhase → Bool
is_final succeeded = true
is_final failed = true
is_final _ = false

abbrev pub same_phase : EvalRunPhase → EvalRunPhase → Bool
same_phase unset unset = true
same_phase pending pending = true
same_phase running running = true
same_phase succeeded succeeded = true
same_phase failed failed = true
same_phase _ _ = false

abbrev is_running : EvalRunPhase → Bool
is_running running = true
is_running _ = false

-- The object after the assignments of setStatus.
abbrev pub with_status : ℕ → EvalRun → EvalRunPhase → String → String → EvalRun
with_status now run phase workflow_ref message = record run {
  status = record (run.status) {
    phase = phase;
    workflow_ref = workflow_ref;
    message = message;
    completion_time =
        if not (same_phase run.status.phase phase) && is_final phase
        then some now
        else run.status.completion_time;
  };
}

-- `start_time` is set before setStatus.
abbrev pub started : ℕ → EvalRun → EvalRun
started now run = record run { status = record (run.status) { start_time = some now } }

abbrev pub verdict_phase : Bool → EvalRunPhase
verdict_phase passed = if passed then succeeded else failed

module _ {S W : Type 0} (api : EvalApi S W) where
  abbrev pub answer : EvalRunPhase → Reply (Unit {0}) × S → Outcome × S
  answer phase (ok _, s) = (if is_running phase then requeue_after ten_seconds else done, s)
  answer phase (err e, s) = (error ("updating EvalRun status: " +s api.describe e), s)

  pub set_status : ℕ → EvalRun → EvalRunPhase → String → String → S → Outcome × S
  set_status now run phase workflow_ref message s =
      answer phase (api.update_status (with_status now run phase workflow_ref message) s)

  abbrev after_create : ℕ → EvalRun → String → Reply (Unit {0}) × S → Outcome × S
  after_create now run name (ok _, s) =
      set_status now (started now run) running name "Workflow submitted" s
  after_create now run name (err e, s) =
      if is_already_exists e
      then set_status now (started now run) running name "Workflow submitted" s
      else (error ("creating Workflow: " +s api.describe e), s)

  abbrev submit_owned : ℕ → EvalRun → Reply Key → S → Outcome × S
  submit_owned now run (ok owner) s =
      let wf = record (build_workflow run) { owner = some owner } in
      after_create now run wf.key.name (api.create_workflow wf s)
  submit_owned now run (err e) s =
      (error ("setting owner reference on Workflow: " +s api.describe e), s)

  pub submit_workflow : ℕ → EvalRun → S → Outcome × S
  unfolding set_status build_workflow
  submit_workflow now run s = submit_owned now run (api.controller_reference run) s

  abbrev pub verdict_message : EvalRun → EvalReport W → String
  verdict_message run report =
      if report.passed
      then "corpus WER " +s api.show_wer report.corpus_wer +s " within threshold"
      else "corpus WER "
        +s api.show_wer report.corpus_wer
        +s " exceeds threshold "
        +s run.spec.wer_threshold

  abbrev pub with_report : EvalRun → EvalReport W → EvalRun
  with_report run report = record run {
    status = record (run.status) {
      corpus_wer = api.show_wer report.corpus_wer;
      mean_wer = api.show_wer report.mean_wer;
      total_samples = report.total_samples;
      passed = some report.passed;
    };
  }

  abbrev conclude : ℕ → EvalRun → SeenWorkflow → Option (EvalReport W) → S → Outcome × S
  conclude now run wf none s =
      set_status now run failed wf.name
        ("Workflow " +s wf.phase +s " with no eval report produced (crashed before writing it?)") s
  conclude now run wf (some report) s =
      set_status now (with_report run report) (verdict_phase report.passed) wf.name
        (verdict_message run report) s

  abbrev observe : ℕ → EvalRun → S → Reply SeenWorkflow → Outcome × S
  observe now run s (err e) =
      if is_not_found e
      then set_status now run failed run.status.workflow_ref "Workflow no longer exists" s
      else (error ("fetching Workflow: " +s api.describe e), s)
  observe now run s (ok wf) =
      if not (is_terminal_workflow_phase wf.phase)
      then set_status now run running wf.name ("Workflow phase: " +s or_pending wf.phase) s
      else conclude now run wf (extract_eval_report api wf) s

  pub reconcile_workflow : ℕ → EvalRun → S → Outcome × S
  unfolding set_status is_terminal_workflow_phase or_pending extract_eval_report
  reconcile_workflow now run s = observe now run s (
      api.get_workflow (record { namespace = run.key.namespace; name = run.status.workflow_ref }) s)

  -- Reconcile once the EvalRun has been read.
  pub reconcile_run : ℕ → EvalRun → S → Outcome × S
  unfolding set_status submit_workflow reconcile_workflow
  reconcile_run now run s =
      if run.deleting
      then (done, s)
      else if run.spec.suspend
      then set_status now run pending run.status.workflow_ref "suspended: no Workflow submitted" s
      else if run.status.workflow_ref =s ""
      then submit_workflow now run s
      else reconcile_workflow now run s

  abbrev reconcile_found : ℕ → S → Reply EvalRun → Outcome × S
  reconcile_found now s (ok run) = reconcile_run now run s
  reconcile_found now s (err e) =
      if is_not_found e then (done, s) else (error ("fetching EvalRun: " +s api.describe e), s)

  pub reconcile : ℕ → Key → S → Outcome × S
  unfolding reconcile_run
  reconcile now key s = reconcile_found now s (api.get_eval_run key s)
