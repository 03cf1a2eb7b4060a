-- ===== src/Operator/EvalRuns/Lifecycle.antt =====
-- One reconcile of an EvalRun as the sequence of its calls that change the cluster. Whatever the
-- API server answers, the calls, their order and what they write are determined.
use voxplatform.Prelude.{
  ℕ, ◌≡◌, ◌≢◌, ◌⊎◌, String, true, false, Option, none, some, List, [], ◌∷◌, ◌++◌,
}
use voxplatform.Operator.Api.{ApiError, not_found, already_exists, Reply, ok, err, Key}
use voxplatform.Operator.EvalRuns.{
  pending, running, failed, EvalRun, EvalReport, NewWorkflow, SeenWorkflow, EvalApi, with_status,
  with_report, verdict_phase, started, build_workflow, is_terminal_workflow_phase,
  extract_eval_report, reconcile_run,
}

pub data Effect : Type 0 where
  created : NewWorkflow → Effect
  wrote : EvalRun → Effect

-- The answers of the API server in one reconcile, which asks each question at most once.
pub record Answers (W : Type 0) : Type 0 where
  pub eval_run : Key → Reply EvalRun
  pub workflow : Key → Reply SeenWorkflow
  pub create : NewWorkflow → Reply (Unit {0})
  pub update : EvalRun → Reply (Unit {0})
  pub controller : EvalRun → Reply Key
  pub describe : ApiError → String
  pub decode_report : String → Option (EvalReport W)
  pub show_wer : W → String

abbrev pub recorder : {W : Type 0} → Answers W → EvalApi (List Effect) W
recorder a = record {
  get_eval_run = λ k s. a.eval_run k;
  get_workflow = λ k s. a.workflow k;
  create_workflow = λ wf s. (a.create wf, s ++ created wf ∷ []);
  update_status = λ run s. (a.update run, s ++ wrote run ∷ []);
  controller_reference = a.controller;
  describe = a.describe;
  decode_report = a.decode_report;
  show_wer = a.show_wer;
}

abbrev pub effects : {W : Type 0} → Answers W → ℕ → EvalRun → List Effect
effects a now run = (reconcile_run (recorder a) now run []).1

-- The run is neither deleted nor suspended.
abbrev pub IsLive : EvalRun → Type 0
IsLive run = (run.deleting ≡ false) × (run.spec.suspend ≡ false)

abbrev pub new_workflow : EvalRun → Key → NewWorkflow
new_workflow run owner = record (build_workflow run) { owner = some owner }

abbrev pub workflow_key : EvalRun → Key
workflow_key run = record { namespace = run.key.namespace; name = run.status.workflow_ref }

-- The lifecycle as a relation between what is read and the calls that change the cluster.
pub data Step {W : Type 0} (a : Answers W) (now : ℕ) (run : EvalRun) : List Effect → Type 0 where
  gone : run.deleting ≡ true → Step a now run []
  paused :
      (message : String)
      → run.deleting ≡ false
      → run.spec.suspend ≡ true
      → Step a now run (wrote (with_status now run pending run.status.workflow_ref message) ∷ [])
  unowned :
      IsLive run
      → run.status.workflow_ref ≡ ""
      → (e : ApiError) → a.controller run ≡ err e
      → Step a now run []
  refused :
      IsLive run
      → run.status.workflow_ref ≡ ""
      → (owner : Key) (e : ApiError) → a.controller run ≡ ok owner
      → a.create (new_workflow run owner) ≡ err e
      → e ≢ already_exists
      → Step a now run (created (new_workflow run owner) ∷ [])
  submitted :
      IsLive run
      → run.status.workflow_ref ≡ ""
      → (owner : Key) (message : String) → a.controller run ≡ ok owner
      → (a.create (new_workflow run owner) ≡ ok tt)
        ⊎ (a.create (new_workflow run owner) ≡ err already_exists)
      → Step a now run (
          created (new_workflow run owner)
          ∷ wrote (with_status now (started now run) running run.key.name message)
          ∷ [])
  unread :
      IsLive run
      → run.status.workflow_ref ≢ ""
      → (e : ApiError) → a.workflow (workflow_key run) ≡ err e
      → e ≢ not_found
      → Step a now run []
  lost :
      (message : String)
      → IsLive run
      → run.status.workflow_ref ≢ ""
      → a.workflow (workflow_key run) ≡ err not_found
      → Step a now run (wrote (with_status now run failed run.status.workflow_ref message) ∷ [])
  waited :
      (message : String)
      → IsLive run
      → run.status.workflow_ref ≢ ""
      → (wf : SeenWorkflow) → a.workflow (workflow_key run) ≡ ok wf
      → is_terminal_workflow_phase wf.phase ≡ false
      → Step a now run (wrote (with_status now run running wf.name message) ∷ [])
  crashed :
      (message : String)
      → IsLive run
      → run.status.workflow_ref ≢ ""
      → (wf : SeenWorkflow) → a.workflow (workflow_key run) ≡ ok wf
      → is_terminal_workflow_phase wf.phase ≡ true
      → extract_eval_report (recorder a) wf ≡ none
      → Step a now run (wrote (with_status now run failed wf.name message) ∷ [])
  judged :
      (message : String)
      → IsLive run
      → run.status.workflow_ref ≢ ""
      → (wf : SeenWorkflow) (report : EvalReport W) → a.workflow (workflow_key run) ≡ ok wf
      → is_terminal_workflow_phase wf.phase ≡ true
      → extract_eval_report (recorder a) wf ≡ some report
      → Step a now run (
          wrote (
            with_status now
              (with_report (recorder a) run report)
              (verdict_phase report.passed)
              wf.name
              message)
          ∷ [])
