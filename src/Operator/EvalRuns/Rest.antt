-- ===== src/Operator/EvalRuns/Rest.antt =====
-- A run that has its verdict rests.
use mathlib.Core.Path.{subst}
use voxplatform.Prelude.{
  ◌∙◌, sym, ℕ, ◌≡◌, ◌≢◌, refl, sym, ◌∙◌, ap, String, Bool, true, false, some, List, [], ◌∷◌,
  text_eq_ne,
}
use voxplatform.Operator.Api.{Outcome, Reply, ok, done}
use voxplatform.Operator.EvalRuns.{
  EvalRun, EvalReport, SeenWorkflow, with_status, with_report, verdict_phase, verdict_message,
  is_terminal_workflow_phase, extract_eval_report, reconcile_run, reconcile_workflow, set_status,
}
use voxplatform.Operator.EvalRuns.Lifecycle.{
  Effect, wrote, Answers, recorder, effects, IsLive, workflow_key,
}
use voxplatform.Operator.EvalRuns.History.{stored, updated}

module _ {W : Type 0} (a : Answers W) where
  -- What is written for a finished Workflow with a report.
  abbrev judged : ℕ → EvalRun → SeenWorkflow → EvalReport W → EvalRun
  judged now run wf report =
      with_status now (with_report (recorder a) run report) (verdict_phase report.passed) wf.name
        (verdict_message (recorder a) run report)

  judged-judged :
      (now now' : ℕ) (run : EvalRun) (wf : SeenWorkflow) (report : EvalReport W) (passed : Bool)
      → report.passed ≡ passed
      → judged now' (judged now run wf report) wf report ≡ judged now run wf report
  judged-judged now now' run wf report true e = simp e refl
  judged-judged now now' run wf report false e = simp e refl

  reconcile_run-judged :
      (now : ℕ) (run : EvalRun) (wf : SeenWorkflow) (report : EvalReport W) (passed : Bool)
      → report.passed ≡ passed
      → IsLive run
      → run.status.workflow_ref ≢ ""
      → a.workflow (workflow_key run) ≡ ok wf
      → is_terminal_workflow_phase wf.phase ≡ true
      → extract_eval_report (recorder a) wf ≡ some report
      → ((o : EvalRun) → a.update o ≡ ok tt)
      → reconcile_run (recorder a) now run [] ≡ (done, wrote (judged now run wf report) ∷ [])
  unfolding reconcile_run reconcile_workflow set_status
  reconcile_run-judged now run wf report true e l b w f x u =
      simp (l.0, l.1, text_eq_ne _ _ b, w, f, x, u, e) refl
  reconcile_run-judged now run wf report false e l b w f x u =
      simp (l.0, l.1, text_eq_ne _ _ b, w, f, x, u, e) refl

  -- A live run whose finished Workflow is read with a report gets its verdict at once, where the
  -- update of the status succeeds; from then on, a reconcile that reads the same, at any later
  -- time, writes back the very object that was stored, keeps its completion time with it, and
  -- asks for no requeue.
  pub reconcile_run_rests :
      (now later : ℕ) (run : EvalRun) (wf : SeenWorkflow) (report : EvalReport W)
      → IsLive run
      → run.status.workflow_ref ≢ ""
      → a.workflow (workflow_key run) ≡ ok wf
      → wf.name ≡ run.status.workflow_ref
      → is_terminal_workflow_phase wf.phase ≡ true
      → extract_eval_report (recorder a) wf ≡ some report
      → ((o : EvalRun) → a.update o ≡ ok tt)
      → let settled = stored a run (effects a now run) in
        (settled.status.phase ≡ verdict_phase report.passed)
        × (reconcile_run (recorder a) later settled [] ≡ (done, wrote settled ∷ []))
  reconcile_run_rests now later run wf report l b w n f x u =
      let first = reconcile_run-judged now run wf report report.passed refl l b w f x u in
      let second =
        reconcile_run-judged later (judged now run wf report) wf report report.passed refl l
          (λ e. b (sym n ∙ e))
          (ap a.workflow (ap (λ (r : String). record { namespace = run.key.namespace; name = r }) n)
            ∙ w)
          f x u in
      let o = judged now run wf report in
      let same : stored a run (effects a now run) ≡ o =
        ap (λ (p : Outcome × List Effect). stored a run p.1) first
        ∙ ap (λ (r : Reply (Unit {0})). updated r o run) (u o) in
      let again =
        ap (λ (e : EvalRun). (done, wrote e ∷ []))
          (judged-judged now later run wf report report.passed refl) in
      subst
        (λ (e : EvalRun).
          (e.status.phase ≡ verdict_phase report.passed)
          × (reconcile_run (recorder a) later e [] ≡ (done, wrote e ∷ [])))
        (sym same) (refl, second ∙ again)
