-- ===== src/Operator/EvalRuns/Trace.antt =====
-- The reconciler of EvalRuns follows the lifecycle.
use voxplatform.Prelude.{
  ℕ, ◌≡◌, ◌≢◌, inl, inr, refl, String, Bool, true, false, Option, none, some, List, [], ◌∷◌, ◌++◌,
  arith, if◌then◌else◌, ◌=s◌, eq_iff, Bool-cases,
}
use voxplatform.Operator.Api.{not_found, already_exists, other, Reply, ok, err, Key, done}
use voxplatform.Operator.EvalRuns.{
  EvalRunPhase, pending, running, failed, EvalRun, EvalReport, SeenWorkflow, with_status, answer,
  after_create, submit_owned, conclude, observe, with_report, verdict_phase, started,
  build_workflow, is_terminal_workflow_phase, extract_eval_report, set_status, submit_workflow,
  reconcile_workflow, reconcile_run,
}
use voxplatform.Operator.EvalRuns.Lifecycle.{
  Effect, created, wrote, Answers, recorder, effects, IsLive, new_workflow, workflow_key, Step,
}

module _ {W : Type 0} (a : Answers W) (now : ℕ) where
  effects-answer :
      (phase : EvalRunPhase) (r : Reply (Unit {0})) (s : List Effect)
      → (answer (recorder a) phase (r, s)).1 ≡ s
  effects-answer phase (ok _) s = refl
  effects-answer phase (err e) s = refl

  effects-set_status :
      (run : EvalRun) (phase : EvalRunPhase) (ref message : String) (s : List Effect)
      → (set_status (recorder a) now run phase ref message s).1
        ≡ s ++ wrote (with_status now run phase ref message) ∷ []
  unfolding set_status
  effects-set_status run phase ref message s =
      effects-answer phase (a.update (with_status now run phase ref message))
        (s ++ wrote (with_status now run phase ref message) ∷ [])

  Step-set_status :
      (run run' : EvalRun) (phase : EvalRunPhase) (ref message : String) (s : List Effect)
      → Step a now run (s ++ wrote (with_status now run' phase ref message) ∷ [])
      → Step a now run (set_status (recorder a) now run' phase ref message s).1
  Step-set_status run run' phase ref message s t =
      rw (effects-set_status run' phase ref message s) t

  module _ (run : EvalRun) where
    Step-submitted :
        IsLive run
        → (fresh : run.status.workflow_ref ≡ "") (owner : Key) → a.controller run ≡ ok owner
        → (r : Reply (Unit {0})) → a.create (new_workflow run owner) ≡ r
        → Step a now run
            (after_create
              (recorder a)
              now
              run
              run.key.name
              (r, created (new_workflow run owner) ∷ [])).1
    Step-submitted live fresh owner o (ok _) c =
        Step-set_status run (started now run) running run.key.name "Workflow submitted"
          (created (new_workflow run owner) ∷ []) (Step.submitted live fresh owner _ o (inl c))
    Step-submitted live fresh owner o (err already_exists) c =
        Step-set_status run (started now run) running run.key.name "Workflow submitted"
          (created (new_workflow run owner) ∷ []) (Step.submitted live fresh owner _ o (inr c))
    Step-submitted live fresh owner o (err not_found) c =
        Step.refused live fresh owner not_found o c (λ e. cc)
    Step-submitted live fresh owner o (err (other m)) c =
        Step.refused live fresh owner (other m) o c (λ e. cc)

    Step-submit_workflow :
        IsLive run
        → run.status.workflow_ref ≡ ""
        → Step a now run (submit_workflow (recorder a) now run []).1
    unfolding submit_workflow build_workflow
    Step-submit_workflow live fresh = go (a.controller run) refl
      where
        go :
            (r : Reply Key)
            → a.controller run ≡ r
            → Step a now run (submit_owned (recorder a) now run r []).1
        go (ok owner) e = Step-submitted live fresh owner e (a.create (new_workflow run owner)) refl
        go (err x) e = Step.unowned live fresh x e

    Step-conclude :
        IsLive run
        → (busy : run.status.workflow_ref ≢ "") (wf : SeenWorkflow)
        → a.workflow (workflow_key run) ≡ ok wf
        → is_terminal_workflow_phase wf.phase ≡ true
        → (r : Option (EvalReport W)) → extract_eval_report (recorder a) wf ≡ r
        → Step a now run (conclude (recorder a) now run wf r []).1
    Step-conclude live busy wf w final none e =
        Step-set_status run run failed wf.name _ [] (Step.crashed _ live busy wf w final e)
    Step-conclude live busy wf w final (some report) e =
        Step-set_status run (with_report (recorder a) run report) (verdict_phase report.passed)
          wf.name _ [] (Step.judged _ live busy wf report w final e)

    Step-observe :
        IsLive run
        → (busy : run.status.workflow_ref ≢ "") (r : Reply SeenWorkflow)
        → a.workflow (workflow_key run) ≡ r
        → Step a now run (observe (recorder a) now run [] r).1
    Step-observe live busy (err not_found) e =
        Step-set_status run run failed run.status.workflow_ref _ [] (Step.lost _ live busy e)
    Step-observe live busy (err already_exists) e = Step.unread live busy already_exists e (λ n. cc)
    Step-observe live busy (err (other m)) e = Step.unread live busy (other m) e (λ n. cc)
    Step-observe live busy (ok wf) e = elim (Bool-cases (is_terminal_workflow_phase wf.phase)) [
      | inl final ↦
          rw final (Step-conclude live busy wf e final (extract_eval_report (recorder a) wf) refl)
      | inr open_still ↦
          rw open_still
            (Step-set_status run run running wf.name _ [] (Step.waited _ live busy wf e open_still))
    ]

    Step-run :
        (deleting suspend fresh : Bool)
        → run.deleting ≡ deleting
        → run.spec.suspend ≡ suspend
        → (run.status.workflow_ref =s "") ≡ fresh
        → Step a now run
            (if deleting
              then (done, [])
              else if suspend
              then set_status
                  (recorder a)
                  now
                  run
                  pending
                  run.status.workflow_ref
                  "suspended: no Workflow submitted"
                  []
              else if fresh
              then submit_workflow (recorder a) now run []
              else reconcile_workflow (recorder a) now run []).1
    unfolding reconcile_workflow
    Step-run true suspend fresh d p f = Step.gone d
    Step-run false true fresh d p f =
        Step-set_status run run pending run.status.workflow_ref _ [] (Step.paused _ d p)
    Step-run false false true d p f = Step-submit_workflow (d, p) ((eq_iff _ _).0 f)
    Step-run false false false d p f =
        Step-observe (d, p) (λ e. ground (arith, f, e, eq_iff run.status.workflow_ref "")) _ refl

-- Whatever the API server answers, the calls of a reconcile that change the cluster, and what
-- they write, are a step of the lifecycle. In particular a run is written as Running after its
-- Workflow was created or was found to exist already, and after any other answer to the creation,
-- or a failed read of the Workflow other than its absence, nothing is written.
pub effects-Step :
    {W : Type 0} (a : Answers W) (now : ℕ) (run : EvalRun) → Step a now run (effects a now run)
unfolding reconcile_run
effects-Step a now run =
    Step-run a now run run.deleting run.spec.suspend (run.status.workflow_ref =s "") refl refl refl
