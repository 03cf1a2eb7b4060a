-- ===== src/Operator/EvalRuns/Outcomes.antt =====
-- What the lifecycle guarantees: one Workflow for a run, a verdict that is the report's, and a
-- completion time that is set on arrival.
use voxplatform.Prelude.{
  ℕ, ◌≡◌, ◌≢◌, ◌↔◌, ◌⊎◌, refl, ap, String, Bool, true, false, none, some, List, [], ◌∷◌, arith, All,
}
use voxplatform.Operator.Api.{ok}
use voxplatform.Operator.EvalRuns.{
  EvalRunPhase, pending, running, succeeded, failed, EvalRun, EvalReport, SeenWorkflow, with_status,
  started, with_report, verdict_phase, is_terminal_workflow_phase, extract_eval_report,
  build_workflow,
}
use voxplatform.Operator.EvalRuns.Lifecycle.{
  Effect, created, wrote, Answers, recorder, effects, IsLive, workflow_key, Step,
}
use voxplatform.Operator.EvalRuns.Trace.{effects-Step}

passed_of_succeeded : (passed : Bool) → verdict_phase passed ≡ succeeded → passed ≡ true
passed_of_succeeded true e = refl
passed_of_succeeded false e = cc

module _ {W : Type 0} (a : Answers W) (now : ℕ) (run : EvalRun) where
  abbrev pub Keeps : Effect → Type 0
  Keeps (created wf) =
      IsLive run × (run.status.workflow_ref ≡ "") × (wf.key ≡ run.key) × (wf.owner ≢ none)
  Keeps (wrote o) = (o.key ≡ run.key) × (o.spec ≡ run.spec) × (o.deleting ≡ run.deleting)

  keeps : {es : List Effect} → Step a now run es → All Keeps es
  unfolding build_workflow
  keeps (Step.gone d) = tt
  keeps (Step.paused m d p) = ((refl, refl, refl), tt)
  keeps (Step.unowned l f e c) = tt
  keeps (Step.refused l f owner e c r n) = ((l, f, refl, λ x. cc), tt)
  keeps (Step.submitted l f owner m c r) = ((l, f, refl, λ n. cc), ((refl, refl, refl), tt))
  keeps (Step.unread l b e w n) = tt
  keeps (Step.lost m l b w) = ((refl, refl, refl), tt)
  keeps (Step.waited m l b wf w t) = ((refl, refl, refl), tt)
  keeps (Step.crashed m l b wf w t r) = ((refl, refl, refl), tt)
  keeps (Step.judged m l b wf report w t r) = ((refl, refl, refl), tt)

  -- The Workflow of a live run was read, is terminal, and holds a report that says so.
  abbrev pub IsJudged : Bool → Type 0
  IsJudged passed =
      (wf : SeenWorkflow) × (report : EvalReport W) × IsLive run
      × (run.status.workflow_ref ≢ "")
      × (a.workflow (workflow_key run) ≡ ok wf)
      × (is_terminal_workflow_phase wf.phase ≡ true)
      × (extract_eval_report (recorder a) wf ≡ some report)
      × (report.passed ≡ passed)

  abbrev pub IsVerdict : Effect → Type 0
  IsVerdict (created wf) = Unit
  IsVerdict (wrote o) = (o.status.phase ≡ succeeded) ↔ IsJudged true

  verdict : {es : List Effect} → Step a now run es → All IsVerdict es
  verdict (Step.gone d) = tt
  verdict (Step.paused m d p) = ((λ e. cc, λ j. cc (j.2.1)), tt)
  verdict (Step.unowned l f e c) = tt
  verdict (Step.refused l f owner e c r n) = (tt, tt)
  verdict (Step.submitted l f owner m c r) = (tt, ((λ e. cc, λ j. absurd (j.3 f)), tt))
  verdict (Step.unread l b e w n) = tt
  verdict (Step.lost m l b w) = ((λ e. cc, λ j. cc (j.4)), tt)
  verdict (Step.waited m l b wf w t) = ((λ e. cc, λ j. cc (w, j.4, t, j.5)), tt)
  verdict (Step.crashed m l b wf w t r) = ((λ e. cc, λ j. cc (w, j.4, r, j.6)), tt)
  verdict (Step.judged m l b wf report w t r) = (
    (
      λ e. (wf, report, l, b, w, t, r, passed_of_succeeded report.passed e),
      λ j. ap verdict_phase {y = true} (cc (w, j.4, r, j.6, j.7)),
    ),
    tt,
  )

  -- The reconcile makes one call, which writes the run as Succeeded.
  abbrev pub Succeeds : List Effect → Type 0
  Succeeds es = (o : EvalRun) × (es ≡ wrote o ∷ []) × (o.status.phase ≡ succeeded)

  succeeds : {es : List Effect} → Step a now run es → IsJudged true → Succeeds es
  succeeds (Step.gone d) j = cc (d, j.2.0)
  succeeds (Step.paused m d p) j = cc (p, j.2.1)
  succeeds (Step.unowned l f e c) j = absurd (j.3 f)
  succeeds (Step.refused l f owner e c r n) j = absurd (j.3 f)
  succeeds (Step.submitted l f owner m c r) j = absurd (j.3 f)
  succeeds (Step.unread l b e w n) j = cc (w, j.4)
  succeeds (Step.lost m l b w) j = cc (w, j.4)
  succeeds (Step.waited m l b wf w t) j = cc (w, j.4, t, j.5)
  succeeds (Step.crashed m l b wf w t r) j = cc (w, j.4, r, j.6)
  succeeds (Step.judged m l b wf report w t r) j =
      (_, refl, ap verdict_phase {y = true} (cc (w, j.4, r, j.6, j.7)))

  -- The completion time of a written object: `now` if it arrives in a final phase, and else the
  -- one that it had.
  abbrev pub IsTimed : Effect → Type 0
  IsTimed (created wf) = Unit
  IsTimed (wrote o) =
      ((run.status.phase ≢ o.status.phase)
        × ((o.status.phase ≡ succeeded) ⊎ (o.status.phase ≡ failed))
        × (o.status.completion_time ≡ some now))
      ⊎ (((run.status.phase ≡ o.status.phase)
            ⊎ ((o.status.phase ≢ succeeded) × (o.status.phase ≢ failed)))
          × (o.status.completion_time ≡ run.status.completion_time))

  written_time :
      (run' : EvalRun) (phase : EvalRunPhase) (ref message : String)
      → run'.status.phase ≡ run.status.phase
      → run'.status.completion_time ≡ run.status.completion_time
      → IsTimed (wrote (with_status now run' phase ref message))
  written_time run' phase ref message p c = ground arith

  timed : {es : List Effect} → Step a now run es → All IsTimed es
  timed (Step.gone d) = tt
  timed (Step.paused m d p) = (written_time run pending "" m refl refl, tt)
  timed (Step.unowned l f e c) = tt
  timed (Step.refused l f owner e c r n) = (tt, tt)
  timed (Step.submitted l f owner m c r) =
      (tt, (written_time (started now run) running "" m refl refl, tt))
  timed (Step.unread l b e w n) = tt
  timed (Step.lost m l b w) = (written_time run failed "" m refl refl, tt)
  timed (Step.waited m l b wf w t) = (written_time run running "" m refl refl, tt)
  timed (Step.crashed m l b wf w t r) = (written_time run failed "" m refl refl, tt)
  timed (Step.judged m l b wf report w t r) = (
    written_time (with_report (recorder a) run report) (verdict_phase report.passed) "" m refl refl,
    tt,
  )

module _ {W : Type 0} where
  -- Whatever the API server answers, a reconcile creates a Workflow only for a run that is
  -- neither deleted nor suspended and has no Workflow yet, with the key of the run and an owner;
  -- and it writes the run back with its key and spec.
  pub effects_keep :
      (a : Answers W) (now : ℕ) (run : EvalRun) → All (Keeps a now run) (effects a now run)
  effects_keep a now run = keeps a now run (effects-Step a now run)

  -- Whatever the API server answers, a run is written as Succeeded exactly when it is neither
  -- deleted nor suspended, its Workflow was read and is in a terminal phase, and the report found
  -- in the Workflow's outputs says that it passed; and then this write is the only call of the
  -- reconcile that changes the cluster.
  pub effects-IsVerdict :
      (a : Answers W) (now : ℕ) (run : EvalRun)
      → All (IsVerdict a now run) (effects a now run)
        × (IsJudged a now run true → Succeeds a now run (effects a now run))
  effects-IsVerdict a now run =
      (verdict a now run (effects-Step a now run), succeeds a now run (effects-Step a now run))

  -- A written run has the completion time `now` if this reconcile brings it to Succeeded or
  -- Failed from another phase, and keeps the completion time that it had otherwise.
  pub effects-IsTimed :
      (a : Answers W) (now : ℕ) (run : EvalRun) → All (IsTimed a now run) (effects a now run)
  effects-IsTimed a now run = timed a now run (effects-Step a now run)
