-- ===== src/Operator/EvalRuns/History.antt =====
-- The life of a run: reconciles one after another, with edits of the spec between them.
use mathlib.Core.Path.{subst}
use voxplatform.Prelude.{ℕ, ◌≡◌, ◌≢◌, refl, sym, ◌∙◌, List, [], ◌∷◌, ◌++◌, All, All-append}
use voxplatform.Operator.Api.{Reply, ok, err, Key}
use voxplatform.Operator.EvalRuns.{EvalRunSpec, EvalRun, NewWorkflow, SeenWorkflow, build_workflow}
use voxplatform.Operator.EvalRuns.Lifecycle.{Effect, created, wrote, Answers, effects, Step}
use voxplatform.Operator.EvalRuns.Trace.{effects-Step}

-- One reconcile: the spec that it finds, the time, and the answers of the API server.
pub record Round (W : Type 0) : Type 0 where
  pub spec : EvalRunSpec
  pub now : ℕ
  pub answers : Answers W

abbrev pub creations : List Effect → List NewWorkflow
creations [] = []
creations (created wf ∷ es) = wf ∷ creations es
creations (wrote o ∷ es) = creations es

-- An update that fails leaves the object in the cluster as it was.
abbrev pub updated : Reply (Unit {0}) → EvalRun → EvalRun → EvalRun
updated (ok _) o run = o
updated (err e) o run = run

updated-ref :
    (r : Reply (Unit {0})) (o run : EvalRun)
    → o.status.workflow_ref ≡ run.status.workflow_ref
    → (updated r o run).status.workflow_ref ≡ run.status.workflow_ref
updated-ref (ok _) o run h = h
updated-ref (err e) o run h = refl

updated-key :
    (r : Reply (Unit {0})) (o run : EvalRun) → o.key ≡ run.key → (updated r o run).key ≡ run.key
updated-key (ok _) o run h = h
updated-key (err e) o run h = refl

module _ {W : Type 0} where
  abbrev pub stored : Answers W → EvalRun → List Effect → EvalRun
  stored a run [] = run
  stored a run (created wf ∷ es) = stored a run es
  stored a run (wrote o ∷ es) = stored a (updated (a.update o) o run) es

  abbrev pub edited : EvalRun → Round W → EvalRun
  edited run r = record run { spec = r.spec }

  abbrev pub next : EvalRun → Round W → EvalRun
  next run r = stored r.answers (edited run r) (effects r.answers r.now (edited run r))

  -- The Workflows that the reconciles of a run ask the API server to create.
  abbrev pub all_creations : EvalRun → List (Round W) → List NewWorkflow
  all_creations run [] = []
  all_creations run (r ∷ rs) =
      creations (effects r.answers r.now (edited run r)) ++ all_creations (next run r) rs

  -- A Workflow that is read has the name that was asked for.
  abbrev pub IsNamed : Answers W → Type 0
  IsNamed a = (k : Key) (wf : SeenWorkflow) → a.workflow k ≡ ok wf → wf.name ≡ k.name

  Step-creates_key :
      (a : Answers W) (now : ℕ) (run : EvalRun) {es : List Effect}
      → Step a now run es
      → All (λ wf. wf.key ≡ run.key) (creations es)
  unfolding build_workflow
  Step-creates_key a now run (Step.refused l f owner e c r z) = (refl, tt)
  Step-creates_key a now run (Step.submitted l f owner m c z) = (refl, tt)
  Step-creates_key a now run _ = tt

  Step-stored_key :
      (a : Answers W) (now : ℕ) (run : EvalRun) {es : List Effect}
      → Step a now run es
      → (stored a run es).key ≡ run.key
  Step-stored_key a now run (Step.gone d) = refl
  Step-stored_key a now run (Step.unowned l f e c) = refl
  Step-stored_key a now run (Step.refused l f owner e c r z) = refl
  Step-stored_key a now run (Step.unread l b e w z) = refl
  Step-stored_key a now run _ = updated-key _ _ run refl

  -- A run with a Workflow creates none, and keeps its reference to it.
  Step-busy :
      (a : Answers W) (now : ℕ) (run : EvalRun) {es : List Effect}
      → IsNamed a
      → run.status.workflow_ref ≢ ""
      → Step a now run es
      → (creations es ≡ []) × ((stored a run es).status.workflow_ref ≡ run.status.workflow_ref)
  Step-busy a now run n b (Step.gone d) = (refl, refl)
  Step-busy a now run n b (Step.paused m d p) = (refl, updated-ref _ _ run refl)
  Step-busy a now run n b (Step.unowned l f e c) = absurd (b f)
  Step-busy a now run n b (Step.refused l f owner e c r z) = absurd (b f)
  Step-busy a now run n b (Step.submitted l f owner m c z) = absurd (b f)
  Step-busy a now run n b (Step.unread l _ e w z) = (refl, refl)
  Step-busy a now run n b (Step.lost m l _ w) = (refl, updated-ref _ _ run refl)
  Step-busy a now run n b (Step.waited m l _ wf w t) = (refl, updated-ref _ _ run (n _ wf w))
  Step-busy a now run n b (Step.crashed m l _ wf w t r) = (refl, updated-ref _ _ run (n _ wf w))
  Step-busy a now run n b (Step.judged m l _ wf report w t r) =
      (refl, updated-ref _ _ run (n _ wf w))

  -- Over any sequence of reconciles and edits of the spec, every Workflow that is asked for has
  -- the key of the run, so that the API server, which keeps names unique, holds at most one.
  pub all_creations_key :
      (run : EvalRun) (rs : List (Round W)) → All (λ wf. wf.key ≡ run.key) (all_creations run rs)
  all_creations_key run [] = tt
  all_creations_key run (r ∷ rs) =
      let st = effects-Step r.answers r.now (edited run r) in
      All-append _ _ _ (Step-creates_key r.answers r.now (edited run r) st) (
        subst (λ (k : Key). All (λ wf. wf.key ≡ k) (all_creations (next run r) rs))
          (Step-stored_key r.answers r.now (edited run r) st) (all_creations_key (next run r) rs))

  -- Once a run refers to a Workflow, no later reconcile asks for another one, whatever happens to
  -- the Workflow, the spec, the updates of the status or the reads, as long as a Workflow that is
  -- read has the name that was asked for.
  pub all_creations_busy :
      (run : EvalRun) (rs : List (Round W))
      → run.status.workflow_ref ≢ ""
      → All (λ r. IsNamed r.answers) rs
      → all_creations run rs ≡ []
  all_creations_busy run [] b n = refl
  all_creations_busy run (r ∷ rs) b n =
      let (none_now, same) =
        Step-busy r.answers r.now (edited run r) n.0 b
          (effects-Step r.answers r.now (edited run r)) in
      rw none_now (all_creations_busy (next run r) rs (λ e. b (sym same ∙ e)) n.1)
