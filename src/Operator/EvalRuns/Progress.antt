-- ===== src/Operator/EvalRuns/Progress.antt =====
-- A run on the way to its verdict: the submission of the Workflow, and any number of reconciles
-- that find it unfinished.
use mathlib.Core.Path.{subst}
use voxplatform.Prelude.{
  ℕ, ◌≡◌, ◌≢◌, refl, sym, ◌∙◌, ap, String, false, some, List, [], ◌∷◌, ◌++◌, All,
}
use voxplatform.Operator.Api.{not_found, Reply, ok, err, Key}
use voxplatform.Operator.EvalRuns.{EvalRun, SeenWorkflow, is_final, is_terminal_workflow_phase}
use voxplatform.Operator.EvalRuns.Lifecycle.{Effect, Answers, IsLive, workflow_key, Step}
use voxplatform.Operator.EvalRuns.Trace.{effects-Step}
use voxplatform.Operator.EvalRuns.History.{Round, updated, stored, edited, next}

-- The Workflow has not finished, as far as the read tells.
abbrev pub IsUndecided : String → Reply SeenWorkflow → Type 0
IsUndecided name (err e) = e ≢ not_found
IsUndecided name (ok wf) = (wf.name ≡ name) × (is_terminal_workflow_phase wf.phase ≡ false)

-- The run refers to the Workflow of its own name, which was submitted at `t`, and has no verdict.
abbrev pub IsWaiting : Key → ℕ → EvalRun → Type 0
IsWaiting key t run =
    (run.key ≡ key)
    × (run.deleting ≡ false)
    × (run.status.workflow_ref ≡ key.name)
    × (is_final run.status.phase ≡ false)
    × (run.status.start_time ≡ some t)

updated-IsWaiting :
    (key : Key) (t : ℕ) (r : Reply (Unit {0})) (o run : EvalRun)
    → IsWaiting key t o
    → IsWaiting key t run
    → IsWaiting key t (updated r o run)
updated-IsWaiting key t (ok _) o run h h' = h
updated-IsWaiting key t (err e) o run h h' = h'

pub key-IsWaiting :
    (key : Key) (t : ℕ) (run : EvalRun) → IsWaiting key t run → workflow_key run ≡ key
key-IsWaiting key t run h =
    ap (λ (x : String). record { namespace = run.key.namespace; name = x }) h.2
    ∙ ap (λ (k : Key). record { namespace = k.namespace; name = key.name }) h.0

module _ {W : Type 0} where
  -- The run after these reconciles.
  abbrev pub after : EvalRun → List (Round W) → EvalRun
  after run [] = run
  after run (r ∷ rs) = after (next run r) rs

  -- The updates of the status succeed, and the Workflow is created for `owner`.
  abbrev pub IsSubmitting : Key → EvalRun → Round W → Type 0
  IsSubmitting owner run r =
      IsLive (edited run r)
      × (r.answers.controller (edited run r) ≡ ok owner)
      × ((o : _) → r.answers.create o ≡ ok tt)
      × ((o : EvalRun) → r.answers.update o ≡ ok tt)

  pub Step-submits :
      (a : Answers W) (now : ℕ) (run : EvalRun) (owner : Key) {es : List Effect}
      → IsLive run
      → run.status.workflow_ref ≡ ""
      → a.controller run ≡ ok owner
      → ((o : _) → a.create o ≡ ok tt)
      → ((o : EvalRun) → a.update o ≡ ok tt)
      → Step a now run es
      → IsWaiting run.key now (stored a run es)
  Step-submits a now run owner l f c n u (Step.gone d) = cc
  Step-submits a now run owner l f c n u (Step.paused m d p) = cc
  Step-submits a now run owner l f c n u (Step.unowned _ _ e x) = cc
  Step-submits a now run owner l f c n u (Step.refused _ _ o e x r z) = cc (n _, r)
  Step-submits a now run owner l f c n u (Step.submitted _ _ o m x z) =
      rw (u _) (refl, l.0, refl, refl, refl)
  Step-submits a now run owner l f c n u (Step.unread _ b e w z) = absurd (b f)
  Step-submits a now run owner l f c n u (Step.lost m _ b w) = absurd (b f)
  Step-submits a now run owner l f c n u (Step.waited m _ b wf w t) = absurd (b f)
  Step-submits a now run owner l f c n u (Step.crashed m _ b wf w t r) = absurd (b f)
  Step-submits a now run owner l f c n u (Step.judged m _ b wf report w t r) = absurd (b f)

  Step-waits :
      (a : Answers W) (now : ℕ) (run : EvalRun) (key : Key) (t : ℕ) {es : List Effect}
      → key.name ≢ ""
      → IsWaiting key t run
      → IsUndecided key.name (a.workflow (workflow_key run))
      → Step a now run es
      → IsWaiting key t (stored a run es)
  Step-waits a now run key t n h w (Step.gone d) = h
  Step-waits a now run key t n h w (Step.paused m d p) =
      updated-IsWaiting key t _ _ run (h.0, h.1, h.2, refl, h.4) h
  Step-waits a now run key t n h w (Step.unowned l f e c) = absurd (n (sym h.2 ∙ f))
  Step-waits a now run key t n h w (Step.refused l f o e c r z) = absurd (n (sym h.2 ∙ f))
  Step-waits a now run key t n h w (Step.submitted l f o m c z) = absurd (n (sym h.2 ∙ f))
  Step-waits a now run key t n h w (Step.unread l b e r z) = h
  Step-waits a now run key t n h w (Step.lost m l b r) =
      absurd (subst (IsUndecided key.name) r w refl)
  Step-waits a now run key t n h w (Step.waited m l b wf r f) =
      let seen = subst (IsUndecided key.name) r w in
      updated-IsWaiting key t _ _ run (h.0, h.1, seen.0, refl, h.4) h
  Step-waits a now run key t n h w (Step.crashed m l b wf r f x) =
      let seen = subst (IsUndecided key.name) r w in cc (seen.1, f)
  Step-waits a now run key t n h w (Step.judged m l b wf report r f x) =
      let seen = subst (IsUndecided key.name) r w in cc (seen.1, f)

  pub after-append :
      (run : EvalRun) (rs rs' : List (Round W)) → after run (rs ++ rs') ≡ after (after run rs) rs'
  after-append run [] rs' = refl
  after-append run (r ∷ rs) rs' = after-append (next run r) rs rs'

  pub after-IsWaiting :
      (key : Key) (t : ℕ) (run : EvalRun) (rs : List (Round W))
      → key.name ≢ ""
      → IsWaiting key t run
      → All (λ r. IsUndecided key.name (r.answers.workflow key)) rs
      → IsWaiting key t (after run rs)
  after-IsWaiting key t run [] n h w = h
  after-IsWaiting key t run (r ∷ rs) n h w =
      after-IsWaiting key t (next run r) rs n
        (Step-waits r.answers r.now (edited run r) key t n h
          (subst (λ (k : Key). IsUndecided key.name (r.answers.workflow k))
            (sym (key-IsWaiting key t run h)) w.0)
          (effects-Step r.answers r.now (edited run r)))
        w.1
