-- ===== src/Operator/Pipelines/Queue/Round.antt =====
-- One reconcile of a queued key against an API server that may fail: what is stored after it, and
-- what it answers.
use voxplatform.Prelude.{
  ℕ, ◌≡◌, ◌≢◌, ◌⊎◌, inl, inr, refl, sym, ◌∙◌, ap, String, Bool, true, false, Option, none, some,
  Bool-cases,
}
use voxplatform.Operator.Api.{
  Reply, ok, err, other, not_found, already_exists, Key, Outcome, requeue_after, error, done,
  ten_seconds, found,
}
use voxplatform.Operator.Pipelines.{PipelineApi, InferencePipeline, reconcile, ready, failed}
use voxplatform.Operator.Pipelines.Writes.{written, reconcile_lem}
use voxplatform.Operator.Pipelines.Queue.{World, IsAnswering, store_status}

-- The pipeline of the key is deleted, or is being deleted.
abbrev pub IsAbsent : World → Key → Type 0
IsAbsent w key = (p : InferencePipeline) → w.pipelines key ≡ some p → p.deleting ≡ true

abbrev deleting_of : Option InferencePipeline → Bool
deleting_of none = true
deleting_of (some p) = p.deleting

module _ (api : PipelineApi World) (now : ℕ) (key : Key) (w : World) where
  pub data Round : Outcome × World → Type 0 where
    idle : IsAbsent w key → Round (done, w)
    retried : (e : String) → Round (error e, w)
    rewritten :
        (p : InferencePipeline) (seen : api.get_pipeline key w ≡ ok p) (live : p.deleting ≡ false)
        (e : String)
        → w.pipelines key ≡ some p
        → Round (error e, store_status (written api now key w p seen live) w)
    waiting :
        (p : InferencePipeline) (seen : api.get_pipeline key w ≡ ok p) (live : p.deleting ≡ false)
        → w.pipelines key ≡ some p
        → Round (requeue_after ten_seconds, store_status (written api now key w p seen live) w)
    settled :
        (p : InferencePipeline) (seen : api.get_pipeline key w ≡ ok p) (live : p.deleting ≡ false)
        → w.pipelines key ≡ some p
        → ((written api now key w p seen live).status.phase ≡ ready)
          ⊎ ((written api now key w p seen live).status.phase ≡ failed)
        → Round (done, store_status (written api now key w p seen live) w)

  module _ (lawful : IsAnswering api w) where
    Round-written :
        (p : InferencePipeline) (seen : api.get_pipeline key w ≡ ok p) (live : p.deleting ≡ false)
        → w.pipelines key ≡ some p
        → Round (reconcile api now key w)
    Round-written p seen live h = elim (lawful.writes (written api now key w p seen live)) [
      | inl e ↦ elim ((reconcile_lem api now key w p seen live _).0 e) [
        | inl (r, phase) ↦ rw r (settled p seen live h phase)
        | inr (r, _, _) ↦ rw r (waiting p seen live h)
      ]
      | inr (inl (e, refused)) ↦
          rw ((reconcile_lem api now key w p seen live _).1 e refused) (retried _)
      | inr (inr (e, applied)) ↦
          rw ((reconcile_lem api now key w p seen live _).1 e applied) (rewritten p seen live _ h)
    ]

    some_ok : (o : Option InferencePipeline) (p : InferencePipeline) → found o ≡ ok p → o ≡ some p
    some_ok none p h = cc
    some_ok (some q) p h = cc

    stored_pipeline :
        (p : InferencePipeline) → api.get_pipeline key w ≡ ok p → w.pipelines key ≡ some p
    stored_pipeline p seen = elim (lawful.reads_pipeline key) [
      | inl e ↦ some_ok (w.pipelines key) p (sym e ∙ seen)
      | inr (m, e) ↦ cc
    ]

    found_ne :
        (o : Option InferencePipeline) (p : InferencePipeline)
        → o ≡ some p
        → found o ≢ err not_found
    found_ne o p h e = cc (ap found h)

    missing-IsAbsent : api.get_pipeline key w ≡ err not_found → IsAbsent w key
    missing-IsAbsent seen p h = elim (lawful.reads_pipeline key) [
      | inl e ↦ absurd (found_ne (w.pipelines key) p h (sym e ∙ seen))
      | inr (m, e) ↦ cc
    ]

    Round-seen :
        (r : Reply InferencePipeline) → api.get_pipeline key w ≡ r → Round (reconcile api now key w)
    unfolding reconcile
    Round-seen (ok p) seen = elim (Bool-cases p.deleting) [
      | inl gone ↦
          rw (reconcile, seen, gone)
            (idle (λ q h.
              ap (λ (o : Option InferencePipeline). deleting_of o) (sym h ∙ stored_pipeline p seen)
              ∙ gone))
      | inr live ↦ Round-written p seen live (stored_pipeline p seen)
    ]
    Round-seen (err not_found) seen = rw (reconcile, seen) (idle (missing-IsAbsent seen))
    Round-seen (err already_exists) seen = rw (reconcile, seen) (retried _)
    Round-seen (err (other m)) seen = rw (reconcile, seen) (retried _)

    -- What a reconcile can do: nothing for an absent pipeline, fail, fail after writing, or write
    -- the status and settle or ask to be called again.
    pub reconcile-Round : Round (reconcile api now key w)
    reconcile-Round = Round-seen (api.get_pipeline key w) refl
