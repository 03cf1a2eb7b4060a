-- ===== src/Operator/VoiceModels/Reconcile/Honest.antt =====
-- A VoiceModel that says Ready is served, however the controller of
-- operator/internal/controller/voicemodel_controller.go and the cluster run.
use mathlib.Core.List.{Memᴰ}
use mathlib.Core.List.Memᴰ
use mathlib.Core.Path.{subst}
use voxplatform.Prelude.{
  ℕ, ◌≡◌, ◌≢◌, ◌⊎◌, inl, inr, refl, sym, ap, ◌∙◌, String, Bool, true, false, not, Option, none,
  some, List, [], ◌∷◌, ◌++◌, Bool-cases, if◌then◌else◌,
}
use voxplatform.Operator.WorkQueue.{Reach, Reach-keeps}
use voxplatform.Operator.WorkQueue.{again, mem_again, mem_others, queued_last}
use voxplatform.Operator.Api.{Key, Reply, ok, err, Outcome, done, ready, found, not_found}
use voxplatform.Operator.VoiceModels.{VoiceModel, deployment_name}
use voxplatform.Operator.VoiceModels.Reconcile.{
  Effect, updated_model, Cluster, reconcile, reconcile_model, reconcile_delete, reconcile_resources,
  finalizer_name, with_finalizer, add_then,
}
use voxplatform.Operator.VoiceModels.Reconcile.Store.{Store, put, replay}
use voxplatform.Operator.VoiceModels.Reconcile.Converge.{before}
use voxplatform.Operator.VoiceModels.Reconcile.Serving.{IsServed, IsHonest, resources-IsHonest}
use voxplatform.Operator.VoiceModels.Reconcile.Watch.{
  IsWorking, Controller, after_reconcile, Step, deployment_changed, model_stored, model_removed,
  reconciled, IsStart,
}
use voxplatform.Operator.VoiceModels.Reconcile.Changes.{
  model_put-IsHonest, deployment_changed-IsHonest, model_removed-IsHonest,
}

-- One reconcile of a queued VoiceModel.
module _ (cluster : Cluster) (allocate : Key → String) (owner : VoiceModel → Key) (now : ℕ)
    (key : Key) (store : Store) (works : IsWorking cluster allocate owner store) (queue : List Key)
    (held : IsHonest store queue) (vm : VoiceModel) (stored : store.models key ≡ some vm)
    (queue' : List Key) (others : (k : Key) → key ≢ k → Memᴰ k queue → Memᴰ k queue') where
  own_key : vm.key ≡ key
  own_key = (held.1 key vm stored).0

  other_keys : (k : Key) → vm.key ≢ k → Memᴰ k queue → Memᴰ k queue'
  other_keys k n = others k (λ e. n (own_key ∙ e))

  -- An update of the VoiceModel that leaves its spec and its status.
  updated-IsHonest :
      (fs : List String)
      → IsHonest
          (record store { models = put vm.key (record vm { finalizers = fs }) store.models })
          queue
  unfolding deployment_name
  updated-IsHonest fs =
      model_put-IsHonest store queue queue (record vm { finalizers = fs }) (λ k n m. m)
        (λ live up.
          subst (λ (x : Key). IsServed store vm ⊎ Memᴰ x queue) (sym own_key)
            ((held.1 key vm stored).1 live up))
        held

  released-IsHonest :
      (fs : List String)
      → vm.deleting ≡ true
      → IsHonest
          (record store { models = put vm.key (record vm { finalizers = fs }) store.models })
          queue'
  released-IsHonest fs gone =
      model_put-IsHonest store queue queue' (record vm { finalizers = fs }) other_keys
        (λ live up. cc (gone, live)) held

  deleted : vm.deleting ≡ true → reconcile_model cluster now vm [] ≡ reconcile_delete cluster vm []
  unfolding reconcile_model
  deleted gone = simp gone refl

  marked :
      vm.deleting ≡ false
      → cluster.contains_finalizer vm.finalizers finalizer_name ≡ true
      → reconcile_model cluster now vm [] ≡ reconcile_resources cluster now vm []
  unfolding reconcile_model
  marked live has = simp (live, has) refl

  unmarked :
      vm.deleting ≡ false
      → cluster.contains_finalizer vm.finalizers finalizer_name ≡ false
      → reconcile_model cluster now vm []
        ≡ reconcile_resources cluster now
            (with_finalizer cluster vm)
            (updated_model (with_finalizer cluster vm) ∷ [])
  unfolding reconcile_model
  unmarked live lacks =
      let vm' = with_finalizer cluster vm in
      let add = add_then cluster now vm' (cluster.update_model [] vm') [] in
      let resources = reconcile_resources cluster now vm [] in
      ap
        (λ (b : Bool).
          if b
          then reconcile_delete cluster vm []
          else if not (cluster.contains_finalizer vm.finalizers finalizer_name)
          then add
          else resources)
        live
      ∙ ap (λ (b : Bool). if not b then add else resources) lacks
      ∙ ap (λ (r : Reply VoiceModel). add_then cluster now vm' r []) (works.takes_model [] vm')

  model-IsHonest : IsHonest (replay allocate (reconcile_model cluster now vm []).1 store) queue'
  unfolding reconcile_delete with_finalizer
  model-IsHonest = elim (Bool-cases vm.deleting) [
    | inl gone ↦ subst Holds (sym (deleted gone)) (released-IsHonest _ gone)
    | inr live ↦ elim (Bool-cases (cluster.contains_finalizer vm.finalizers finalizer_name)) [
      | inl has ↦ subst Holds (sym (marked live has)) (
          resources-IsHonest cluster allocate owner store works.lawful now vm [] held.0
            (works.fits vm) queue queue' other_keys held)
      | inr lacks ↦ subst Holds (sym (unmarked live lacks)) (
          resources-IsHonest cluster allocate owner store works.lawful now
            (with_finalizer cluster vm) (updated_model (with_finalizer cluster vm) ∷ []) held.0
            (works.fits (with_finalizer cluster vm)) queue queue' other_keys (updated-IsHonest _))
    ]
  ]
    where
      Holds : Outcome × List Effect → Type 0
      Holds r = IsHonest (replay allocate r.1 store) queue'

module _ (cluster : Cluster) (allocate : Key → String) (owner : VoiceModel → Key) (now : ℕ)
    (key : Key) (store : Store) (works : IsWorking cluster allocate owner store)
    (before rest : List Key) (held : IsHonest store (before ++ key ∷ rest)) where
  dropped-IsHonest :
      store.models key ≡ none
      → (queue' : List Key) → ((k : Key) → key ≢ k → Memᴰ k (before ++ key ∷ rest) → Memᴰ k queue')
      → IsHonest store queue'
  dropped-IsHonest gone queue' others = (
    held.0,
    λ k m h.
        let (own, status) = held.1 k m h in
        (
          own,
          λ live up. elim (status live up) [
            | inl served ↦ inl served
            | inr queued ↦ inr (others k (λ e. cc (ap store.models e ∙ h, gone)) queued)
          ],
        ),
  )

  present :
      (vm : VoiceModel)
      → store.models key ≡ some vm
      → reconcile cluster now key ≡ reconcile_model cluster now vm []
  unfolding reconcile
  present vm stored =
      let read : cluster.get_model [] key ≡ ok vm = works.read_model key ∙ ap found stored in
      simp read refl

  missing : store.models key ≡ none → reconcile cluster now key ≡ (done, [])
  unfolding reconcile
  missing gone =
      let read : cluster.get_model [] key ≡ err not_found = works.read_model key ∙ ap found gone in
      simp read refl

  reconcile_found :
      (o : Option VoiceModel)
      → store.models key ≡ o
      → (queue' : List Key) → ((k : Key) → key ≢ k → Memᴰ k (before ++ key ∷ rest) → Memᴰ k queue')
      → IsHonest (replay allocate (reconcile cluster now key).1 store) queue'
  reconcile_found (some vm) stored queue' others =
      subst (λ (r : Outcome × List Effect). IsHonest (replay allocate r.1 store) queue')
        (sym (present vm stored))
        (model-IsHonest cluster allocate owner now key store works (before ++ key ∷ rest) held vm
          stored queue' others)
  reconcile_found none stored queue' others =
      subst (λ (r : Outcome × List Effect). IsHonest (replay allocate r.1 store) queue')
        (sym (missing stored)) (dropped-IsHonest stored queue' others)

  after_reconcile-IsHonest :
      IsHonest
        (after_reconcile cluster allocate now key (before ++ rest) store).store
        (after_reconcile cluster allocate now key (before ++ rest) store).queue
  after_reconcile-IsHonest =
      let outcome = (reconcile cluster now key).0 in
      reconcile_found (store.models key) refl (again outcome key (before ++ rest))
        (λ k n m. mem_again outcome k key (before ++ rest) (mem_others k key before rest n m))

Step-IsHonest : {c d : Controller} → Step c d → IsHonest c.store c.queue → IsHonest d.store d.queue
Step-IsHonest (deployment_changed c vm seen own named) held =
    deployment_changed-IsHonest c held vm seen own
Step-IsHonest (model_stored c vm) held =
    model_put-IsHonest c.store c.queue (c.queue ++ vm.key ∷ []) vm (λ k n m. Memᴰ.append_left _ m)
      (λ live up. inr (queued_last vm.key c.queue)) held
Step-IsHonest (model_removed c k) held = model_removed-IsHonest c held k
Step-IsHonest (reconciled c cluster allocate owner now key before rest e works) held =
    after_reconcile-IsHonest cluster allocate owner now key c.store works before rest (rw e at held)

Reach-IsHonest :
    (start c : Controller) → IsStart start → Reach Step start c → IsHonest c.store c.queue
Reach-IsHonest start c h =
    Reach-keeps Step (λ (c : Controller). IsHonest c.store c.queue) start c
      (λ c d s. Step-IsHonest s)
      (h.0, λ k m stored. ((h.1 k m stored).0, λ live up. inr (h.1 k m stored).1))

-- From a start of the controller on, in whatever order VoiceModels and the Deployments that name
-- them as owner change and queued VoiceModels are reconciled, on an API server that works, and on
-- which no Deployment under the key of a VoiceModel's has another selector when a VoiceModel is
-- reconciled: a stored VoiceModel that says Ready and is not being deleted has its key queued, or
-- its Deployment has at least the wanted replicas ready.
pub ready_holds :
    (start c : Controller) (k : Key) (m : VoiceModel)
    → IsStart start
    → Reach Step start c
    → c.store.models k ≡ some m
    → m.deleting ≡ false
    → m.status.phase ≡ ready
    → IsServed c.store m ⊎ Memᴰ k c.queue
ready_holds start c k m h reached stored live up =
    ((Reach-IsHonest start c h reached).1 k m stored).1 live up
