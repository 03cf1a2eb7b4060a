-- ===== src/Operator/VoiceModels/Reconcile/Finalizer.antt =====
-- The finalizer of a VoiceModel: when it is set and released.
use voxplatform.Prelude.{ℕ, ◌≡◌, refl, String, Bool, true, false, not, List, [], ◌∷◌, if◌then◌else◌}
use voxplatform.Operator.Api.{ApiError, Reply, ok, err, Key, Outcome, error}
use voxplatform.Operator.VoiceModels.{VoiceModel}
use voxplatform.Operator.VoiceModels.Reconcile.{
  finalizer_name, Effect, updated_model, Cluster, reconcile, reconcile_model, reconcile_delete,
  with_finalizer, reconcile_resources, add_then, after_release,
}
use voxplatform.Operator.VoiceModels.Reconcile.Trace.{Ends, reconcile_resources-Ends}

module _ (cluster : Cluster) where
  abbrev pub IsHeld : VoiceModel → Type 0
  IsHeld vm = cluster.contains_finalizer vm.finalizers finalizer_name ≡ true

  abbrev pub IsReleased : VoiceModel → Type 0
  IsReleased vm = cluster.contains_finalizer vm.finalizers finalizer_name ≡ false

  -- One reconcile of a VoiceModel, by its result and its calls.
  pub data Round (now : ℕ) (vm : VoiceModel) : Outcome × List Effect → Type 0 where
    released :
        (fs : List String)
        → vm.deleting ≡ true
        → IsReleased (record vm { finalizers = fs })
        → Round now vm (
          after_release cluster (cluster.update_model [] (record vm { finalizers = fs })),
          updated_model (record vm { finalizers = fs }) ∷ [],
        )
    held :
        (r : Outcome × List Effect)
        → vm.deleting ≡ false
        → IsHeld vm
        → Ends cluster now vm [] r
        → Round now vm r
    not_taken :
        (message : String) (e : ApiError) (fs : List String)
        → vm.deleting ≡ false
        → IsReleased vm
        → cluster.update_model [] (record vm { finalizers = fs }) ≡ err e
        → Round now vm (error message, updated_model (record vm { finalizers = fs }) ∷ [])
    taken :
        (r : Outcome × List Effect) (fs : List String) (stored : VoiceModel)
        → vm.deleting ≡ false
        → IsReleased vm
        → IsHeld (record vm { finalizers = fs })
        → cluster.update_model [] (record vm { finalizers = fs }) ≡ ok stored
        → Ends cluster now stored (updated_model (record vm { finalizers = fs }) ∷ []) r
        → Round now vm r

  module _ (now : ℕ) (vm : VoiceModel)
      (adds : (fs : List String) (f : String)
        → cluster.contains_finalizer (cluster.add_finalizer fs f) f ≡ true)
      (removes : (fs : List String) (f : String)
        → cluster.contains_finalizer (cluster.remove_finalizer fs f) f ≡ false) where
    reconcile_delete-Round : vm.deleting ≡ true → Round now vm (reconcile_delete cluster vm [])
    unfolding reconcile_delete
    reconcile_delete-Round d = released _ d (removes vm.finalizers finalizer_name)

    add_then-Round :
        vm.deleting ≡ false
        → IsReleased vm
        → (r : Reply VoiceModel) → cluster.update_model [] (with_finalizer cluster vm) ≡ r
        → Round now vm (add_then cluster now (with_finalizer cluster vm) r [])
    unfolding with_finalizer
    add_then-Round d h (ok stored) e =
        taken _ _ stored d h (adds vm.finalizers finalizer_name) e
          (reconcile_resources-Ends cluster now stored _)
    add_then-Round d h (err x) e = not_taken _ x _ d h e

    live-Round :
        vm.deleting ≡ false
        → (b : Bool) → cluster.contains_finalizer vm.finalizers finalizer_name ≡ b
        → Round now vm (
            if not b
            then add_then cluster now
                (with_finalizer cluster vm)
                (cluster.update_model [] (with_finalizer cluster vm))
                []
            else reconcile_resources cluster now vm [])
    live-Round d true h = held _ d h (reconcile_resources-Ends cluster now vm [])
    live-Round d false h = add_then-Round d h _ refl

    model-Round :
        (b : Bool)
        → vm.deleting ≡ b
        → Round now vm (
            if b
            then reconcile_delete cluster vm []
            else if not (cluster.contains_finalizer vm.finalizers finalizer_name)
            then add_then cluster now
                (with_finalizer cluster vm)
                (cluster.update_model [] (with_finalizer cluster vm))
                []
            else reconcile_resources cluster now vm [])
    model-Round true d = reconcile_delete-Round d
    model-Round false d = live-Round d _ refl

    pub reconcile-Round :
        (key : Key) → cluster.get_model [] key ≡ ok vm → Round now vm (reconcile cluster now key)
    unfolding reconcile reconcile_model
    reconcile-Round key e = rw (e) (model-Round vm.deleting refl)
