-- ===== src/Operator/Manager/Startup.antt =====
-- The start of the operator: what has happened when the manager starts, and how main ends.
use mathlib.Core.List.{Memᴰ}
use mathlib.Core.List.{append-nil, append_assoc}
use voxplatform.Prelude.{
  ◌≡◌, ◌≢◌, ◌↔◌, refl, sym, All-append, ◌∙◌, ap, String, Option, none, some, List, [], ◌∷◌, ◌++◌,
  All,
}
use voxplatform.Operator.Manager.{
  Flags, Call, new_manager, setup_with_manager, add_healthz_check, add_readyz_check, start, Exit,
  failure_message, run_calls, main_calls, main, manager_options, voice_model_controller,
  inference_pipeline_controller, eval_run_controller,
}

module _ (answers : Call → Option String) where
  abbrev pub Succeeds : Call → Type 0
  Succeeds c = answers c ≡ none

  -- How the calls end, after those already made: all are made and succeed, or they end with the
  -- first that fails.
  pub data Ends (made cs : List Call) (x : Exit) : Type 0 where
    succeeded :
        All Succeeds cs → x.code ≡ 0 → x.calls ≡ made ++ cs → x.message ≡ none → Ends made cs x
    failed :
        (before : List Call) (c : Call) (after : List Call) (e : String)
        → cs ≡ before ++ c ∷ after
        → All Succeeds before
        → answers c ≡ some e
        → x.code ≡ 1
        → x.calls ≡ made ++ (before ++ c ∷ [])
        → x.message ≡ some (failure_message c)
        → Ends made cs x

  later :
      (made : List Call) (c : Call) (cs : List Call) (x : Exit)
      → answers c ≡ none
      → Ends (made ++ c ∷ []) cs x
      → Ends made (c ∷ cs) x
  later made c cs x s (succeeded a code calls message) =
      succeeded (s, a) code (calls ∙ append_assoc made (c ∷ []) cs) message
  later made c cs x s (failed before d after e at a fails code calls message) =
      failed (c ∷ before) d after e (ap (λ (t : List Call). c ∷ t) at) (s, a) fails code
        (calls ∙ append_assoc made (c ∷ []) (before ++ d ∷ [])) message

  run_calls-Ends : (made cs : List Call) → Ends made cs (run_calls answers made cs)
  run_calls-Ends made [] = succeeded tt refl (sym (append-nil made)) refl
  run_calls-Ends made (c ∷ cs) = go (answers c) refl (run_calls-Ends (made ++ c ∷ []) cs)
    where
      go :
          (o : Option String)
          → answers c ≡ o
          → Ends (made ++ c ∷ []) cs (run_calls answers (made ++ c ∷ []) cs)
          → Ends made (c ∷ cs) (elim o [
            | none ↦ run_calls answers (made ++ c ∷ []) cs
            | some e ↦ record {
              code = 1;
              calls = made ++ c ∷ [];
              message = some (failure_message c);
            }
          ])
      go none s rest = later made c cs _ s rest
      go (some e) f rest = failed [] c cs e refl tt f refl refl refl

  -- Either every call of main succeeds and the process ends with code 0, or it ends with code 1 and
  -- the message of the first call that fails, and makes no call after that one.
  pub main-Ends : (flags : Flags) → Ends [] (main_calls flags) (main answers flags)
  unfolding main
  main-Ends flags = run_calls-Ends [] (main_calls flags)

  absent : (cs : List Call) → All (λ c. c ≢ start) cs → ¬ Memᴰ start cs
  absent [] n m = elim m [ ]
  absent (c ∷ cs) n (Memᴰ.head e) = n.0 (sym e)
  absent (c ∷ cs) n (Memᴰ.tail m) = absent cs n.1 m

  -- How the calls end after the answer to the first of them.
  abbrev ends : List Call → Call → List Call → Option String → Exit
  ends made c cs o =
      let rest = run_calls answers (made ++ c ∷ []) cs in
      elim o [
        | none ↦ rest
        | some e ↦ record { code = 1; calls = made ++ c ∷ []; message = some (failure_message c) }
      ]

  ends_iff :
      (made : List Call) (c : Call) (cs : List Call) (o : Option String)
      → answers c ≡ o
      → ((run_calls answers (made ++ c ∷ []) cs).code ≡ 0) ↔ All Succeeds cs
      → ((ends made c cs o).code ≡ 0) ↔ (Succeeds c × All Succeeds cs)
  ends_iff made c cs none s iff = ((λ e. (s, iff.0 e)), λ h. iff.1 h.1)
  ends_iff made c cs (some e) f iff = ((λ z. cc), λ h. cc (f, h.0))

  code_iff : (made cs : List Call) → ((run_calls answers made cs).code ≡ 0) ↔ All Succeeds cs
  code_iff made [] = ((λ e. tt), λ h. refl)
  code_iff made (c ∷ cs) = ends_iff made c cs (answers c) refl (code_iff (made ++ c ∷ []) cs)

  calls-ends :
      (made : List Call) (c : Call) (o : Option String) → (ends made c [] o).calls ≡ made ++ c ∷ []
  calls-ends made c none = refl
  calls-ends made c (some e) = refl

  -- What is known when the call `start` was made, which is the last one.
  abbrev IsStarted : List Call → List Call → Exit → Type 0
  IsStarted made cs x =
      Memᴰ start x.calls → All Succeeds cs × (x.calls ≡ made ++ (cs ++ start ∷ []))

  ends-IsStarted :
      (made : List Call) (c : Call) (cs : List Call) (o : Option String)
      → answers c ≡ o
      → All (λ c. c ≢ start) (made ++ c ∷ [])
      → IsStarted (made ++ c ∷ []) cs (run_calls answers (made ++ c ∷ []) (cs ++ start ∷ []))
      → IsStarted made (c ∷ cs) (ends made c (cs ++ start ∷ []) o)
  ends-IsStarted made c cs none s n later m =
      let (all, calls) = later m in
      ((s, all), calls ∙ append_assoc made (c ∷ []) (cs ++ start ∷ []))
  ends-IsStarted made c cs (some e) f n later m = absurd (absent (made ++ c ∷ []) n m)

  starts_last :
      (made cs : List Call)
      → All (λ c. c ≢ start) made
      → All (λ c. c ≢ start) cs
      → IsStarted made cs (run_calls answers made (cs ++ start ∷ []))
  starts_last made [] n k = λ m. (tt, calls-ends made start (answers start))
  starts_last made (c ∷ cs) n k =
      let others = All-append _ made (c ∷ []) n (k.0, tt) in
      ends-IsStarted made c cs (answers c) refl others (starts_last (made ++ c ∷ []) cs others k.1)

  -- What main has done when it starts the manager, in this order.
  abbrev pub preparation : Flags → List Call
  preparation flags =
      new_manager (manager_options flags)
      ∷ setup_with_manager voice_model_controller
      ∷ setup_with_manager inference_pipeline_controller
      ∷ setup_with_manager eval_run_controller
      ∷ add_healthz_check
      ∷ add_readyz_check
      ∷ []

  -- The manager is started only after, in this order, it was created with the options of the flags,
  -- the three controllers were registered and the two checks were added, each with success; and the
  -- operator ends with code 0 exactly if all of this and the run of the manager succeed.
  pub main_starts :
      (flags : Flags)
      → (Memᴰ start (main answers flags).calls
          → All Succeeds (preparation flags)
            × ((main answers flags).calls ≡ preparation flags ++ start ∷ []))
        × (((main answers flags).code ≡ 0) ↔ All Succeeds (preparation flags ++ start ∷ []))
  unfolding main
  main_starts flags = (
    λ m.
        starts_last [] (preparation flags) tt
          ((λ e. cc), ((λ e. cc), ((λ e. cc), ((λ e. cc), ((λ e. cc), ((λ e. cc), tt)))))) m,
    code_iff [] (preparation flags ++ start ∷ []),
  )
