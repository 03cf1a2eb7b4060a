-- ===== src/Operator/EvalRuns/Report.antt =====
-- When the report of a finished Workflow is found.
use voxplatform.Prelude.{
  ◌≡◌, ◌≢◌, ◌↔◌, ◌⊎◌, String, Bool, true, false, Option, none, some, List, [], ◌∷◌, arith, ◌=s◌,
  eq_iff,
}
use voxplatform.Operator.EvalRuns.{
  EvalReport, EvalApi, Parameter, no_object, object, SeenWorkflow, eval_report_output_param,
  text_or_empty, find_report, extract_eval_report, read_value,
}

abbrev pub is_named : Parameter → Bool
is_named no_object = false
is_named (object name value) = text_or_empty name =s eval_report_output_param

module _ {W : Type 0} (decode : String → Option (EvalReport W)) (r : EvalReport W) where
  -- The value of a parameter is a text that is not empty and decodes to the report.
  abbrev pub Reads : Parameter → Type 0
  Reads no_object = ⊥
  Reads (object name none) = ⊥
  Reads (object name (some value)) = (value ≢ "") × (decode value ≡ some r)

  -- There is a parameter named eval-report, and the first one reads as the report.
  abbrev pub Holds : List Parameter → Type 0
  Holds [] = ⊥
  Holds (p ∷ ps) = ((is_named p ≡ true) × Reads p) ⊎ ((is_named p ≡ false) × Holds ps)

  abbrev pub HoldsIn : Option (List Parameter) → Type 0
  HoldsIn none = ⊥
  HoldsIn (some ps) = Holds ps

module _ {S W : Type 0} (api : EvalApi S W) where
  read_value_iff :
      (r : EvalReport W) (name value : Option String)
      → (read_value api value ≡ some r) ↔ Reads api.decode_report r (object name value)
  read_value_iff r name none = ground arith
  read_value_iff r name (some value) = ground (arith, eq_iff value "")

  find_report_iff :
      (r : EvalReport W) (ps : List Parameter)
      → (find_report api ps ≡ some r) ↔ Holds api.decode_report r ps
  unfolding find_report
  find_report_iff r [] = ground arith
  find_report_iff r (no_object ∷ ps) = ground (arith, find_report_iff r ps)
  find_report_iff r (object name value ∷ ps) =
      ground (arith, read_value_iff r name value, find_report_iff r ps)

  -- A report is extracted from a Workflow exactly when its output parameters are a list in which
  -- the first one named eval-report has a text for its value, not empty, that decodes to the
  -- report.
  pub extract_eval_report_iff :
      (wf : SeenWorkflow) (r : EvalReport W)
      → (extract_eval_report api wf ≡ some r) ↔ HoldsIn api.decode_report r wf.parameters
  unfolding extract_eval_report
  extract_eval_report_iff wf r = go wf.parameters
    where
      go :
          (ps : Option (List Parameter))
          → ((elim ps [ none ↦ none | some qs ↦ find_report api qs ]) ≡ some r)
            ↔ HoldsIn api.decode_report r ps
      go none = ground arith
      go (some qs) = find_report_iff r qs
