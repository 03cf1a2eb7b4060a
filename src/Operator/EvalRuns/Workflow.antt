-- ===== src/Operator/EvalRuns/Workflow.antt =====
-- The Workflow that is submitted for an EvalRun.
use voxplatform.Prelude.{
  ◌≡◌, ◌≢◌, refl, String, Bool, true, false, Option, none, some, List, [], ◌∷◌, ◌++◌, drop,
  if◌then◌else◌, ◌=s◌, text_eq_ne,
}
use voxplatform.Operator.EvalRuns.{
  EvalRunSpec, EvalRun, EvalApi, OutputParameter, Template, Parameter, object, report_path,
  workflow_args, build_workflow, extract_eval_report,
}

-- The value that a command line gives to a flag, where flags and values alternate.
abbrev pub flag_value : String → List String → Option String
flag_value flag (name ∷ value ∷ rest) = if name =s flag then some value else flag_value flag rest
flag_value flag _ = none

-- The command line of the Workflow's container, whatever the texts of the spec are: it evaluates
-- the dataset, and after it each flag has the value that the spec or the default gives, with
-- "--model" present exactly if the spec names a model.
pub workflow_args_lem :
    (spec : EvalRunSpec)
    → (drop 1 (workflow_args spec) ≡ spec.dataset ∷ drop 2 (workflow_args spec))
      × (flag_value "--url" (drop 2 (workflow_args spec)) ≡ some spec.gateway_url)
      × (flag_value "--threshold" (drop 2 (workflow_args spec))
          ≡ some (if spec.wer_threshold =s "" then "0.3" else spec.wer_threshold))
      × (flag_value "--report-path" (drop 2 (workflow_args spec)) ≡ some report_path)
      × (flag_value "--model" (drop 2 (workflow_args spec))
          ≡ (if spec.model =s "" then none else some spec.model))
unfolding workflow_args
workflow_args_lem spec = (refl, refl, refl, refl, model_flag (spec.model =s ""))
  where
    model_flag :
        (b : Bool)
        → flag_value "--model" (if b then [] else "--model" ∷ spec.model ∷ [])
          ≡ (if b then none else some spec.model)
    model_flag true = refl
    model_flag false = refl

-- What a Workflow engine reports that reads each output parameter from its file.
abbrev pub captured : (String → Option String) → List OutputParameter → List Parameter
captured file [] = []
captured file (p ∷ ps) = object (some p.name) (file p.path) ∷ captured file ps

-- The parameters of all templates of a Workflow.
abbrev pub outputs : List Template → List OutputParameter
outputs [] = []
outputs (t ∷ ts) = t.parameters ++ outputs ts

-- Writer and reader agree on the report: if the container leaves a non-empty report in the file
-- that its command line names, and the engine captures the declared parameters, then the
-- controller reads back exactly the decoded report.
pub extract-build_workflow :
    {S W : Type 0} (api : EvalApi S W) (run : EvalRun) (file : String → Option String)
    (path value name phase : String)
    → flag_value "--report-path" (drop 2 (workflow_args run.spec)) ≡ some path
    → file path ≡ some value
    → value ≢ ""
    → extract_eval_report api (record {
      name = name;
      phase = phase;
      parameters = some (captured file (outputs (build_workflow run).templates));
    })
      ≡ api.decode_report value
unfolding build_workflow extract_eval_report
extract-build_workflow api run file path value name phase flag written full =
    let same : path ≡ report_path = cc (flag, (workflow_args_lem run.spec).3) in
    let at_path : file report_path ≡ some value = rw same at written in
    rw at_path (rw (text_eq_ne value "" full))
