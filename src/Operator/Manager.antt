-- ===== src/Operator/Manager.antt =====
-- The operator's process: operator/cmd/main.go, and the controllers that SetupWithManager of each
-- reconciler registers. The manager of the controller runtime is what it answers to each call; a
-- TLS option is a function on the part of a tls.Config that the options touch.
pub mod Options
pub mod Startup
mod Tests
use voxplatform.Prelude.{
  ℕ, String, Bool, true, false, not, Option, none, some, List, [], ◌∷◌, ◌++◌, if◌then◌else◌, ◌=s◌,
}

-- The flags, without those of the logger.
pub record Flags : Type 0 where
  pub metrics_addr : String
  pub metrics_cert_path : String
  pub metrics_cert_name : String
  pub metrics_cert_key : String
  pub webhook_cert_path : String
  pub webhook_cert_name : String
  pub webhook_cert_key : String
  pub enable_leader_election : Bool
  pub probe_addr : String
  pub secure_metrics : Bool
  pub enable_http2 : Bool

abbrev pub default_flags : Flags
default_flags = record {
  metrics_addr = "0";
  metrics_cert_path = "";
  metrics_cert_name = "tls.crt";
  metrics_cert_key = "tls.key";
  webhook_cert_path = "";
  webhook_cert_name = "tls.crt";
  webhook_cert_key = "tls.key";
  enable_leader_election = false;
  probe_addr = ":8081";
  secure_metrics = true;
  enable_http2 = false;
}

pub record TlsConfig : Type 0 where
  pub next_protos : List String

abbrev pub disable_http2 : TlsConfig → TlsConfig
disable_http2 c = record c { next_protos = "http/1.1" ∷ [] }

pub tls_opts : Flags → List (TlsConfig → TlsConfig)
tls_opts flags = if not flags.enable_http2 then disable_http2 ∷ [] else []

-- The zero value of a field of a certificate is the empty text.
pub record Certificate : Type 0 where
  pub cert_dir : String
  pub cert_name : String
  pub key_name : String

abbrev pub no_certificate : Certificate
no_certificate = record { cert_dir = ""; cert_name = ""; key_name = "" }

abbrev pub certificate : String → String → String → Certificate
certificate path name key =
    if path =s ""
    then no_certificate
    else record { cert_dir = path; cert_name = name; key_name = key }

pub record WebhookOptions : Type 0 where
  pub tls_opts : List (TlsConfig → TlsConfig)
  pub certificate : Certificate

pub record MetricsOptions : Type 0 where
  pub bind_address : String
  pub secure_serving : Bool
  pub tls_opts : List (TlsConfig → TlsConfig)
  pub with_authentication_and_authorization : Bool
  pub certificate : Certificate

pub record ManagerOptions : Type 0 where
  pub metrics : MetricsOptions
  pub webhook_server : WebhookOptions
  pub health_probe_bind_address : String
  pub leader_election : Bool
  pub leader_election_id : String

unfoldable pub webhook_options : Flags → WebhookOptions
unfolding tls_opts
webhook_options flags = record {
  tls_opts = tls_opts flags;
  certificate = certificate flags.webhook_cert_path flags.webhook_cert_name flags.webhook_cert_key;
}

unfoldable pub metrics_options : Flags → MetricsOptions
unfolding tls_opts
metrics_options flags = record {
  bind_address = flags.metrics_addr;
  secure_serving = flags.secure_metrics;
  tls_opts = tls_opts flags;
  with_authentication_and_authorization = flags.secure_metrics;
  certificate = certificate flags.metrics_cert_path flags.metrics_cert_name flags.metrics_cert_key;
}

unfoldable pub manager_options : Flags → ManagerOptions
unfolding metrics_options webhook_options
manager_options flags = record {
  metrics = metrics_options flags;
  webhook_server = webhook_options flags;
  health_probe_bind_address = flags.probe_addr;
  leader_election = flags.enable_leader_election;
  leader_election_id = "e7f9c729.vox.io";
}

pub data Kind : Type 0 where
  voice_model inference_pipeline eval_run deployment service workflow : Kind

-- A controller: the kind that it reconciles, the kinds of the owned objects whose changes
-- reconcile their owner, and the kinds whose changes are mapped to objects to reconcile.
pub record Controller : Type 0 where
  pub for_kind : Kind
  pub owns : List Kind
  pub watches : List Kind

abbrev pub voice_model_controller : Controller
voice_model_controller = record {
  for_kind = voice_model;
  owns = deployment ∷ service ∷ [];
  watches = [];
}

abbrev pub inference_pipeline_controller : Controller
inference_pipeline_controller = record {
  for_kind = inference_pipeline;
  owns = [];
  watches = voice_model ∷ [];
}

abbrev pub eval_run_controller : Controller
eval_run_controller = record { for_kind = eval_run; owns = workflow ∷ []; watches = [] }

-- The calls of main that can fail, with the message that it logs if the call does.
pub data Call : Type 0 where
  new_manager : ManagerOptions → Call
  setup_with_manager : Controller → Call
  add_healthz_check : Call
  add_readyz_check : Call
  start : Call

abbrev pub failure_message : Call → String
failure_message (new_manager options) = "Failed to start manager"
failure_message (setup_with_manager controller) = "Failed to create controller"
failure_message add_healthz_check = "Failed to set up health check"
failure_message add_readyz_check = "Failed to set up ready check"
failure_message start = "Failed to run manager"

-- The end of the process: its exit code, the calls that were made, oldest first, and the message
-- of the failure, if there was one.
pub record Exit : Type 0 where
  pub code : ℕ
  pub calls : List Call
  pub message : Option String

-- The calls one after another; after a call that fails, main logs the message and exits.
abbrev pub run_calls : (Call → Option String) → List Call → List Call → Exit
run_calls answers made [] = record { code = 0; calls = made; message = none }
run_calls answers made (c ∷ cs) =
    let rest = run_calls answers (made ++ c ∷ []) cs in
    elim (answers c) [
      | none ↦ rest
      | some e ↦ record { code = 1; calls = made ++ c ∷ []; message = some (failure_message c) }
    ]

abbrev pub main_calls : Flags → List Call
unfolding manager_options
main_calls flags =
    new_manager (manager_options flags)
    ∷ setup_with_manager voice_model_controller
    ∷ setup_with_manager inference_pipeline_controller
    ∷ setup_with_manager eval_run_controller
    ∷ add_healthz_check
    ∷ add_readyz_check
    ∷ start
    ∷ []

-- main, by the flags and what the manager answers, where `some` is an error. The call `start`
-- returns when the process is told to stop.
pub main : (Call → Option String) → Flags → Exit
unfolding main_calls
main answers flags = run_calls answers [] (main_calls flags)
