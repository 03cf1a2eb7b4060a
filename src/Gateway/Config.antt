-- ===== src/Gateway/Config.antt =====
-- The configuration of the gateway: internal/gateway/config.go. The environment is a function,
-- which gives the empty text for a variable that is not set, as os.Getenv does.
use voxplatform.Prelude.{String, if◌then◌else◌, ◌=s◌}

pub record Config : Type 0 where
  pub port : String
  pub whisper_url : String
  pub vad_endpoint : String
  pub diarizer_url : String
  pub summarizer_url : String
  pub event_log_backend : String
  pub event_log_dir : String
  pub event_log_bucket : String

abbrev pub get_env : (String → String) → String → String → String
get_env env key fallback = if env key =s "" then fallback else env key

unfoldable pub load_config : (String → String) → Config
load_config env = record {
  port = get_env env "PORT" "8080";
  whisper_url = get_env env "WHISPER_URL" "http://whisper.vox.svc.cluster.local:8000";
  vad_endpoint = get_env env "VAD_ENDPOINT" "http://localhost:8001";
  diarizer_url = get_env env "DIARIZER_URL" "";
  summarizer_url = get_env env "SUMMARIZER_URL" "";
  event_log_backend = get_env env "EVENT_LOG_BACKEND" "local";
  event_log_dir = get_env env "EVENT_LOG_DIR" "/tmp/vox-events";
  event_log_bucket = get_env env "EVENT_LOG_BUCKET" "";
}
