-- ===== src/Gateway/Server/Wiring.antt =====
-- What the environment of the gateway configures.
use voxplatform.Prelude.{
  ◌*◌, ◌^◌, ◌≡◌, ◌≢◌, ◌↔◌, ◌⊎◌, refl, String, Option, none, arith, eq_iff, text_eq_ne,
}
use voxplatform.Gateway.Config.{Config, load_config, get_env}
use voxplatform.Gateway.EventLog.{gcs, local}
use voxplatform.Gateway.EventLog.Choice.{new_event_logger_iff}
use voxplatform.Gateway.Stream.{default_stream_config}
use voxplatform.Gateway.Server.{Network, new_server, session_config}

-- The texts that stand for a variable: its value, or the default if it is empty or not set.
abbrev pub Configures : (String → String) → String → String → String → Type 0
Configures env key fallback value =
    ((env key ≢ "") × (value ≡ env key)) ⊎ ((env key ≡ "") × (value ≡ fallback))

configures :
    (env : String → String) (key fallback : String)
    → Configures env key fallback (get_env env key fallback)
configures env key fallback = ground (arith, eq_iff (env key) "")

get_env_empty : (env : String → String) (key : String) → get_env env key "" ≡ env key
get_env_empty env key = ground (arith, eq_iff (env key) "")

configured :
    (env : String → String) (key fallback value : String)
    → Configures env key fallback value
    → get_env env key fallback ≡ value
configured env key fallback value h = ground (arith, h, eq_iff (env key) "")

-- The backend that the variable names, by its value.
backend_iff :
    (env : String → String) (key : String)
    → ((get_env env key "local" ≡ "gcs") ↔ (env key ≡ "gcs"))
      × ((get_env env key "local" ≡ "local") ↔ ((env key ≡ "") ⊎ (env key ≡ "local")))
backend_iff env key = ground (
  arith,
  eq_iff (env key) "",
  eq_iff (env key) "gcs",
  eq_iff (env key) "local",
  eq_iff "local" "gcs",
  eq_iff "" "gcs",
)

session_config-IsDefault :
    (cfg : Config)
    → (cfg.vad_endpoint ≢ "")
    → session_config cfg ≡ record default_stream_config { vad_endpoint = cfg.vad_endpoint }
session_config-IsDefault cfg n = rw (text_eq_ne cfg.vad_endpoint "" n) refl

get_env_ne :
    (env : String → String) (key fallback : String) → fallback ≢ "" → get_env env key fallback ≢ ""
get_env_ne env key fallback n = ground (arith, n, eq_iff (env key) "")

module _ {F : Type 0} (net : Network F) (made : String → Option String)
    (env : String → String) where
  -- The server that the environment configures: Whisper, which the pipeline shares, is at
  -- WHISPER_URL or at the service of the cluster; the VAD of a streaming session is at VAD_ENDPOINT
  -- or on port 8001 of the host, and its other settings are a longest buffer of thirty seconds, a
  -- flush delay of two seconds, 16000 samples a second and frames of 640 bytes; a pipeline stage
  -- has the address of its variable, and none without it; and the events go to the bucket exactly
  -- if EVENT_LOG_BACKEND is "gcs" and EVENT_LOG_BUCKET is set, and to files of the directory
  -- exactly if the former is "local" or not set, or "gcs" without a bucket, and the directory could
  -- be made.
  pub new_server-load_config :
      (dir : String)
      → Configures env "EVENT_LOG_DIR" "/tmp/vox-events" dir
      → let server = new_server net made (load_config env) in
        Configures env "WHISPER_URL" "http://whisper.vox.svc.cluster.local:8000"
          server.proxy.base_url
        × (server.pipeline.whisper ≡ server.proxy)
        × Configures env "VAD_ENDPOINT" "http://localhost:8001"
            (session_config server.cfg).vad_endpoint
        × ((session_config server.cfg).max_buffer_duration ≡ 30 * 10 ^ 9)
        × ((session_config server.cfg).silence_flush_delay ≡ 2 * 10 ^ 9)
        × ((session_config server.cfg).sample_rate ≡ 16000)
        × ((session_config server.cfg).frame_size ≡ 640)
        × (server.pipeline.diarizer_url ≡ env "DIARIZER_URL")
        × (server.pipeline.summarizer_url ≡ env "SUMMARIZER_URL")
        × ((server.events ≡ gcs (env "EVENT_LOG_BUCKET"))
            ↔ ((env "EVENT_LOG_BACKEND" ≡ "gcs") × (env "EVENT_LOG_BUCKET" ≢ "")))
        × ((server.events ≡ local dir) ↔ (
            ((env "EVENT_LOG_BACKEND" ≡ "")
              ⊎ (env "EVENT_LOG_BACKEND" ≡ "local")
              ⊎ ((env "EVENT_LOG_BACKEND" ≡ "gcs") × (env "EVENT_LOG_BUCKET" ≡ "")))
            × (made dir ≡ none)))
  unfolding new_server load_config
  new_server-load_config dir d =
      let log =
        new_event_logger_iff (get_env env "EVENT_LOG_BACKEND" "local") dir (env "EVENT_LOG_BUCKET")
          (made dir) in
      let session = session_config-IsDefault (load_config env) (
        get_env_ne env "VAD_ENDPOINT" "http://localhost:8001"
          (λ e. ground (arith, (eq_iff "http://localhost:8001" "").1 e))) in
      rw
        (
          configured env "EVENT_LOG_DIR" "/tmp/vox-events" dir d,
          get_env_empty env "EVENT_LOG_BUCKET",
          session,
        )
        (
          configures env _ _,
          refl,
          configures env _ _,
          refl,
          refl,
          refl,
          refl,
          get_env_empty env _,
          get_env_empty env _,
          ground (arith, log.0, backend_iff env "EVENT_LOG_BACKEND"),
          ground (arith, log.1, backend_iff env "EVENT_LOG_BACKEND"),
        )
