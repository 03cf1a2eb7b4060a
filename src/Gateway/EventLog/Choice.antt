-- ===== src/Gateway/EventLog/Choice.antt =====
-- The backend that NewEventLogger of internal/gateway/eventlog.go chooses.
use voxplatform.Prelude.{◌≡◌, ◌≢◌, ◌↔◌, ◌⊎◌, String, Option, none, arith, eq_iff}
use voxplatform.Gateway.EventLog.{gcs, local, new_event_logger}

-- The log goes to Cloud Storage exactly if that is configured with a bucket, and to local files
-- exactly if these are configured, or Cloud Storage without a bucket, and the directory could be
-- made. The local directory and the bucket are the configured ones.
pub new_event_logger_iff :
    (backend dir bucket : String) (made : Option String)
    → ((new_event_logger backend dir bucket made ≡ gcs bucket)
        ↔ ((backend ≡ "gcs") × (bucket ≢ "")))
      × ((new_event_logger backend dir bucket made ≡ local dir)
          ↔ (((backend ≡ "local") ⊎ ((backend ≡ "gcs") × (bucket ≡ ""))) × (made ≡ none)))
unfolding new_event_logger
new_event_logger_iff backend dir bucket made =
    ground
      (arith, eq_iff backend "gcs", eq_iff backend "local", eq_iff bucket "", eq_iff "gcs" "local")
