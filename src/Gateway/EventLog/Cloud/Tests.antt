-- ===== src/Gateway/EventLog/Cloud/Tests.antt =====
-- Two events of one request and one type in a bucket.
use voxplatform.Prelude.{
  ◌≡◌, refl, ℕ, String, List, [], ◌∷◌, Option, none, some, if◌then◌else◌, ◌=s◌,
}
use voxplatform.Gateway.Wav.{Bytes}
use voxplatform.Gateway.Http.{ok, content, answered}
use voxplatform.Gateway.EventLog.{Event}
use voxplatform.Gateway.EventLog.Cloud.{Cloud, upload_url, log_gcs}
use voxplatform.Gateway.EventLog.Cloud.Objects.{Storage, IsReplacing, Entry, log_all_overwrites}
use voxplatform.Gateway.EventLog.Cloud.Objects

abbrev event : ℕ → Event
event time = record {
  request_id = "a";
  timestamp = time;
  type = "stage.start";
  stage = "";
  data_values = [];
}

-- A bucket as a list of the contents and the addresses of its objects, the newest first.
abbrev lookup : List (String × Bytes) → String → Option Bytes
lookup [] n = none
lookup ((url, body) ∷ os) n = if n =s url then some body else lookup os n

abbrev bucket : Storage (List (String × Bytes))
bucket = record { object = lookup; named = λ url. url; receive = λ u os. (u.url, u.body) ∷ os }

abbrev address : String
address = upload_url "b" "events/2026-01-01/a/stage.start.jsonl"

abbrev server : Cloud
server = record {
  marshal = λ e. ok (e.timestamp ∷ []);
  date = λ time. "2026-01-01";
  decode_token = λ text. ok text;
  read_part = λ e. "";
}

abbrev entry : ℕ → Entry
entry time = record {
  event = event time;
  metadata = answered 200 (content "token");
  upload = answered 200 (content "");
}

log_all_overwrites_example :
    lookup (Objects.log_all server bucket "b" (entry 1 ∷ entry 2 ∷ []) []) address
    ≡ lookup (Objects.log_all server bucket "b" (entry 2 ∷ []) []) address
unfolding log_gcs
log_all_overwrites_example =
    log_all_overwrites server bucket "b" (λ n u s. refl) [] [] [] (entry 1) (entry 2) []
      (2 ∷ 10 ∷ []) address refl refl refl refl
