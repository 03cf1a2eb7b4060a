-- ===== src/Gateway/EventLog/Cloud.antt =====
-- The Cloud Storage log of internal/gateway/eventlog.go: gcsLogger with its token, its object
-- names and its uploads. The answers of the metadata server and of the storage server, the JSON
-- encoder and decoder and the calendar are parameters.
pub mod Objects
mod Tests
use voxplatform.Prelude.{
  ℕ, String, Option, none, some, [], ◌∷◌, ◌++◌, if◌then◌else◌, ◌+s◌, show_ℕ, leb,
}
use voxplatform.Gateway.Wav.{Bytes}
use voxplatform.Gateway.Http.{
  Result, ok, err, wrap, Body, unreadable, content, HttpReply, not_built, not_sent, answered,
}
use voxplatform.Gateway.EventLog.{Event, newline}

-- What the storage server is sent for an event.
pub record Upload : Type 0 where
  pub url : String
  pub authorization : String
  pub body : Bytes

-- `date` is the day of a timestamp, `decode_token` the `access_token` of a JSON text, empty if it
-- has none, and `read_part` what was read of a body whose reading fails with this error.
pub record Cloud : Type 0 where
  pub marshal : Event → Result Bytes
  pub date : ℕ → String
  pub decode_token : String → Result String
  pub read_part : String → String

abbrev pub object_name : (ℕ → String) → Event → String
object_name date e =
    "events/" +s date e.timestamp +s "/" +s e.request_id +s "/" +s e.type +s ".jsonl"

abbrev pub upload_url : String → String → String
upload_url bucket object =
    "https://storage.googleapis.com/upload/storage/v1/b/" +s bucket +s "/o?uploadType=media&name="
    +s object

-- The text that io.ReadAll gives, whose error is dropped.
abbrev read_all : Cloud → Body → String
read_all cloud (unreadable e) = cloud.read_part e
read_all cloud (content text) = text

-- fetchMetadataToken, by the answer of the metadata server, whose status is not looked at.
pub fetch_metadata_token : Cloud → HttpReply → Result String
fetch_metadata_token cloud (not_built e) = err e
fetch_metadata_token cloud (not_sent e) = err ("metadata server unavailable: " +s e)
fetch_metadata_token cloud (answered status body) =
    wrap "parsing token response: " (cloud.decode_token (read_all cloud body))

-- The end of Log of gcsLogger, by the answer to the upload.
abbrev pub upload_result : HttpReply → Option String
upload_result (not_built e) = some e
upload_result (not_sent e) = some ("GCS upload: " +s e)
upload_result (answered status body) =
    if leb 300 status then some ("GCS upload returned " +s show_ℕ status) else none

abbrev asked : HttpReply → Upload → Option Upload
asked (not_built e) upload = none
asked _ upload = some upload

abbrev pub log_with_token :
    Cloud → String → Event → Bytes → HttpReply → Result String → Option String × Option Upload
log_with_token cloud bucket e line reply (err m) = (some ("fetching GCS token: " +s m), none)
log_with_token cloud bucket e line reply (ok token) = (
  upload_result reply,
  asked reply (record {
    url = upload_url bucket (object_name cloud.date e);
    authorization = "Bearer " +s token;
    body = line;
  }),
)

abbrev pub log_line :
    Cloud → String → HttpReply → HttpReply → Event → Result Bytes → Option String × Option Upload
unfolding fetch_metadata_token
log_line cloud bucket metadata reply e (err m) = (some m, none)
log_line cloud bucket metadata reply e (ok line) =
    log_with_token cloud bucket e (line ++ newline ∷ []) reply (fetch_metadata_token cloud metadata)

-- Log of gcsLogger, by the answers of the metadata server and to the upload: an error or none, and
-- the upload that is sent, if it gets that far.
pub log_gcs : Cloud → String → HttpReply → HttpReply → Event → Option String × Option Upload
unfolding fetch_metadata_token
log_gcs cloud bucket metadata reply e = log_line cloud bucket metadata reply e (cloud.marshal e)
