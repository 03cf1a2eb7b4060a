-- ===== src/Gateway/Pipeline/Types.antt =====
-- The types of internal/gateway/pipeline.go, its backends and its clock.
use voxplatform.Prelude.{ℕ, String, Bool, List}
use voxplatform.Gateway.Http.{Result, HttpReply}
use voxplatform.Gateway.Proxy.{Part, Whisper}
use voxplatform.Gateway.EventLog.{Event}

-- strings.Split, strings.ToLower and strings.TrimSpace
pub record Strings : Type 0 where
  pub split : String → String → List String
  pub to_lower : String → String
  pub trim_space : String → String

pub record SpeakerSegment (F : Type 0) : Type 0 where
  pub start : F
  pub end : F
  pub speaker : String
  pub text : String

pub record StageResult : Type 0 where
  pub duration : ℕ
  pub success : Bool
  pub error : String

-- `stages` lists the entries of the map in the order in which they are set.
pub record PipelineResponse (F : Type 0) : Type 0 where
  pub request_id : String
  pub created_at : ℕ
  pub processing : ℕ
  pub stages : List (String × StageResult)
  pub transcript : String
  pub segments : List (SpeakerSegment F)
  pub summary : String

-- The three backends, and the decoders of their answers.
pub record Services (F : Type 0) : Type 0 where
  pub whisper : Whisper
  pub diarizer_url : String
  pub summarizer_url : String
  pub post_form : String → List Part → HttpReply
  pub post_summary : String → String → List (SpeakerSegment F) → HttpReply
  pub decode_segments : String → Result (List (SpeakerSegment F))
  pub decode_summary : String → Result String
  -- The built-in function len of Go on a string, which counts bytes.
  pub byte_length : String → ℕ

-- The clock: the time at which an event is logged after those before it, the time that a stage
-- takes, and that of the whole request.
pub record Clock : Type 0 where
  pub now : List Event → ℕ
  pub stage_time : String → ℕ
  pub total : ℕ

-- The response being built, and the events so far.
pub record Run (F : Type 0) : Type 0 where
  pub response : PipelineResponse F
  pub events : List Event
