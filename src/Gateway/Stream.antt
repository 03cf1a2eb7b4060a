-- ===== src/Gateway/Stream.antt =====
-- audioBuffer and the streaming session of internal/gateway/stream.go. Times are readings of one
-- clock in nanoseconds; the zero `time.Time` is `none`. Each method of the buffer holds its mutex
-- throughout, so it is one step.
pub mod Buffer
pub mod Interleaving
pub mod Messages
pub mod Delivery
pub mod Latency
pub mod InFlight
mod Tests
use voxplatform.Prelude.{
  ℕ, ◌+◌, ◌-◌, ◌*◌, ◌^◌, Bool, true, false, not, ◌&&◌, Option, none, some, String, List, [], ◌∷◌,
  ◌++◌, ltb, leb, ◌==◌, if◌then◌else◌, length, ◌=s◌, ◌+s◌,
}
use voxplatform.Gateway.Wav.{Bytes, build_wav}

pub record StreamConfig : Type 0 where
  pub max_buffer_duration : ℕ
  pub silence_flush_delay : ℕ
  pub sample_rate : ℕ
  pub frame_size : ℕ
  pub vad_endpoint : String

abbrev pub second : ℕ
second = 10 ^ 9

abbrev pub default_stream_config : StreamConfig
default_stream_config = record {
  max_buffer_duration = 30 * second;
  silence_flush_delay = 2 * second;
  sample_rate = 16000;
  frame_size = 640;
  vad_endpoint = "http://localhost:8001";
}

pub record AudioBuffer : Type 0 where
  pub frames : List Bytes
  pub total_bytes : ℕ
  pub speech_start : Option ℕ
  pub last_speech : Option ℕ
  pub is_speaking : Bool

abbrev pub new_audio_buffer : AudioBuffer
new_audio_buffer = record {
  frames = [];
  total_bytes = 0;
  speech_start = none;
  last_speech = none;
  is_speaking = false;
}

pub add_frame : Bytes → AudioBuffer → AudioBuffer
add_frame frame b = record b {
  frames = b.frames ++ frame ∷ [];
  total_bytes = b.total_bytes + length frame;
}

pub mark_speech : ℕ → AudioBuffer → AudioBuffer
mark_speech now b =
    let started =
      if not b.is_speaking then record b { speech_start = some now; is_speaking = true } else b in
    record started { last_speech = some now }

pub mark_silence : AudioBuffer → AudioBuffer
mark_silence b = record b { is_speaking = false }

abbrev is_empty : List Bytes → Bool
is_empty [] = true
is_empty (f ∷ fs) = false

-- The last test: silence now, speech before, and long enough ago.
abbrev silent_since : ℕ → Bool → Option ℕ → ℕ → Bool
silent_since silence_delay speaking none now = false
silent_since silence_delay speaking (some last) now =
    if not speaking then leb silence_delay (now - last) else false

-- The duration is totalBytes / 2 / sampleRate seconds. Both comparisons are multiplied out, so
-- that they are exact; at the rates in use the source's float64 quotients order the same way.
pub should_flush : ℕ → ℕ → ℕ → ℕ → AudioBuffer → Bool
should_flush silence_delay max_duration sample_rate now b =
    if is_empty b.frames
    then false
    else if ltb b.total_bytes (2 * sample_rate)
    then false
    else if leb (2 * sample_rate * max_duration) (b.total_bytes * second)
    then true
    else silent_since silence_delay b.is_speaking b.last_speech now

-- The loop that sums the lengths.
pub total_pcm : List Bytes → ℕ
total_pcm [] = 0
total_pcm (f ∷ fs) = length f + total_pcm fs

-- `none` is the nil slice. `speechStart` is left as it is.
pub flush : ℕ → AudioBuffer → Option Bytes × AudioBuffer
unfolding total_pcm
flush sample_rate b = if is_empty b.frames then (none, b) else (
  some (build_wav b.frames (total_pcm b.frames) sample_rate),
  record b { frames = []; total_bytes = 0; last_speech = none; is_speaking = false },
)

pub record StreamMessage : Type 0 where
  pub type : String
  pub text : String
  pub is_final : Bool
  pub duration : ℕ
  pub request_id : String

-- What the VAD sidecar answers: no response, a body that is not the expected JSON, or a verdict.
pub data VadReply : Type 0 where
  unreachable garbled : VadReply
  verdict : Bool → VadReply

-- checkVAD: `none` is an error. A body that does not decode leaves the zero value, false.
pub check_vad : VadReply → Option Bool
check_vad unreachable = none
check_vad garbled = some false
check_vad (verdict speech) = some speech

-- What becomes of a request to Whisper: it cannot be built, it fails, or it is answered with a
-- status, the text field of the body (empty if the body does not decode) and the time it took.
pub data WhisperReply : Type 0 where
  unbuildable : WhisperReply
  failed : String → WhisperReply
  answered : ℕ → String → ℕ → WhisperReply

-- A session: the buffer, the WAV files that flushBuffer took out of it with what became of each,
-- the messages written to the client, both oldest first, and whether the read loop still runs.
pub record Session : Type 0 where
  pub buffer : AudioBuffer
  pub flushed : List (Bytes × WhisperReply)
  pub messages : List StreamMessage
  pub running : Bool

abbrev pub new_session : Session
new_session = record { buffer = new_audio_buffer; flushed = []; messages = []; running = true }

abbrev pub error_message : String → String → StreamMessage
error_message request_id reason = record {
  type = "error";
  text = "transcription failed: " +s reason;
  is_final = false;
  duration = 0;
  request_id = request_id;
}

abbrev pub final_message : String → String → ℕ → StreamMessage
final_message request_id text duration = record {
  type = "final";
  text = text;
  is_final = true;
  duration = duration;
  request_id = request_id;
}

-- What the client is sent for one request: nothing if the status is not 200.
pub reply_messages : String → WhisperReply → List StreamMessage
reply_messages request_id unbuildable = []
reply_messages request_id (failed reason) = error_message request_id reason ∷ []
reply_messages request_id (answered status text duration) =
    if status == 200 then final_message request_id text duration ∷ [] else []

-- `err != nil` counts as speech.
abbrev pub assumed : Option Bool → Bool
assumed none = true
assumed (some speech) = speech

abbrev pub heard : ℕ → Bytes → AudioBuffer → Bool → AudioBuffer
heard now frame b true = add_frame frame (mark_speech now b)
heard now frame b false = mark_silence (if ltb 0 b.total_bytes then add_frame frame b else b)

-- What reaches the session: a message or an error of conn.Read, or a tick of the flush loop.
-- Each carries what its backend answers.
pub data StreamEvent : Type 0 where
  audio : ℕ → Bytes → VadReply → StreamEvent
  text : String → WhisperReply → StreamEvent
  read_error : WhisperReply → StreamEvent
  ticked : ℕ → WhisperReply → StreamEvent

abbrev stop : Session → Session
stop s = record s { running = false }

-- The read loop's handling of a binary message.
pub on_audio : ℕ → Bytes → VadReply → Session → Session
unfolding add_frame mark_speech mark_silence check_vad
on_audio now frame reply s = record s {
  buffer = heard now frame s.buffer (assumed (check_vad reply));
}

module _ (cfg : StreamConfig) (request_id : String) where
  abbrev deliver : Session → WhisperReply → Option Bytes × AudioBuffer → Session
  deliver s reply (none, b) = s
  deliver s reply (some wav, b) = record s {
    buffer = b;
    flushed = s.flushed ++ (wav, reply) ∷ [];
    messages = s.messages ++ reply_messages request_id reply;
  }

  pub flush_buffer : WhisperReply → Session → Session
  unfolding flush
  flush_buffer reply s = deliver s reply (flush cfg.sample_rate s.buffer)

  -- One tick of flushLoop, at the time `now`.
  pub tick : ℕ → WhisperReply → Session → Session
  unfolding should_flush flush_buffer
  tick now reply s =
      if should_flush cfg.silence_flush_delay cfg.max_buffer_duration cfg.sample_rate now s.buffer
      then flush_buffer reply s
      else s

  -- Returning from handleStream cancels the context, which also ends the flush loop.
  pub handle_event : Session → StreamEvent → Session
  unfolding on_audio tick flush_buffer
  handle_event s (audio now frame reply) = on_audio now frame reply s
  handle_event s (text message reply) =
      if message =s "close" then stop (flush_buffer reply s) else s
  handle_event s (read_error reply) = stop (flush_buffer reply s)
  handle_event s (ticked now reply) = tick now reply s

  -- handleStream over a sequence of events.
  pub handle_stream : Session → List StreamEvent → Session
  unfolding handle_event
  handle_stream s [] = s
  handle_stream s (e ∷ es) = handle_stream (if s.running then handle_event s e else s) es
