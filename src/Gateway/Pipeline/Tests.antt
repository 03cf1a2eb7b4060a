-- ===== src/Gateway/Pipeline/Tests.antt =====
-- A request for all stages, on backends where the diarizer is down.
use Prim.Native.String.{len}
use voxplatform.Prelude.{ℕ, ◌≡◌, ◌+s◌, arith, eq_iff, refl, String, some, List, [], ◌∷◌, length}
use voxplatform.Gateway.Http.{Result, ok, content, not_sent, answered}
use voxplatform.Gateway.Proxy.{Whisper, Form}
use voxplatform.Gateway.Pipeline.{
  Strings, Services, Clock, Run, run_stt, run_stages, new_run, handle_pipeline,
}
use voxplatform.Gateway.Pipeline.Log.{Logged, handle_pipeline-Logged}
use voxplatform.Gateway.Pipeline.Stages.{IsRun, run_stages-IsRun}
use voxplatform.Gateway.Wav.{Bytes}
use voxplatform.Gateway.EventLog.{Event, LocalLog}
use voxplatform.Gateway.EventLog.Files.{log_all}
use voxplatform.Gateway.Pipeline.Replay.{
  Interleaved, IsElsewhere, all_lines, handle_pipeline_replays,
}

abbrev whisper : Whisper
whisper = record {
  base_url = "http://whisper";
  get = λ url. answered 200 (content "");
  post_form = λ url parts. answered 200 (content "hello");
  decode_text = λ body. ok body;
}

abbrev services : Services ℕ
services = record {
  whisper = whisper;
  diarizer_url = "http://diarizer";
  summarizer_url = "http://summarizer";
  post_form = λ url parts. not_sent "connection refused";
  post_summary = λ url transcript segments. answered 200 (content "short");
  decode_segments = λ body. ok [];
  decode_summary = λ body. ok body;
  byte_length = len;
}

abbrev clock : Clock
clock = record { now = λ es. length es; stage_time = λ stage. 1; total = 3 }

abbrev strings : Strings
strings = record { split = λ text separator. text ∷ []; to_lower = λ t. t; trim_space = λ t. t }

abbrev form : Form
form = record {
  file = some (record { filename = "a.wav"; audio = ok (1 ∷ 2 ∷ []) });
  value = λ name. "";
}

abbrev all_stages : List String
all_stages = "stt" ∷ "diarize" ∷ "summarize" ∷ []

handle_pipeline-Logged_example :
    Logged services strings "r1"
      (some form)
      (handle_pipeline services clock strings "r1" 7 (some form))
handle_pipeline-Logged_example = handle_pipeline-Logged services clock strings "r1" 7 (some form)

abbrev run : Run ℕ
run = new_run services clock "r1" 7

run_stages-IsRun_example :
    IsRun services clock all_stages "a.wav"
      (1 ∷ 2 ∷ [])
      (run_stt services "a.wav" (1 ∷ 2 ∷ []) "" "")
      (run_stages services clock form all_stages "a.wav" (1 ∷ 2 ∷ []) run).0
run_stages-IsRun_example =
    run_stages-IsRun services clock all_stages "a.wav" (1 ∷ 2 ∷ []) form run refl refl

alone : (es : List Event) → Interleaved es [] es
alone [] = Interleaved.nothing
alone (e ∷ es) = Interleaved.ours e es [] es (alone es)

abbrev other : Event
other = record {
  request_id = "r2";
  timestamp = 0;
  type = "pipeline.start";
  stage = "";
  data_values = [];
}

abbrev marshal : Event → Result Bytes
marshal e = ok (e.timestamp ∷ [])

abbrev path_of : String → String
path_of id = "/tmp/" +s id +s ".jsonl"

abbrev events : List Event
events = (handle_pipeline services clock strings "r1" 7 (some form)).1

abbrev empty_log : LocalLog
empty_log = record { fds = []; files = λ path. [] }

elsewhere : IsElsewhere marshal path_of "r1" other
elsewhere e = ground (arith, (eq_iff (path_of "r2") (path_of "r1")).1 e)

handle_pipeline_replays_example :
    (log_all marshal path_of (other ∷ events) empty_log).files (path_of "r1")
    ≡ all_lines marshal path_of "r1" events
handle_pipeline_replays_example =
    handle_pipeline_replays marshal path_of "r1" services clock strings 7 (some form) (other ∷ [])
      (other ∷ events) empty_log tt (Interleaved.theirs other events [] events (alone events))
      (elsewhere, tt)
