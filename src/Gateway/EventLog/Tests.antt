-- ===== src/Gateway/EventLog/Tests.antt =====
-- Two requests whose events alternate.
use voxplatform.Prelude.{ℕ, ◌≡◌, ◌≢◌, refl, arith, eq_iff, String, some, List, [], ◌∷◌, ◌+s◌}
use voxplatform.Gateway.Wav.{Bytes}
use voxplatform.Gateway.Http.{Result, ok}
use voxplatform.Gateway.EventLog.{Event, LocalLog, newline, log_local, close_local}
use voxplatform.Gateway.EventLog.Files.{lines_of}
use voxplatform.Gateway.EventLog.Reopen.{Use, logged, closed, events_of, use_all, use_all-lines_of}

abbrev event : String → ℕ → Event
event id time = record {
  request_id = id;
  timestamp = time;
  type = "pipeline.start";
  stage = "";
  data_values = [];
}

abbrev marshal : Event → Result Bytes
marshal e = ok (e.timestamp ∷ [])

abbrev path_of : String → String
path_of id = "/tmp/" +s id +s ".jsonl"

abbrev empty_log : LocalLog
empty_log = record { fds = []; files = λ path. [] }

-- The log is closed while the first request is still served; one file reports an error.
abbrev uses : List Use
uses =
    logged (event "a" 1)
    ∷ logged (event "b" 2)
    ∷ closed (λ path. some "bad descriptor")
    ∷ logged (event "a" 3)
    ∷ []

uses_run :
    (use_all marshal path_of uses empty_log).files "/tmp/a.jsonl" ≡ 1 ∷ newline ∷ 3 ∷ newline ∷ []
unfolding log_local close_local
uses_run = refl

b_ne_a : path_of "b" ≢ path_of "a"
b_ne_a e = ground (arith, (eq_iff (path_of "b") (path_of "a")).1 e)

use_all-lines_of_example :
    (use_all marshal path_of uses empty_log).files "/tmp/a.jsonl"
    ≡ lines_of marshal path_of "a" (events_of uses)
use_all-lines_of_example =
    use_all-lines_of marshal path_of "a" uses empty_log tt
      ((λ e. refl), ((λ e. elim (b_ne_a e) [ ]), ((λ e. refl), tt)))
