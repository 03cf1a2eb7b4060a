-- ===== src/Gateway/EventLog/Reopen.antt =====
-- The files of the local event log when it is closed and used again: Log opens a file anew, to
-- append to it.
use mathlib.Core.List.{append-nil}
use voxplatform.Prelude.{◌≡◌, sym, ◌∙◌, String, Option, List, [], ◌∷◌, ◌++◌, All}
use voxplatform.Gateway.Wav.{Bytes}
use voxplatform.Gateway.Http.{Result}
use voxplatform.Gateway.EventLog.{Event, LocalLog, log_local, close_local}
use voxplatform.Gateway.EventLog.Files.{healthy, lines_of, IsOpened, line_added, log_local-IsOpened}

-- A call of the log; closing a file may fail.
pub data Use : Type 0 where
  logged : Event → Use
  closed : (String → Option String) → Use

abbrev pub events_of : List Use → List Event
events_of [] = []
events_of (logged e ∷ us) = e ∷ events_of us
events_of (closed closing ∷ us) = events_of us

module _ (marshal : Event → Result Bytes) (path_of : String → String) where
  abbrev pub use_all : List Use → LocalLog → LocalLog
  use_all [] l = l
  use_all (logged e ∷ us) l = use_all us (log_local marshal path_of healthy e l).1
  use_all (closed closing ∷ us) l = use_all us (close_local closing l).1

  -- As long as the system opens files and takes writes, and however often the log is closed in
  -- between, the file of a request holds what it held before, followed by one line for each event
  -- of the request that was logged, in order, and nothing of other requests; an event that cannot
  -- be encoded leaves no line. No other request of the events has the same path.
  pub use_all-lines_of :
      (id : String) (us : List Use) (l : LocalLog)
      → IsOpened marshal path_of l.fds
      → All (λ e. path_of e.request_id ≡ path_of id → e.request_id ≡ id) (events_of us)
      → (use_all us l).files (path_of id)
        ≡ l.files (path_of id) ++ lines_of marshal path_of id (events_of us)
  unfolding close_local
  use_all-lines_of id [] l h apart = sym (append-nil (l.files (path_of id)))
  use_all-lines_of id (closed closing ∷ us) l h apart =
      use_all-lines_of id us (close_local closing l).1 tt apart
  use_all-lines_of id (logged e ∷ us) l h apart =
      use_all-lines_of id us (log_local marshal path_of healthy e l).1
        (log_local-IsOpened marshal path_of e l h) apart.1
      ∙ line_added marshal path_of id e (events_of us) l h apart.0
