-- ===== src/Gateway/EventLog.antt =====
-- The event log of internal/gateway/eventlog.go: the events, the choice of a log, and the local
-- log with one file for each request id. A file is its bytes; the operating system's answers are
-- parameters.
use voxplatform.Prelude.{
  ℕ, String, Bool, true, false, Option, none, some, List, [], ◌∷◌, ◌++◌, if◌then◌else◌, ◌=s◌, ◌+s◌,
}
use voxplatform.Gateway.Wav.{Bytes}
use voxplatform.Gateway.Http.{Result, ok, err}
pub mod Files
pub mod Reopen
pub mod Choice
pub mod Cloud
mod Tests

-- The values of an event's payload.
pub data Value : Type 0 where
  text : String → Value
  texts : List String → Value
  number : ℕ → Value
  seconds : ℕ → Value

pub record Event : Type 0 where
  pub request_id : String
  pub timestamp : ℕ
  pub type : String
  pub stage : String
  pub data_values : List (String × Value)

-- The backends that NewEventLogger chooses from.
pub data Backend : Type 0 where
  gcs : String → Backend
  local : String → Backend
  no_op : Backend

abbrev local_or_no_op : Option String → String → Backend
local_or_no_op none dir = local dir
local_or_no_op (some e) dir = no_op

-- NewEventLogger; `made` is the answer of MkdirAll for the directory, where `some` is an error.
pub new_event_logger : String → String → String → Option String → Backend
new_event_logger backend dir bucket made =
    if backend =s "gcs"
    then (if bucket =s "" then local_or_no_op made dir else gcs bucket)
    else if backend =s "local"
    then local_or_no_op made dir
    else no_op

-- An os.File: the path that it was opened under, and whether it is still open.
pub record File : Type 0 where
  pub path : String
  pub is_open : Bool

-- The local log: the files by request id, and the content of the files by path.
pub record LocalLog : Type 0 where
  pub fds : List (String × File)
  pub files : String → Bytes

abbrev pub find_fd : String → List (String × File) → Option File
find_fd id [] = none
find_fd id ((k, file) ∷ fds) = if k =s id then some file else find_fd id fds

abbrev pub append_to : String → Bytes → (String → Bytes) → String → Bytes
append_to path line files p = if p =s path then files p ++ line else files p

abbrev pub newline : ℕ
newline = 10

-- What the system answers in one call: the opening of a file, and the write, which takes the
-- whole line or fails with an error after the bytes it gives.
pub record Answers : Type 0 where
  pub open_file : Option String
  pub write : Option (Bytes × String)

module _ (marshal : Event → Result Bytes) (path_of : String → String) where
  abbrev write_open : Answers → Bytes → String → LocalLog → Option String × LocalLog
  write_open a line path l = elim a.write [
    | none ↦ (none, record l { files = append_to path line l.files })
    | some (part, e) ↦ (some e, record l { files = append_to path part l.files })
  ]

  -- Write of a file, which fails on a closed one.
  abbrev pub write_line : Answers → Bytes → File → LocalLog → Option String × LocalLog
  write_line a line file l =
      if file.is_open then write_open a line file.path l else (some "file already closed", l)

  abbrev open_and_write : Answers → Bytes → String → LocalLog → Option String × LocalLog
  open_and_write a line id l = elim a.open_file [
    | some e ↦ (some ("opening event log file: " +s e), l)
    | none ↦
        let file : File = record { path = path_of id; is_open = true } in
        write_line a line file (record l { fds = (id, file) ∷ l.fds })
  ]

  abbrev pub log_line : Answers → Bytes → String → LocalLog → Option File → Option String × LocalLog
  log_line a line id l (some file) = write_line a line file l
  log_line a line id l none = open_and_write a line id l

  abbrev pub log_marshalled : Answers → String → LocalLog → Result Bytes → Option String × LocalLog
  log_marshalled a id l (err m) = (some ("marshalling event: " +s m), l)
  log_marshalled a id l (ok line) = log_line a (line ++ newline ∷ []) id l (find_fd id l.fds)

  -- Log of localFileLogger: an error or none, and the log after it.
  pub log_local : Answers → Event → LocalLog → Option String × LocalLog
  log_local a e l = log_marshalled a e.request_id l (marshal e)

abbrev last_error : (String → Option String) → List (String × File) → Option String → Option String
last_error closing [] e = e
last_error closing (fd ∷ fds) e =
    last_error closing fds (elim (closing fd.1.path) [ some e' ↦ some e' | none ↦ e ])

-- The loop of Close: every file of the map is closed.
abbrev close_files : List (String × File) → List (String × File)
close_files [] = []
close_files ((id, file) ∷ fds) = (id, record file { is_open = false }) ∷ close_files fds

-- Close of localFileLogger, by what closing each file answers: the last error, and, once the files
-- are closed, an empty map.
pub close_local : (String → Option String) → LocalLog → Option String × LocalLog
close_local closing l =
    let closed = record l { fds = close_files l.fds } in
    (last_error closing l.fds none, record closed { fds = [] })
