-- ===== src/Gateway/EventLog/Files.antt =====
-- The files of the local event log.
use voxplatform.Prelude.{
  ◌≡◌, refl, sym, ap, ◌∙◌, String, Option, none, some, List, [], ◌∷◌, ◌++◌, arith, if◌then◌else◌,
  ◌=s◌, All, eq_iff, true, Bool-cases, inl, inr,
}
use mathlib.Core.Path.{subst}
use mathlib.Core.List.{append-nil, append_assoc}
use voxplatform.Gateway.Wav.{Bytes}
use voxplatform.Gateway.Http.{Result, ok, err}
use voxplatform.Gateway.EventLog.{
  Event, File, LocalLog, Answers, write_line, find_fd, append_to, newline, log_line, log_marshalled,
  log_local,
}

-- The system opens the file and takes the whole line.
abbrev pub healthy : Answers
healthy = record { open_file = none; write = none }

abbrev encoded : Result Bytes → Bytes
encoded (ok line) = line ++ newline ∷ []
encoded (err m) = []

append_lines :
    (p q k id : String) (line rest : Bytes) (files : String → Bytes)
    → (q ≡ p → k ≡ id)
    → (k ≡ id → q ≡ p)
    → append_to q line files p ++ rest ≡ files p ++ (if k =s id then line ++ rest else rest)
append_lines p q k id line rest files f g =
    ground (arith, f, g, eq_iff p q, eq_iff k id, append_assoc (files p) line rest)

module _ (marshal : Event → Result Bytes) (path_of : String → String) where
  -- What the log writes for an event: nothing if it cannot be encoded.
  abbrev pub line_of : Event → Bytes
  line_of e = encoded (marshal e)

  -- The lines of the events of one request, in order.
  abbrev pub lines_of : String → List Event → Bytes
  lines_of id [] = []
  lines_of id (e ∷ es) =
      let rest = lines_of id es in if e.request_id =s id then line_of e ++ rest else rest

  abbrev pub log_all : List Event → LocalLog → LocalLog
  log_all [] l = l
  log_all (e ∷ es) l = log_all es (log_local marshal path_of healthy e l).1

  -- Every file of the map is open, under the path of its request.
  abbrev pub IsOpened : List (String × File) → Type 0
  IsOpened [] = Unit
  IsOpened ((id, file) ∷ fds) = (file.path ≡ path_of id) × (file.is_open ≡ true) × IsOpened fds

  path-find_fd :
      (id : String) (file : File) (fds : List (String × File))
      → IsOpened fds
      → find_fd id fds ≡ some file
      → (file.path ≡ path_of id) × (file.is_open ≡ true)
  path-find_fd id file [] h e = cc
  path-find_fd id file ((k, f) ∷ fds) h e = elim (Bool-cases (k =s id)) [
    | inl own ↦
        let same : f ≡ file = cc (rw own at e) in
        subst (λ (x : File). (x.path ≡ path_of id) × (x.is_open ≡ true)) same
          (h.0 ∙ ap path_of ((eq_iff k id).0 own), h.1)
    | inr n ↦ path-find_fd id file fds h.2 (rw n at e)
  ]

  write_line-open :
      (line : Bytes) (file : File) (l : LocalLog)
      → file.is_open ≡ true
      → (write_line marshal path_of healthy line file l).1
        ≡ record l { files = append_to file.path line l.files }
  write_line-open line file l e = simp e refl

  -- A log whose files are as if `line` had been appended for the request `id`.
  abbrev Appended : String → Bytes → LocalLog → LocalLog → Type 0
  Appended id line l l' =
      ((p : String) → l'.files p ≡ append_to (path_of id) line l.files p) × IsOpened l'.fds

  log_line-Appended :
      (line : Bytes) (id : String) (l : LocalLog) (o : Option File)
      → IsOpened l.fds
      → find_fd id l.fds ≡ o
      → Appended id line l (log_line marshal path_of healthy line id l o).1
  log_line-Appended line id l none h e = ((λ p. refl), (refl, refl, h))
  log_line-Appended line id l (some file) h e =
      let (path, live) = path-find_fd id file l.fds h e in
      subst (Appended id line l) (sym (write_line-open line file l live))
        ((λ p. ap (λ q. append_to q line l.files p) path), h)

  append_nothing : (path p : String) (files : String → Bytes) → files p ≡ append_to path [] files p
  append_nothing path p files = ground (arith, append-nil (files p))

  log_marshalled-Appended :
      (id : String) (l : LocalLog) (r : Result Bytes)
      → IsOpened l.fds
      → Appended id (encoded r) l (log_marshalled marshal path_of healthy id l r).1
  log_marshalled-Appended id l (err m) h = ((λ p. append_nothing (path_of id) p l.files), h)
  log_marshalled-Appended id l (ok line) h =
      log_line-Appended (line ++ newline ∷ []) id l (find_fd id l.fds) h refl

  -- One more event: the file of a request grows by the event's line if it is the request's.
  pub line_added :
      (id : String) (e : Event) (es : List Event) (l : LocalLog)
      → IsOpened l.fds
      → (path_of e.request_id ≡ path_of id → e.request_id ≡ id)
      → (log_local marshal path_of healthy e l).1.files (path_of id) ++ lines_of id es
        ≡ l.files (path_of id) ++ lines_of id (e ∷ es)
  unfolding log_local
  line_added id e es l h apart =
      let step = log_marshalled-Appended e.request_id l (marshal e) h in
      ap (λ t. t ++ lines_of id es) (step.0 (path_of id))
      ∙ append_lines (path_of id) (path_of e.request_id) e.request_id id (line_of e)
          (lines_of id es) l.files apart (λ n. ap path_of n)

  pub log_local-IsOpened :
      (e : Event) (l : LocalLog)
      → IsOpened l.fds
      → IsOpened (log_local marshal path_of healthy e l).1.fds
  unfolding log_local
  log_local-IsOpened e l h = (log_marshalled-Appended e.request_id l (marshal e) h).1

  -- As long as the system opens files and takes writes, the file of a request holds what it held
  -- before, followed by one line for each event of the request that was logged, in order, and
  -- nothing of other requests; an event that cannot be encoded leaves no line. No other request
  -- of the events has the same path.
  pub log_all-lines_of :
      (id : String) (es : List Event) (l : LocalLog)
      → IsOpened l.fds
      → All (λ e. path_of e.request_id ≡ path_of id → e.request_id ≡ id) es
      → (log_all es l).files (path_of id) ≡ l.files (path_of id) ++ lines_of id es
  log_all-lines_of id [] l h apart = sym (append-nil (l.files (path_of id)))
  log_all-lines_of id (e ∷ es) l h apart =
      log_all-lines_of id es (log_local marshal path_of healthy e l).1 (log_local-IsOpened e l h)
        apart.1
      ∙ line_added id e es l h apart.0
