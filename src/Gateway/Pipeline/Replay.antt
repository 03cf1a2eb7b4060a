-- ===== src/Gateway/Pipeline/Replay.antt =====
-- What the local event log holds of a pipeline request, while other requests are served.
use voxplatform.Prelude.{
  ◌≡◌, ◌≢◌, refl, ap, ◌∙◌, ℕ, String, Option, List, [], ◌∷◌, ◌++◌, All, text_eq_ne, text_eq_self,
}
use voxplatform.Gateway.Wav.{Bytes}
use voxplatform.Gateway.Http.{Result, Response}
use voxplatform.Gateway.Proxy.{Form}
use voxplatform.Gateway.EventLog.{Event, LocalLog}
use voxplatform.Gateway.EventLog.Files.{line_of, lines_of, log_all, IsOpened, log_all-lines_of}
use voxplatform.Gateway.Pipeline.{Strings, PipelineResponse, Services, Clock, handle_pipeline}
use voxplatform.Gateway.Pipeline.Log.{Ran, Logged, handle_pipeline-Logged}

-- The events of one request and those of all others, in the order in which the log takes them.
pub data Interleaved : List Event → List Event → List Event → Type 0 where
  nothing : Interleaved [] [] []
  ours :
      (e : Event) (es others all : List Event)
      → Interleaved es others all
      → Interleaved (e ∷ es) others (e ∷ all)
  theirs :
      (e : Event) (es others all : List Event)
      → Interleaved es others all
      → Interleaved es (e ∷ others) (e ∷ all)

module _ {F : Type 0} (services : Services F) (strings : Strings) (id : String) where
  carried_stages :
      (form : Form) (enabled : List String) (filename : String) (audio : Bytes)
      (r : Response (PipelineResponse F) × List Event)
      → Ran services form enabled filename audio id r
      → All (λ e. e.request_id ≡ id) r.1
  carried_stages form enabled filename audio r (Ran.aborted reason e es on h m i l c) = c
  carried_stages form enabled filename audio r (Ran.completed a es t i l c) = c

  carried :
      (form : Option Form) (r : Response (PipelineResponse F) × List Event)
      → Logged services strings id form r
      → All (λ e. e.request_id ≡ id) r.1
  carried form r (Logged.unparsed e c i) = tt
  carried form r (Logged.fileless f e n c i) = tt
  carried form r (Logged.unread f file reason e h n c i) = tt
  carried form r (Logged.ran f file audio x h a s) = carried_stages f _ file.filename audio x s

module _ (marshal : Event → Result Bytes) (path_of : String → String) (id : String) where
  abbrev pub IsElsewhere : Event → Type 0
  IsElsewhere e = path_of e.request_id ≢ path_of id

  -- The lines of all the events.
  abbrev pub all_lines : List Event → Bytes
  all_lines [] = []
  all_lines (e ∷ es) = line_of marshal path_of e ++ all_lines es

  own_path :
      {es others all : List Event}
      → Interleaved es others all
      → All (λ e. e.request_id ≡ id) es
      → All IsElsewhere others
      → All (λ e. path_of e.request_id ≡ path_of id → e.request_id ≡ id) all
  own_path Interleaved.nothing c n = tt
  own_path (Interleaved.ours e es others all i) c n = ((λ p. c.0), own_path i c.1 n)
  own_path (Interleaved.theirs e es others all i) c n = ((λ p. absurd (n.0 p)), own_path i c n.1)

  own_lines :
      {es others all : List Event}
      → Interleaved es others all
      → All (λ e. e.request_id ≡ id) es
      → All IsElsewhere others
      → lines_of marshal path_of id all ≡ all_lines es
  own_lines Interleaved.nothing c n = refl
  own_lines (Interleaved.ours e es others all i) c n =
      simp (c.0, text_eq_self id)
        (ap (λ (t : Bytes). line_of marshal path_of e ++ t) (own_lines i c.1 n))
  own_lines (Interleaved.theirs e es others all i) c n =
      rw (text_eq_ne e.request_id id (λ same. n.0 (ap path_of same))) (own_lines i c n.1)

  -- A pipeline request can be replayed from its file. While it is served, other requests, whose
  -- files have other paths, log their events in between, in any order; as long as the system opens
  -- files and takes writes, the file of the request then holds what it held before, followed by
  -- the lines of exactly the events of the request, in order.
  pub handle_pipeline_replays :
      {F : Type 0} (services : Services F) (clock : Clock) (strings : Strings) (created_at : ℕ)
      (form : Option Form) (others all : List Event) (l : LocalLog)
      → IsOpened marshal path_of l.fds
      → Interleaved (handle_pipeline services clock strings id created_at form).1 others all
      → All IsElsewhere others
      → (log_all marshal path_of all l).files (path_of id)
        ≡ l.files (path_of id)
          ++ all_lines (handle_pipeline services clock strings id created_at form).1
  handle_pipeline_replays services clock strings created_at form others all l opened i n =
      let c =
        carried services strings id form _
          (handle_pipeline-Logged services clock strings id created_at form) in
      log_all-lines_of marshal path_of id all l opened (own_path i c n)
      ∙ ap (λ (t : Bytes). l.files (path_of id) ++ t) (own_lines i c n)
