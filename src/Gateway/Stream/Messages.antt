-- ===== src/Gateway/Stream/Messages.antt =====
-- What the client is told about its audio, and how a session ends.
use mathlib.Core.List.{append-nil}
use voxplatform.Prelude.{
  ℕ, ◌≡◌, ◌≢◌, ◌==◌, ◌+s◌, if◌then◌else◌, Bool, inl, inr, refl, true, false, String, List, [], ◌∷◌,
  ◌++◌, arith, Bool-cases, ◌=s◌,
}
use voxplatform.Gateway.Wav.{Bytes}
use voxplatform.Gateway.Stream.{
  StreamConfig, StreamMessage, WhisperReply, unbuildable, failed, answered, final_message, Session,
  StreamEvent, audio, text, read_error, ticked, is_empty, reply_messages, flush_buffer, tick,
  on_audio, stop, handle_event, handle_stream,
}

-- The messages for the files that were answered, with their answers, oldest first: nothing for a
-- request that could not be built, an error for one that failed, the transcript for one that was
-- answered with status 200, and nothing for any other status.
pub data Answered (id : String) : List (Bytes × WhisperReply) → List StreamMessage → Type 0 where
  none_yet : Answered id [] []
  not_built :
      (fs : List (Bytes × WhisperReply)) (ms : List StreamMessage) (wav : Bytes)
      → Answered id fs ms
      → Answered id (fs ++ (wav, unbuildable) ∷ []) ms
  not_answered :
      (fs : List (Bytes × WhisperReply)) (ms : List StreamMessage) (wav : Bytes) (reason : String)
      (m : StreamMessage)
      → Answered id fs ms
      → (m.type ≡ "error") × (m.text ≡ "transcription failed: " +s reason) × (m.is_final ≡ false)
      → m.request_id ≡ id
      → Answered id (fs ++ (wav, failed reason) ∷ []) (ms ++ m ∷ [])
  transcribed :
      (fs : List (Bytes × WhisperReply)) (ms : List StreamMessage) (wav : Bytes) (status : ℕ)
      (said : String) (duration : ℕ) (m : StreamMessage)
      → Answered id fs ms
      → status ≡ 200
      → (m.type ≡ "final") × (m.text ≡ said) × (m.is_final ≡ true) × (m.duration ≡ duration)
      → m.request_id ≡ id
      → Answered id (fs ++ (wav, answered status said duration) ∷ []) (ms ++ m ∷ [])
  refused :
      (fs : List (Bytes × WhisperReply)) (ms : List StreamMessage) (wav : Bytes) (status : ℕ)
      (said : String) (duration : ℕ)
      → Answered id fs ms
      → status ≢ 200
      → Answered id (fs ++ (wav, answered status said duration) ∷ []) ms

module _ (id : String) (fs : List (Bytes × WhisperReply)) (ms : List StreamMessage)
    (wav : Bytes) where
  Answered-status :
      (status : ℕ) (said : String) (duration : ℕ) (b : Bool)
      → (status == 200) ≡ b
      → Answered id fs ms
      → Answered id
          (fs ++ (wav, answered status said duration) ∷ [])
          (ms ++ (if b then final_message id said duration ∷ [] else []))
  Answered-status status said duration true e h =
      transcribed fs ms wav status said duration _ h (ground arith) (refl, refl, refl, refl) refl
  Answered-status status said duration false e h =
      rw append-nil (refused fs ms wav status said duration h (λ n. ground (arith, n)))

  pub Answered-append :
      (reply : WhisperReply)
      → Answered id fs ms
      → Answered id (fs ++ (wav, reply) ∷ []) (ms ++ reply_messages id reply)
  unfolding reply_messages
  Answered-append unbuildable h = rw append-nil (not_built fs ms wav h)
  Answered-append (failed reason) h = not_answered fs ms wav reason _ h (refl, refl, refl) refl
  Answered-append (answered status said duration) h =
      Answered-status status said duration (status == 200) refl h

eq-nil : (fs : List Bytes) → is_empty fs ≡ true → fs ≡ []
eq-nil [] h = refl
eq-nil (f ∷ fs) h = cc

module _ (cfg : StreamConfig) (id : String) where
  abbrev pub IsAnswered : Session → Type 0
  IsAnswered s = Answered id s.flushed s.messages

  flush_buffer-IsAnswered :
      (reply : WhisperReply) (s : Session) → IsAnswered s → IsAnswered (flush_buffer cfg id reply s)
  unfolding flush_buffer
  flush_buffer-IsAnswered reply s h = elim (Bool-cases (is_empty s.buffer.frames)) [
    | inl empty ↦ rw empty h
    | inr full ↦ rw full (Answered-append id s.flushed s.messages _ reply h)
  ]

  pub handle_event-IsAnswered :
      (s : Session) (e : StreamEvent) → IsAnswered s → IsAnswered (handle_event cfg id s e)
  unfolding handle_event on_audio tick
  handle_event-IsAnswered s (audio now frame reply) h = h
  handle_event-IsAnswered s (text message reply) h = elim (Bool-cases (message =s "close")) [
    | inl close ↦ rw close (flush_buffer-IsAnswered reply s h)
    | inr other ↦ rw other h
  ]
  handle_event-IsAnswered s (read_error reply) h = flush_buffer-IsAnswered reply s h
  handle_event-IsAnswered s (ticked now reply) h = ground (arith, flush_buffer-IsAnswered reply s h)

  -- The client of a session receives, in the order of the flushes, one message for each request
  -- that failed or was answered with status 200, and nothing else.
  pub handle_stream-IsAnswered :
      (s : Session) (es : List StreamEvent) → IsAnswered s → IsAnswered (handle_stream cfg id s es)
  unfolding handle_stream
  handle_stream-IsAnswered s [] h = h
  handle_stream-IsAnswered s (e ∷ es) h = elim (Bool-cases s.running) [
    | inl live ↦
        simp live
          (handle_stream-IsAnswered (handle_event cfg id s e) es (handle_event-IsAnswered s e h))
    | inr over ↦ simp over (handle_stream-IsAnswered s es h)
  ]

  pub handle_stream_stopped :
      (s : Session) (es : List StreamEvent) → s.running ≡ false → handle_stream cfg id s es ≡ s
  unfolding handle_stream
  handle_stream_stopped s [] h = refl
  handle_stream_stopped s (e ∷ es) h = simp h (handle_stream_stopped s es h)

  pub frames-flush_buffer :
      (reply : WhisperReply) (s : Session) → (flush_buffer cfg id reply s).buffer.frames ≡ []
  unfolding flush_buffer
  frames-flush_buffer reply s = elim (Bool-cases (is_empty s.buffer.frames)) [
    | inl empty ↦ rw empty (eq-nil s.buffer.frames empty)
    | inr full ↦ rw full
  ]

  -- A "close" message and a read error end a running session alike: what follows changes nothing,
  -- the last audio has been flushed, and the buffer is empty.
  pub handle_stream_ends :
      (s : Session) (reply : WhisperReply) (es : List StreamEvent)
      → s.running ≡ true
      → (handle_stream cfg id s (text "close" reply ∷ es) ≡ stop (flush_buffer cfg id reply s))
        × (handle_stream cfg id s (read_error reply ∷ es) ≡ stop (flush_buffer cfg id reply s))
        × ((flush_buffer cfg id reply s).buffer.frames ≡ [])
  unfolding handle_stream handle_event
  handle_stream_ends s reply es live = (
    simp live (handle_stream_stopped (stop (flush_buffer cfg id reply s)) es refl),
    simp live (handle_stream_stopped (stop (flush_buffer cfg id reply s)) es refl),
    frames-flush_buffer reply s,
  )
