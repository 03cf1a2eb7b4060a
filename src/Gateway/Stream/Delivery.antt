-- ===== src/Gateway/Stream/Delivery.antt =====
-- Which frames of a session reach Whisper.
use mathlib.Core.List.{append_assoc, append-nil}
use voxplatform.Prelude.{
  ℕ, ◌≡◌, refl, Bool, true, false, inl, inr, ap, sym, ◌∙◌, ◌||◌, String, List, [], ◌∷◌, ◌++◌, arith,
  Bool-cases, ◌=s◌, ltb, if◌then◌else◌, drop,
}
use voxplatform.Gateway.Wav.{Bytes, build_wav}
use voxplatform.Gateway.Wav.Layout.{flatten, drop-build_wav}
use voxplatform.Gateway.Stream.{
  StreamConfig, VadReply, unreachable, garbled, verdict, WhisperReply, Session, StreamEvent, audio,
  text, read_error, ticked, is_empty, total_pcm, flush_buffer, tick, check_vad, assumed, on_audio,
  handle_event, handle_stream,
}
use voxplatform.Gateway.Stream.Messages.{handle_stream_stopped}
use voxplatform.Gateway.Stream.Buffer.{flatten-append, total_pcm_lem}

-- The audio behind the headers of the files.
abbrev pub sent_audio : List (Bytes × WhisperReply) → Bytes
sent_audio [] = []
sent_audio ((wav, reply) ∷ fs) = drop 44 wav ++ sent_audio fs

abbrev pub session_audio : Session → Bytes
session_audio s = sent_audio s.flushed ++ flatten s.buffer.frames

-- The answers of the VAD after which a frame is taken for speech: a verdict that says so, and no
-- answer at all. A body that does not decode is taken for silence.
abbrev pub counts_as_speech : VadReply → Bool
counts_as_speech unreachable = true
counts_as_speech garbled = false
counts_as_speech (verdict speech) = speech

pub assumed-check_vad : (reply : VadReply) → assumed (check_vad reply) ≡ counts_as_speech reply
unfolding check_vad
assumed-check_vad unreachable = refl
assumed-check_vad garbled = refl
assumed-check_vad (verdict speech) = refl

-- The frame of an event that the session keeps: every frame while the buffer has audio, and any
-- frame that counts as speech.
abbrev pub kept : Session → StreamEvent → Bytes
kept s (audio now frame reply) =
    if counts_as_speech reply || ltb 0 s.buffer.total_bytes then frame else []
kept s _ = []

pub sent_audio-append :
    (fs : List (Bytes × WhisperReply)) (wav : Bytes) (reply : WhisperReply)
    → sent_audio (fs ++ (wav, reply) ∷ []) ≡ sent_audio fs ++ drop 44 wav
sent_audio-append [] wav reply = append-nil _
sent_audio-append ((w, r) ∷ fs) wav reply =
    ap (λ (t : Bytes). drop 44 w ++ t) (sent_audio-append fs wav reply)
    ∙ sym (append_assoc (drop 44 w) (sent_audio fs) (drop 44 wav))

appended :
    (pre : Bytes) (fs : List Bytes) (frame : Bytes)
    → pre ++ flatten (fs ++ frame ∷ []) ≡ (pre ++ flatten fs) ++ frame
appended pre fs frame =
    rw (flatten-append fs (frame ∷ []), append-nil) (sym (append_assoc pre (flatten fs) frame))

module _ (cfg : StreamConfig) (id : String) where
  pub flush_buffer-audio :
      (reply : WhisperReply) (s : Session)
      → session_audio (flush_buffer cfg id reply s) ≡ session_audio s
  unfolding flush_buffer
  flush_buffer-audio reply s = elim (Bool-cases (is_empty s.buffer.frames)) [
    | inl empty ↦ rw empty
    | inr full ↦ rw (
      full,
      append-nil,
      sent_audio-append s.flushed
          (build_wav s.buffer.frames (total_pcm s.buffer.frames) cfg.sample_rate) reply,
      total_pcm_lem s.buffer.frames,
      drop-build_wav s.buffer.frames cfg.sample_rate,
    )
  ]

  tick-audio :
      (now : ℕ) (reply : WhisperReply) (s : Session)
      → session_audio (tick cfg id now reply s) ≡ session_audio s
  unfolding tick
  tick-audio now reply s = ground (arith, flush_buffer-audio reply s)

  pub on_audio-audio :
      (now : ℕ) (frame : Bytes) (reply : VadReply) (s : Session)
      → session_audio (on_audio now frame reply s)
        ≡ session_audio s ++ kept s (audio now frame reply)
  unfolding on_audio
  on_audio-audio now frame reply s = rw (assumed-check_vad reply) (
      ground (
        arith,
        appended (sent_audio s.flushed) s.buffer.frames frame,
        append-nil (session_audio s),
      ))

  handle_event-audio :
      (s : Session) (e : StreamEvent)
      → session_audio (handle_event cfg id s e) ≡ session_audio s ++ kept s e
  unfolding handle_event
  handle_event-audio s (audio now frame reply) = on_audio-audio now frame reply s
  handle_event-audio s (text message reply) = elim (Bool-cases (message =s "close")) [
    | inl close ↦ rw close (flush_buffer-audio reply s ∙ sym (append-nil _))
    | inr other ↦ rw other (sym (append-nil _))
  ]
  handle_event-audio s (read_error reply) = flush_buffer-audio reply s ∙ sym (append-nil _)
  handle_event-audio s (ticked now reply) = tick-audio now reply s ∙ sym (append-nil _)

  -- The audio that a session keeps of a sequence of events.
  pub kept_all : Session → List StreamEvent → Bytes
  unfolding handle_event
  kept_all s [] = []
  kept_all s (e ∷ es) = if s.running then kept s e ++ kept_all (handle_event cfg id s e) es else []

  -- The audio put into files for Whisper, followed by the audio still buffered, is that of the
  -- frames kept, in order. A frame is kept unless the VAD answers that it is silence, or with a
  -- body that does not decode, at a time when the buffer is empty.
  pub handle_stream_keeps_audio :
      (s : Session) (es : List StreamEvent)
      → session_audio (handle_stream cfg id s es) ≡ session_audio s ++ kept_all s es
  unfolding handle_stream kept_all
  handle_stream_keeps_audio s [] = sym (append-nil _)
  handle_stream_keeps_audio s (e ∷ es) = elim (Bool-cases s.running) [
    | inl live ↦ simp live (
        handle_stream_keeps_audio (handle_event cfg id s e) es
        ∙ rw (handle_event-audio s e)
            (append_assoc (session_audio s) (kept s e) (kept_all (handle_event cfg id s e) es)))
    | inr over ↦
        simp over (rw append-nil (ap session_audio (handle_stream_stopped cfg id s es over)))
  ]
