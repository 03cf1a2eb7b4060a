-- ===== src/Gateway/Stream/InFlight/Ending.antt =====
-- What has reached Whisper when a session of internal/gateway/stream.go ends.
use mathlib.Core.List.{append-nil}
use mathlib.Core.Path.{subst}
use voxplatform.Prelude.{
  ◌≡◌, refl, ap, sym, ◌∙◌, String, Bool, true, false, Option, none, List, [], ◌∷◌, ◌++◌, All,
  if◌then◌else◌,
}
use voxplatform.Gateway.Wav.{Bytes}
use voxplatform.Gateway.Wav.Layout.{flatten}
use voxplatform.Gateway.Stream.{
  StreamConfig, WhisperReply, Session, StreamEvent, text, read_error, flush_buffer, handle_event,
  stop,
}
use voxplatform.Gateway.Stream.Messages.{frames-flush_buffer}
use voxplatform.Gateway.Stream.Delivery.{sent_audio, session_audio, flush_buffer-audio}
use voxplatform.Gateway.Stream.InFlight.{Waiting, Move, read, move, moves}
use voxplatform.Gateway.Stream.InFlight.Delivery.{
  IsMove, payload, all_audio, kept_frames, moves_keep_audio,
}

-- The client sends "close", or its connection fails.
pub data IsStop : StreamEvent → Type 0 where
  closes : (reply : WhisperReply) → IsStop (text "close" reply)
  breaks : (reply : WhisperReply) → IsStop (read_error reply)

module _ (cfg : StreamConfig) (id : String) where
  moves-append :
      (w : Waiting) (ms ns : List Move)
      → moves cfg id w (ms ++ ns) ≡ moves cfg id (moves cfg id w ms) ns
  moves-append w [] ns = refl
  moves-append w (m ∷ ms) ns = moves-append (if w.session.running then move cfg id w m else w) ms ns

  -- Nothing is buffered, in flight or running any more.
  abbrev pub IsOver : Waiting → Type 0
  IsOver w = (w.session.buffer.frames ≡ []) × (w.in_flight ≡ none) × (w.session.running ≡ false)

  stopped : (s : Session) (reply : WhisperReply) → Waiting
  stopped s reply = record { session = stop (flush_buffer cfg id reply s); in_flight = none }

  move-stopped :
      (w : Waiting) (e : StreamEvent)
      → IsStop e
      → (reply : WhisperReply) × (move cfg id w (read e) ≡ stopped w.session reply)
  unfolding move handle_event stopped
  move-stopped w e (closes reply) = (reply, refl)
  move-stopped w e (breaks reply) = (reply, refl)

  sent_audio-flush_buffer :
      (reply : WhisperReply) (s : Session)
      → sent_audio (flush_buffer cfg id reply s).flushed ≡ session_audio s
  sent_audio-flush_buffer reply s =
      let sent = sent_audio (flush_buffer cfg id reply s).flushed in
      sym (append-nil sent)
      ∙ ap (λ (fs : List Bytes). sent ++ flatten fs) (sym (frames-flush_buffer cfg id reply s))
      ∙ flush_buffer-audio cfg id reply s

  stopped-IsOver : (s : Session) (reply : WhisperReply) → IsOver (stopped s reply)
  unfolding stopped
  stopped-IsOver s reply = (frames-flush_buffer cfg id reply s, refl, refl)

  delivered : Waiting → Bytes
  delivered w = sent_audio w.session.flushed

  delivered-stopped :
      (s : Session) (reply : WhisperReply) → delivered (stopped s reply) ≡ session_audio s
  unfolding stopped delivered
  delivered-stopped s reply = sent_audio-flush_buffer reply s

  quiet_audio : (w : Waiting) → w.in_flight ≡ none → all_audio w ≡ session_audio w.session
  quiet_audio w quiet =
      ap
        (λ (file : Option Bytes).
          sent_audio w.session.flushed ++ (payload file ++ flatten w.session.buffer.frames))
        quiet

  -- A session that stops while no file is in flight, at a "close" or a failed connection, has by
  -- then put every frame that it kept into the files of which flushBuffer has made a request to
  -- Whisper, or tried to, in the order in which they were read, however its two loops interleaved,
  -- and has nothing left: no audio in the buffer, no file in flight, and
  -- no loop that runs.
  pub quiet_stop_delivers :
      (w : Waiting) (ms : List Move) (e : StreamEvent)
      → All IsMove ms
      → IsStop e
      → (moves cfg id w ms).session.running ≡ true
      → (moves cfg id w ms).in_flight ≡ none
      → (sent_audio (moves cfg id w (ms ++ read e ∷ [])).session.flushed
          ≡ all_audio w ++ kept_frames cfg id w ms)
        × IsOver (moves cfg id w (ms ++ read e ∷ []))
  unfolding delivered
  quiet_stop_delivers w ms e legal stops live quiet =
      let v = moves cfg id w ms in
      let (reply, ends) = move-stopped v e stops in
      let last : moves cfg id w (ms ++ read e ∷ []) ≡ stopped v.session reply =
        moves-append w ms (read e ∷ [])
        ∙ ap (λ (b : Bool). if b then move cfg id v (read e) else v) live
        ∙ ends in
      (
        ap delivered last
            ∙ delivered-stopped v.session reply
            ∙ sym (quiet_audio v quiet)
            ∙ moves_keep_audio cfg id w ms legal live,
        subst IsOver (sym last) (stopped-IsOver v.session reply),
      )
