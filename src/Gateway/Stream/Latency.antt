-- ===== src/Gateway/Stream/Latency.antt =====
-- How long an utterance waits for its transcription to be asked for.
use voxplatform.Prelude.{
  String, ℕ, ◌+◌, ◌-◌, ◌*◌, ◌≤◌, ◌<◌, ◌≡◌, ◌≢◌, ◌⊎◌, inl, inr, refl, ap, ◌∙◌, sym, true, false,
  Bool, some, List, [], ◌∷◌, ◌++◌, arith, length, ◌=s◌, All, if◌then◌else◌,
}
use voxplatform.Gateway.Wav.{Bytes}
use voxplatform.Gateway.Stream.{
  StreamConfig, AudioBuffer, VadReply, WhisperReply, Session, StreamEvent, audio, text, read_error,
  ticked, heard, add_frame, mark_silence, on_audio, flush_buffer, tick, handle_event, handle_stream,
}
use voxplatform.Gateway.Stream.Buffer.{should_flush_iff, HasPaused}
use voxplatform.Gateway.Stream.Messages.{frames-flush_buffer}
use voxplatform.Gateway.Stream.Delivery.{
  counts_as_speech, assumed-check_vad, sent_audio, session_audio, kept_all,
  handle_stream_keeps_audio,
}
use voxplatform.Gateway.Wav.Layout.{flatten}
use mathlib.Core.List.{append-nil}
use mathlib.Core.Path.{subst}

-- An event of a session in which nobody speaks and the client does not leave.
abbrev pub IsQuiet : StreamEvent → Type 0
IsQuiet (audio now frame reply) = counts_as_speech reply ≡ false
IsQuiet (text message reply) = (message =s "close") ≡ false
IsQuiet (read_error reply) = ⊥
IsQuiet (ticked now reply) = Unit

abbrev size : StreamEvent → ℕ
size (audio now frame reply) = length frame
size _ = 0

-- The bytes of audio that these events bring.
abbrev pub bytes_of : List StreamEvent → ℕ
bytes_of [] = 0
bytes_of (e ∷ es) = size e + bytes_of es

-- The buffer was emptied, or it holds at least `n` bytes since the speech at `t`.
abbrev IsPending : ℕ → ℕ → AudioBuffer → Type 0
IsPending t n b =
    (b.is_speaking ≡ false)
    × (((b.frames ≡ []) × (b.total_bytes ≡ 0))
        ⊎ ((b.frames ≢ []) × (0 < b.total_bytes) × (b.last_speech ≡ some t) × (n ≤ b.total_bytes)))

append-ne_nil : (fs : List Bytes) (f : Bytes) → fs ++ f ∷ [] ≢ []
append-ne_nil [] f e = cc
append-ne_nil (g ∷ fs) f e = cc

heard-IsPending :
    (t n now : ℕ) (frame : Bytes) (b : AudioBuffer)
    → IsPending t n b
    → IsPending t (n + length frame) (heard now frame b false)
unfolding add_frame mark_silence
heard-IsPending t n now frame b (q, inl (f, z)) = ground (arith, q, f, z)
heard-IsPending t n now frame b (q, inr (f, p, l, m)) =
    ground (arith, q, f, p, l, m, append-ne_nil b.frames frame)

if-IsPending :
    (t n : ℕ) (b : Bool) (s s' : Session)
    → IsPending t n s.buffer
    → IsPending t n s'.buffer
    → IsPending t n (if b then s else s').buffer
if-IsPending t n true s s' h h' = h
if-IsPending t n false s s' h h' = h'

if_true : (b : Bool) (s s' : Session) → b ≡ true → (if b then s else s') ≡ s
if_true true s s' e = refl
if_true false s s' e = cc

if-frames :
    (b : Bool) (s s' : Session)
    → b ≡ true
    → s.buffer.frames ≡ []
    → (if b then s else s').buffer.frames ≡ []
if-frames true s s' e h = h
if-frames false s s' e h = cc

weaken : (t m n : ℕ) (b : AudioBuffer) → m ≤ n → IsPending t n b → IsPending t m b
weaken t m n b le (q, inl h) = (q, inl h)
weaken t m n b le (q, inr (f, p, l, h)) = (q, inr (f, p, l, omega (arith, le, h)))

module _ (cfg : StreamConfig) (id : String) where
  flush_buffer-IsPending :
      (t n : ℕ) (reply : WhisperReply) (s : Session)
      → IsPending t n s.buffer
      → IsPending t n (flush_buffer cfg id reply s).buffer
  unfolding flush_buffer
  flush_buffer-IsPending t n reply s h = ground (arith, h)

  tick-IsPending :
      (t n now : ℕ) (reply : WhisperReply) (s : Session)
      → IsPending t n s.buffer
      → IsPending t n (tick cfg id now reply s).buffer
  unfolding tick
  tick-IsPending t n now reply s h =
      if-IsPending t n _ (flush_buffer cfg id reply s) s (flush_buffer-IsPending t n reply s h) h

  handle_event-IsPending :
      (t n : ℕ) (e : StreamEvent) (s : Session)
      → IsQuiet e
      → IsPending t n s.buffer
      → IsPending t (n + size e) (handle_event cfg id s e).buffer
  unfolding handle_event on_audio
  handle_event-IsPending t n (audio now frame reply) s q h =
      rw (assumed-check_vad reply, q) (heard-IsPending t n now frame s.buffer h)
  handle_event-IsPending t n (text message reply) s q h =
      rw (q) (weaken t (n + 0) n s.buffer (omega arith) h)
  handle_event-IsPending t n (read_error reply) s q h = elim q [ ]
  handle_event-IsPending t n (ticked now reply) s q h =
      weaken t (n + 0) n (tick cfg id now reply s).buffer (omega arith)
        (tick-IsPending t n now reply s h)

  running-handle_event :
      (e : StreamEvent) (s : Session)
      → IsQuiet e
      → s.running ≡ true
      → (handle_event cfg id s e).running ≡ true
  unfolding handle_event on_audio tick flush_buffer
  running-handle_event (audio now frame reply) s q h = h
  running-handle_event (text message reply) s q h = rw (q) h
  running-handle_event (read_error reply) s q h = elim q [ ]
  running-handle_event (ticked now reply) s q h = ground (arith, h)

  -- The last tick of a quiet time that is long enough.
  last_tick :
      (t n now : ℕ) (reply : WhisperReply) (s : Session)
      → IsPending t n s.buffer
      → 2 * cfg.sample_rate ≤ n
      → cfg.silence_flush_delay ≤ now - t
      → (tick cfg id now reply s).buffer.frames ≡ []
  unfolding tick flush_buffer
  last_tick t n now reply s (q, inl (f, z)) enough late = ground (arith, f)
  last_tick t n now reply s (q, inr (f, p, l, m)) enough late =
      let due =
        (should_flush_iff cfg.silence_flush_delay cfg.max_buffer_duration cfg.sample_rate now
            s.buffer).1
          (
            f,
            omega (arith, m, enough),
            inr (q, subst (HasPaused cfg.silence_flush_delay now) (sym l) late),
          ) in
      if-frames _ (flush_buffer cfg id reply s) s due (frames-flush_buffer cfg id reply s)

  quiet_then_tick :
      (t n now : ℕ) (reply : WhisperReply) (es : List StreamEvent) (s : Session)
      → All IsQuiet es
      → s.running ≡ true
      → IsPending t n s.buffer
      → 2 * cfg.sample_rate ≤ n + bytes_of es
      → cfg.silence_flush_delay ≤ now - t
      → (handle_stream cfg id s (es ++ ticked now reply ∷ [])).buffer.frames ≡ []
  unfolding handle_stream handle_event
  quiet_then_tick t n now reply [] s q r h enough late =
      if-frames s.running (tick cfg id now reply s) s r
        (last_tick t n now reply s h (omega (arith, enough)) late)
  quiet_then_tick t n now reply (e ∷ es) s q r h enough late =
      ap (λ (u : Session). (handle_stream cfg id u (es ++ ticked now reply ∷ [])).buffer.frames)
        (if_true s.running (handle_event cfg id s e) s r)
      ∙ quiet_then_tick t (n + size e) now reply es (handle_event cfg id s e) q.1
          (running-handle_event e s q.0 r) (handle_event-IsPending t n e s q.0 h)
          (omega (arith, enough)) late

  utterance_buffered :
      (t heard_at now : ℕ) (frame : Bytes) (vad : VadReply) (reply : WhisperReply)
      (es : List StreamEvent) (s : Session)
      → s.running ≡ true
      → s.buffer.frames ≢ []
      → 0 < s.buffer.total_bytes
      → s.buffer.last_speech ≡ some t
      → counts_as_speech vad ≡ false
      → All IsQuiet es
      → 2 * cfg.sample_rate ≤ s.buffer.total_bytes + length frame + bytes_of es
      → cfg.silence_flush_delay ≤ now - t
      → (handle_stream cfg id s
          (audio heard_at frame vad ∷ (es ++ ticked now reply ∷ []))).buffer.frames
        ≡ []
  unfolding handle_stream handle_event on_audio add_frame mark_silence
  utterance_buffered t heard_at now frame vad reply es s r f p l v q enough late =
      let first : IsPending t (s.buffer.total_bytes + length frame)
          (heard heard_at frame s.buffer false) =
        (
          refl,
          inr (
            ground (arith, f, p, append-ne_nil s.buffer.frames frame),
            ground (arith, p),
            ground (arith, p, l),
            ground (arith, p),
          ),
        ) in
      ap (λ (u : Session). (handle_stream cfg id u (es ++ ticked now reply ∷ [])).buffer.frames)
        (if_true s.running (on_audio heard_at frame vad s) s r)
      ∙ quiet_then_tick t (s.buffer.total_bytes + length frame) now reply es
          (on_audio heard_at frame vad s) q r (rw (assumed-check_vad vad, v) first) enough late

  all_sent :
      (s : Session) (es : List StreamEvent)
      → (handle_stream cfg id s es).buffer.frames ≡ []
      → sent_audio (handle_stream cfg id s es).flushed ≡ session_audio s ++ kept_all cfg id s es
  all_sent s es empty =
      let sent = sent_audio (handle_stream cfg id s es).flushed in
      sym (append-nil sent)
      ∙ ap (λ (fs : List Bytes). sent ++ flatten fs) (sym empty)
      ∙ handle_stream_keeps_audio cfg id s es

  -- An utterance does not wait for the end of the session. If the buffer holds audio whose last
  -- speech was at the time `t`, then silent frames and ticks follow, a silent frame first, and at
  -- least a second of audio was there or came with them, then the first tick that is later than
  -- `t` by the delay leaves the buffer empty, whatever happened in between: the files made for
  -- Whisper hold, in order, all the audio of the session before and every frame that it has kept
  -- since. The answer to each tick arrives before the next event.
  pub utterance_flushed :
      (t heard_at now : ℕ) (frame : Bytes) (vad : VadReply) (reply : WhisperReply)
      (es : List StreamEvent) (s : Session)
      → s.running ≡ true
      → s.buffer.frames ≢ []
      → 0 < s.buffer.total_bytes
      → s.buffer.last_speech ≡ some t
      → counts_as_speech vad ≡ false
      → All IsQuiet es
      → 2 * cfg.sample_rate ≤ s.buffer.total_bytes + length frame + bytes_of es
      → cfg.silence_flush_delay ≤ now - t
      → let es' = audio heard_at frame vad ∷ (es ++ ticked now reply ∷ []) in
        let s' = handle_stream cfg id s es' in
        (s'.buffer.frames ≡ []) × (sent_audio s'.flushed ≡ session_audio s ++ kept_all cfg id s es')
  utterance_flushed t heard_at now frame vad reply es s r f p l v q enough late =
      let es' = audio heard_at frame vad ∷ (es ++ ticked now reply ∷ []) in
      let empty = utterance_buffered t heard_at now frame vad reply es s r f p l v q enough late in
      (empty, all_sent s es' empty)
