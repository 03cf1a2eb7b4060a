-- ===== src/Gateway/Stream/InFlight/Bounds.antt =====
-- How much audio the buffer of a session of internal/gateway/stream.go holds.
use voxplatform.Prelude.{
  ℕ, ◌*◌, ◌≤◌, ◌<◌, ◌≡◌, inl, inr, refl, ap, ◌∙◌, String, Bool, true, false, Option, none, some,
  List, [], ◌∷◌, arith, Bool-cases, length, ◌=s◌, ltb, if◌then◌else◌,
}
use voxplatform.Gateway.Wav.{Bytes}
use voxplatform.Gateway.Wav.Layout.{flatten}
use voxplatform.Gateway.Stream.{
  second, StreamConfig, AudioBuffer, WhisperReply, Session, StreamEvent, audio, text, read_error,
  ticked, is_empty, should_flush, flush, flush_buffer, tick, deliver, heard, assumed, check_vad,
  on_audio, handle_event,
}
use voxplatform.Gateway.Stream.Buffer.{
  IsConsistent, add_frame-IsConsistent, mark_speech-IsConsistent, mark_silence-IsConsistent,
  flush-IsConsistent,
}
use voxplatform.Gateway.Stream.InFlight.{
  Waiting, Move, read, looked, replied, taken, begin_flush, end_flush, cancelled, look, move, moves,
}

eq-nil : (fs : List Bytes) → is_empty fs ≡ true → fs ≡ []
eq-nil [] h = refl
eq-nil (f ∷ fs) h = cc

mul_mono : (n a b : ℕ) → a ≤ b → n * a ≤ n * b
mul_mono n a b h = grind arith

-- Less than a second is less than a maximum of a second or more.
small : (t rate max : ℕ) → t < 2 * rate → second ≤ max → t * second < 2 * rate * max
small t rate max h k = omega (arith, mul_mono (2 * rate) second max k)

heard-IsConsistent :
    (now : ℕ) (frame : Bytes) (b : AudioBuffer) (speech : Bool)
    → IsConsistent b
    → IsConsistent (heard now frame b speech)
heard-IsConsistent now frame b true h =
    add_frame-IsConsistent frame _ (mark_speech-IsConsistent now b h)
heard-IsConsistent now frame b false h = elim (Bool-cases (ltb 0 b.total_bytes)) [
  | inl held ↦ rw held (mark_silence-IsConsistent _ (add_frame-IsConsistent frame b h))
  | inr bare ↦ rw bare (mark_silence-IsConsistent b h)
]

module _ (cfg : StreamConfig) (id : String) where
  abbrev IsSound : Session → Type 0
  IsSound s = IsConsistent s.buffer

  deliver-IsSound :
      (s : Session) (reply : WhisperReply) (o : Option Bytes × AudioBuffer)
      → IsSound s
      → IsConsistent o.1
      → IsSound (deliver cfg id s reply o)
  deliver-IsSound s reply (none, b) h c = h
  deliver-IsSound s reply (some wav, b) h c = c

  flush_buffer-IsSound :
      (reply : WhisperReply) (s : Session) → IsSound s → IsSound (flush_buffer cfg id reply s)
  unfolding flush_buffer
  flush_buffer-IsSound reply s h =
      deliver-IsSound s reply (flush cfg.sample_rate s.buffer) h
        (flush-IsConsistent cfg.sample_rate s.buffer h)

  handle_event-IsSound :
      (s : Session) (e : StreamEvent) → IsSound s → IsSound (handle_event cfg id s e)
  unfolding handle_event on_audio tick
  handle_event-IsSound s (audio now frame reply) h =
      heard-IsConsistent now frame s.buffer (assumed (check_vad reply)) h
  handle_event-IsSound s (text message reply) h = elim (Bool-cases (message =s "close")) [
    | inl close ↦ rw close (flush_buffer-IsSound reply s h)
    | inr other ↦ rw other h
  ]
  handle_event-IsSound s (read_error reply) h = flush_buffer-IsSound reply s h
  handle_event-IsSound s (ticked now reply) h = ground (arith, flush_buffer-IsSound reply s h)

  taken-IsSound :
      (s : Session) (o : Option Bytes × AudioBuffer)
      → IsSound s
      → IsConsistent o.1
      → IsSound (taken cfg id s o).session
  taken-IsSound s (none, b) h c = h
  taken-IsSound s (some wav, b) h c = c

  if-IsSound :
      (b : Bool) (v w : Waiting)
      → IsSound v.session
      → IsSound w.session
      → IsSound (if b then v else w).session
  if-IsSound true v w h k = h
  if-IsSound false v w h k = k

  begin_flush-IsSound :
      (now : ℕ) (s : Session) → IsSound s → IsSound (begin_flush cfg id now s).session
  unfolding begin_flush
  begin_flush-IsSound now s h =
      if-IsSound _ (taken cfg id s (flush cfg.sample_rate s.buffer)) _
        (taken-IsSound s (flush cfg.sample_rate s.buffer) h
          (flush-IsConsistent cfg.sample_rate s.buffer h))
        h

  cancelled-IsSound :
      (b : Bool) (s : Session) (file : Option Bytes)
      → IsSound s
      → IsSound (cancelled cfg id b s file).session
  cancelled-IsSound true s file h = h
  cancelled-IsSound false s file h = h

  look-IsSound :
      (now : ℕ) (s : Session) (file : Option Bytes)
      → IsSound s
      → IsSound (look cfg id now s file).session
  look-IsSound now s none h = begin_flush-IsSound now s h
  look-IsSound now s (some wav) h = h

  end_flush-IsSound :
      (reply : WhisperReply) (s : Session) (file : Option Bytes)
      → IsSound s
      → IsSound (end_flush cfg id reply s file).session
  unfolding end_flush
  end_flush-IsSound reply s none h = h
  end_flush-IsSound reply s (some wav) h = h

  move-IsSound : (w : Waiting) (m : Move) → IsSound w.session → IsSound (move cfg id w m).session
  unfolding move
  move-IsSound w (read e) h =
      cancelled-IsSound _ (handle_event cfg id w.session e) w.in_flight
        (handle_event-IsSound w.session e h)
  move-IsSound w (looked now) h = look-IsSound now w.session w.in_flight h
  move-IsSound w (replied reply) h = end_flush-IsSound reply w.session w.in_flight h

  moves-IsSound :
      (w : Waiting) (ms : List Move) → IsSound w.session → IsSound (moves cfg id w ms).session
  moves-IsSound w [] h = h
  moves-IsSound w (m ∷ ms) h =
      moves-IsSound (if w.session.running then move cfg id w m else w) ms
        (if-IsSound w.session.running (move cfg id w m) w (move-IsSound w m h) h)

  module _ (fast : 0 < cfg.sample_rate) (long : second ≤ cfg.max_buffer_duration) where
    abbrev IsBounded : AudioBuffer → Type 0
    IsBounded b = b.total_bytes * second < 2 * cfg.sample_rate * cfg.max_buffer_duration

    empty-IsBounded : (b : AudioBuffer) → IsConsistent b → is_empty b.frames ≡ true → IsBounded b
    empty-IsBounded b ok empty =
        rw (ok.counted ∙ ap (λ (t : List Bytes). length (flatten t)) (eq-nil b.frames empty))
          (small 0 cfg.sample_rate cfg.max_buffer_duration (omega (arith, fast)) long)

    early-IsBounded :
        (now : ℕ) (b : AudioBuffer)
        → IsConsistent b
        → should_flush cfg.silence_flush_delay cfg.max_buffer_duration cfg.sample_rate now b ≡ false
        → IsBounded b
    unfolding should_flush
    early-IsBounded now b ok h = elim (Bool-cases (is_empty b.frames)) [
      | inl empty ↦ empty-IsBounded b ok empty
      | inr full ↦
          ground (arith, h, full, long, small b.total_bytes cfg.sample_rate cfg.max_buffer_duration)
    ]

    due-IsBounded :
        (s : Session)
        → IsSound s
        → IsBounded (taken cfg id s (flush cfg.sample_rate s.buffer)).session.buffer
    unfolding flush
    due-IsBounded s ok = elim (Bool-cases (is_empty s.buffer.frames)) [
      | inl empty ↦ rw empty (empty-IsBounded s.buffer ok empty)
      | inr full ↦
          rw full (small 0 cfg.sample_rate cfg.max_buffer_duration (omega (arith, fast)) long)
    ]

    begin_flush-IsBounded :
        (now : ℕ) (s : Session) → IsSound s → IsBounded (begin_flush cfg id now s).session.buffer
    unfolding begin_flush
    begin_flush-IsBounded now s ok =
        elim (Bool-cases (
          should_flush cfg.silence_flush_delay cfg.max_buffer_duration cfg.sample_rate now
            s.buffer)) [
              | inl due ↦ rw due (due-IsBounded s ok)
              | inr early ↦ rw early (early-IsBounded now s.buffer ok early)
            ]

  -- However the two loops interleave, and however long Whisper takes: when the flush loop, with no
  -- file in flight, has looked at the buffer, and before it waits for Whisper, the buffer holds
  -- less audio than the configured maximum, which is at least a second. While a file is in flight
  -- the buffer may grow beyond it.
  pub look_bounds :
      (w : Waiting) (ms : List Move) (now : ℕ)
      → 0 < cfg.sample_rate
      → second ≤ cfg.max_buffer_duration
      → IsConsistent w.session.buffer
      → (moves cfg id w ms).in_flight ≡ none
      → (move cfg id (moves cfg id w ms) (looked now)).session.buffer.total_bytes * second
        < 2 * cfg.sample_rate * cfg.max_buffer_duration
  unfolding move
  look_bounds w ms now fast long ok quiet =
      let v = moves cfg id w ms in
      rw quiet (begin_flush-IsBounded fast long now v.session (moves-IsSound w ms ok))
