-- ===== src/Gateway/Stream/InFlight/Atomic.antt =====
-- A tick of the flush loop and its answer as one step, as the other modules take them, and as two
-- moves.
use voxplatform.Prelude.{
  ℕ, ◌≡◌, refl, ap, ◌∙◌, String, Bool, true, false, Option, none, some, List, [], ◌∷◌, ◌++◌,
  if◌then◌else◌, Bool-cases, inl, inr,
}
use voxplatform.Gateway.Wav.{Bytes}
use voxplatform.Gateway.Stream.{
  StreamConfig, AudioBuffer, WhisperReply, Session, StreamEvent, audio, text, read_error, ticked,
  should_flush, flush, flush_buffer, deliver, tick, handle_event, handle_stream,
}
use voxplatform.Gateway.Stream.InFlight.{
  Waiting, Move, read, looked, replied, taken, begin_flush, end_flush, cancelled, move, moves,
  moves_ended,
}

module _ (cfg : StreamConfig) (id : String) where
  abbrev pub quiet : Session → Waiting
  quiet s = record { session = s; in_flight = none }

  -- The moves of an event, where Whisper answers a tick at once.
  abbrev pub as_moves : StreamEvent → List Move
  as_moves (ticked now reply) = looked now ∷ replied reply ∷ []
  as_moves (audio now frame vad) = read (audio now frame vad) ∷ []
  as_moves (text message reply) = read (text message reply) ∷ []
  as_moves (read_error reply) = read (read_error reply) ∷ []

  abbrev pub all_moves : List StreamEvent → List Move
  all_moves [] = []
  all_moves (e ∷ es) = as_moves e ++ all_moves es

  answered_at_once :
      (reply : WhisperReply) (s : Session) (o : Option Bytes × AudioBuffer)
      → s.running ≡ true
      → moves cfg id (taken cfg id s o) (replied reply ∷ []) ≡ quiet (deliver cfg id s reply o)
  unfolding move end_flush
  answered_at_once reply s (none, b) r = elim (Bool-cases s.running) [
    | inl e ↦ rw e refl
    | inr e ↦ rw e refl
  ]
  answered_at_once reply s (some wav, b) r =
      ap
        (λ (t : Bool).
          if t
          then end_flush cfg id reply (record s { buffer = b }) (some wav)
          else record { session = record s { buffer = b }; in_flight = some wav })
        r

  looked_at_once :
      (flushes : Bool) (reply : WhisperReply) (s : Session)
      → s.running ≡ true
      → moves cfg id
          (if flushes then taken cfg id s (flush cfg.sample_rate s.buffer) else quiet s)
          (replied reply ∷ [])
        ≡ quiet (if flushes then flush_buffer cfg id reply s else s)
  unfolding flush_buffer
  looked_at_once true reply s r = answered_at_once reply s (flush cfg.sample_rate s.buffer) r
  looked_at_once false reply s r = answered_at_once reply s (none, s.buffer) r

  ticked_at_once :
      (now : ℕ) (reply : WhisperReply) (s : Session)
      → s.running ≡ true
      → moves cfg id (quiet s) (as_moves (ticked now reply))
        ≡ quiet (handle_event cfg id s (ticked now reply))
  unfolding move begin_flush handle_event tick
  ticked_at_once now reply s r =
      ap
        (λ (b : Bool).
          moves cfg id (if b then begin_flush cfg id now s else quiet s) (replied reply ∷ []))
        r
      ∙ looked_at_once
          (should_flush cfg.silence_flush_delay cfg.max_buffer_duration cfg.sample_rate now
            s.buffer)
          reply s r

  nothing_cancelled : (b : Bool) (s : Session) → cancelled cfg id b s none ≡ quiet s
  nothing_cancelled true s = refl
  nothing_cancelled false s = refl

  read_at_once :
      (e : StreamEvent) (s : Session)
      → s.running ≡ true
      → moves cfg id (quiet s) (read e ∷ []) ≡ quiet (handle_event cfg id s e)
  unfolding move
  read_at_once e s r =
      let s' = handle_event cfg id s e in
      ap (λ (b : Bool). if b then cancelled cfg id s'.running s' none else quiet s) r
      ∙ nothing_cancelled s'.running s'

  at_once :
      (e : StreamEvent) (s : Session)
      → s.running ≡ true
      → moves cfg id (quiet s) (as_moves e) ≡ quiet (handle_event cfg id s e)
  at_once (ticked now reply) s r = ticked_at_once now reply s r
  at_once (audio now frame vad) s r = read_at_once (audio now frame vad) s r
  at_once (text message reply) s r = read_at_once (text message reply) s r
  at_once (read_error reply) s r = read_at_once (read_error reply) s r

  moves-append :
      (w : Waiting) (ms ns : List Move)
      → moves cfg id w (ms ++ ns) ≡ moves cfg id (moves cfg id w ms) ns
  moves-append w [] ns = refl
  moves-append w (m ∷ ms) ns = moves-append (if w.session.running then move cfg id w m else w) ms ns

  event_at_once :
      (e : StreamEvent) (s : Session) (b : Bool)
      → s.running ≡ b
      → moves cfg id (quiet s) (as_moves e) ≡ quiet (if b then handle_event cfg id s e else s)
  event_at_once e s true r = at_once e s r
  event_at_once e s false r = moves_ended cfg id (quiet s) (as_moves e) r

  -- Where Whisper's answer to a tick arrives before the read loop goes on, the two goroutines do
  -- what handle_stream says of the events, and at the end no file is in flight.
  pub handle_stream-moves :
      (es : List StreamEvent) (s : Session)
      → moves cfg id (quiet s) (all_moves es) ≡ quiet (handle_stream cfg id s es)
  unfolding handle_stream
  handle_stream-moves [] s = refl
  handle_stream-moves (e ∷ es) s =
      moves-append (quiet s) (as_moves e) (all_moves es)
      ∙ ap (λ (w : Waiting). moves cfg id w (all_moves es)) (event_at_once e s s.running refl)
      ∙ handle_stream-moves es _
