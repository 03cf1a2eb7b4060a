-- ===== src/Gateway/Stream/InFlight/Answers.antt =====
-- What the client is told when files are in flight while the read loop of
-- internal/gateway/stream.go goes on.
use mathlib.Core.Path.{subst}
use voxplatform.Prelude.{
  inl, inr, sym, ℕ, String, Bool, true, false, Option, none, some, List, [], ◌∷◌, Bool-cases,
}
use voxplatform.Gateway.Wav.{Bytes}
use voxplatform.Gateway.Stream.{
  StreamConfig, WhisperReply, Session, flush, should_flush, is_empty, handle_event,
}
use voxplatform.Gateway.Stream.Messages.{IsAnswered, Answered-append, handle_event-IsAnswered}
use voxplatform.Gateway.Stream.InFlight.{
  Waiting, Move, read, looked, replied, begin_flush, end_flush, cancelled, look, move, moves,
  moves_ended,
}
use voxplatform.Gateway.Stream.InFlight.Delivery.{moves_live}

module _ (cfg : StreamConfig) (id : String) where
  IsAnswered-begin_flush :
      (now : ℕ) (s : Session)
      → IsAnswered cfg id s
      → IsAnswered cfg id (begin_flush cfg id now s).session
  unfolding begin_flush flush
  IsAnswered-begin_flush now s h =
      elim (Bool-cases (
        should_flush cfg.silence_flush_delay cfg.max_buffer_duration cfg.sample_rate now
          s.buffer)) [
            | inr early ↦ rw early h
            | inl due ↦ elim (Bool-cases (is_empty s.buffer.frames)) [
              | inl empty ↦ rw (due, empty) h
              | inr full ↦ rw (due, full) h
            ]
          ]

  IsAnswered-cancelled :
      (b : Bool) (s : Session) (file : Option Bytes)
      → IsAnswered cfg id s
      → IsAnswered cfg id (cancelled cfg id b s file).session
  IsAnswered-cancelled true s file h = h
  IsAnswered-cancelled false s file h = h

  IsAnswered-end_flush :
      (reply : WhisperReply) (s : Session) (file : Option Bytes)
      → IsAnswered cfg id s
      → IsAnswered cfg id (end_flush cfg id reply s file).session
  unfolding end_flush
  IsAnswered-end_flush reply s none h = h
  IsAnswered-end_flush reply s (some wav) h = Answered-append id s.flushed s.messages wav reply h

  move-IsAnswered :
      (w : Waiting) (m : Move)
      → IsAnswered cfg id w.session
      → IsAnswered cfg id (move cfg id w m).session
  unfolding move
  move-IsAnswered w (read e) h =
      IsAnswered-cancelled _ (handle_event cfg id w.session e) w.in_flight
        (handle_event-IsAnswered cfg id w.session e h)
  move-IsAnswered w (looked now) h = looked_answered w.in_flight
    where
      looked_answered :
          (file : Option Bytes) → IsAnswered cfg id (look cfg id now w.session file).session
      looked_answered none = IsAnswered-begin_flush now w.session h
      looked_answered (some wav) = h
  move-IsAnswered w (replied reply) h = IsAnswered-end_flush reply w.session w.in_flight h

  -- However the two loops interleave, and after the read loop has returned too, the messages sent to
  -- the client are, in the order of the files that were answered: an error with the reason for a
  -- request that failed, the transcript for one that was answered with status 200, both with the
  -- id of the session, and nothing for a request that could not be built, for any other status, or
  -- for a file in flight.
  pub moves-IsAnswered :
      (w : Waiting) (ms : List Move)
      → IsAnswered cfg id w.session
      → IsAnswered cfg id (moves cfg id w ms).session
  moves-IsAnswered w [] h = h
  moves-IsAnswered w (m ∷ ms) h = elim (Bool-cases w.session.running) [
    | inl live ↦
        subst (λ (v : Waiting). IsAnswered cfg id v.session) (sym (moves_live cfg id w m ms live))
          (moves-IsAnswered (move cfg id w m) ms (move-IsAnswered w m h))
    | inr over ↦
        subst (λ (v : Waiting). IsAnswered cfg id v.session)
          (sym (moves_ended cfg id w (m ∷ ms) over)) h
  ]
