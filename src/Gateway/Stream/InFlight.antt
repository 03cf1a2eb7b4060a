-- ===== src/Gateway/Stream/InFlight.antt =====
-- The flush loop of internal/gateway/stream.go while it waits for Whisper. flushLoop waits inside
-- flushBuffer, so a file of its own can be in flight while the read loop goes on; the other
-- modules take a tick and its answer as one step.
pub mod Atomic
pub mod Delivery
pub mod Answers
pub mod Ending
pub mod Bounds
mod Tests
use voxplatform.Prelude.{
  ℕ, ◌≡◌, refl, ap, ◌∙◌, String, Bool, true, false, Option, none, some, List, [], ◌∷◌, ◌++◌,
  if◌then◌else◌, Bool-cases, inl, inr, arith,
}
use voxplatform.Gateway.Wav.{Bytes}
use voxplatform.Gateway.Stream.{
  StreamConfig, AudioBuffer, WhisperReply, Session, StreamEvent, audio, text, read_error, ticked,
  should_flush, flush, flush_buffer, reply_messages, deliver, tick, handle_event, handle_stream,
}

-- A session, and the file for whose answer the flush loop waits.
pub record Waiting : Type 0 where
  pub session : Session
  pub in_flight : Option Bytes

-- A step of one of the two goroutines: the read loop handles what it has read, the flush loop
-- looks at the buffer at a time, and the answer to the file in flight arrives.
pub data Move : Type 0 where
  read : StreamEvent → Move
  looked : ℕ → Move
  replied : WhisperReply → Move

module _ (cfg : StreamConfig) (request_id : String) where
  abbrev pub taken : Session → Option Bytes × AudioBuffer → Waiting
  taken s (none, b) = record { session = s; in_flight = none }
  taken s (some wav, b) = record { session = record s { buffer = b }; in_flight = some wav }

  -- flushLoop up to the request of flushBuffer.
  pub begin_flush : ℕ → Session → Waiting
  begin_flush now s =
      if should_flush cfg.silence_flush_delay cfg.max_buffer_duration cfg.sample_rate now s.buffer
      then taken s (flush cfg.sample_rate s.buffer)
      else record { session = s; in_flight = none }

  -- The rest of flushBuffer, with the answer.
  pub end_flush : WhisperReply → Session → Option Bytes → Waiting
  end_flush reply s none = record { session = s; in_flight = none }
  end_flush reply s (some wav) = record {
    session = record s {
      flushed = s.flushed ++ (wav, reply) ∷ [];
      messages = s.messages ++ reply_messages request_id reply;
    };
    in_flight = none;
  }

  -- Returning from handleStream cancels the context of the request in flight and of the writes to
  -- the client: the call of the HTTP client then returns the context's error, and so does the write
  -- of the message about it, so that nothing more comes of the file.
  abbrev pub cancelled : Bool → Session → Option Bytes → Waiting
  cancelled true s file = record { session = s; in_flight = file }
  cancelled false s file = record { session = s; in_flight = none }

  abbrev look : ℕ → Session → Option Bytes → Waiting
  look now s none = begin_flush now s
  look now s (some wav) = record { session = s; in_flight = some wav }

  pub move : Waiting → Move → Waiting
  unfolding begin_flush end_flush
  move w (read e) =
      let s = handle_event cfg request_id w.session e in cancelled s.running s w.in_flight
  move w (looked now) = look now w.session w.in_flight
  move w (replied reply) = end_flush reply w.session w.in_flight

  -- The moves of the two goroutines, in any order, until the read loop returns.
  abbrev pub moves : Waiting → List Move → Waiting
  moves w [] = w
  moves w (m ∷ ms) = moves (if w.session.running then move w m else w) ms

  pub moves_ended : (w : Waiting) (ms : List Move) → w.session.running ≡ false → moves w ms ≡ w
  moves_ended w [] e = refl
  moves_ended w (m ∷ ms) e =
      ap (λ (b : Bool). moves (if b then move w m else w) ms) e ∙ moves_ended w ms e
