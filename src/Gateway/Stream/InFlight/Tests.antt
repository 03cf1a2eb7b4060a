-- ===== src/Gateway/Stream/InFlight/Tests.antt =====
-- Speech that goes on while Whisper transcribes what came before, at one sample a second.
use voxplatform.Gateway.Stream.Buffer.{new_audio_buffer-IsConsistent}
use voxplatform.Gateway.Stream.InFlight.Bounds.{look_bounds}
use voxplatform.Prelude.{arith, ◌<◌, ◌*◌, ◌≡◌, refl, ◌++◌, true, false, none, List, [], ◌∷◌}
use voxplatform.Gateway.Wav.{build_wav}
use voxplatform.Gateway.Stream.{
  second, StreamConfig, default_stream_config, new_session, audio, text, verdict, answered, failed,
  final_message, reply_messages,
}
use voxplatform.Gateway.Stream.Messages.{IsAnswered, none_yet}
use voxplatform.Gateway.Stream.InFlight.{Waiting, Move, read, looked, replied, move, moves}
use voxplatform.Gateway.Stream.Delivery.{sent_audio}
use voxplatform.Gateway.Stream.InFlight.Ending.{IsOver, closes, quiet_stop_delivers}
use voxplatform.Gateway.Stream.InFlight.Answers.{moves-IsAnswered}
use voxplatform.Gateway.Stream.InFlight.Delivery.{payload, all_audio, kept_frames, moves_keep_audio}

abbrev slow : StreamConfig
slow = record default_stream_config { sample_rate = 1 }

abbrev idle : Waiting
idle = record { session = new_session; in_flight = none }

-- The second utterance begins while the file of the first is in flight.
abbrev overlap : List Move
overlap =
    read (audio 10 (1 ∷ 2 ∷ []) (verdict true))
    ∷ read (audio 20 (3 ∷ []) (verdict false))
    ∷ looked (3 * second)
    ∷ read (audio (4 * second) (4 ∷ 5 ∷ []) (verdict true))
    ∷ looked (5 * second)
    ∷ []

overlap_run :
    (payload (moves slow "r" idle overlap).in_flight ≡ 1 ∷ 2 ∷ 3 ∷ [])
    × ((moves slow "r" idle overlap).session.buffer.frames ≡ (4 ∷ 5 ∷ []) ∷ [])
    × ((moves slow "r" idle (overlap ++ replied (answered 200 "hello" 1) ∷ [])).session.messages
        ≡ final_message "r" "hello" 1 ∷ [])
unfolding move build_wav reply_messages voxplatform.Gateway.Stream.handle_event
overlap_run = (refl, refl, refl)

moves_keep_audio_example :
    all_audio (moves slow "r" idle overlap) ≡ all_audio idle ++ kept_frames slow "r" idle overlap
unfolding move voxplatform.Gateway.Stream.handle_event
moves_keep_audio_example =
    moves_keep_audio slow "r" idle overlap (tt, (tt, (tt, (tt, (tt, tt))))) refl

moves-IsAnswered_example :
    IsAnswered slow "r" (moves slow "r" idle (overlap ++ replied (failed "refused") ∷ [])).session
moves-IsAnswered_example =
    moves-IsAnswered slow "r" idle (overlap ++ replied (failed "refused") ∷ []) none_yet

abbrev answered_all : List Move
answered_all = overlap ++ replied (answered 200 "hello" 1) ∷ []

quiet_stop_delivers_example :
    (sent_audio
        (moves slow "r" idle
          (answered_all ++ read (text "close" (failed "x")) ∷ [])).session.flushed
      ≡ all_audio idle ++ kept_frames slow "r" idle answered_all)
    × IsOver slow "r" (moves slow "r" idle (answered_all ++ read (text "close" (failed "x")) ∷ []))
unfolding move voxplatform.Gateway.Stream.handle_event
quiet_stop_delivers_example =
    quiet_stop_delivers slow "r" idle answered_all (text "close" (failed "x"))
      (tt, (tt, (tt, (tt, (tt, (tt, tt)))))) (closes (failed "x")) refl refl

look_bounds_example :
    (move slow "r"
        (moves slow "r" idle answered_all)
        (looked (6 * second))).session.buffer.total_bytes
      * second
    < 2 * 1 * (30 * second)
unfolding move voxplatform.Gateway.Stream.handle_event
look_bounds_example =
    look_bounds slow "r" idle answered_all (6 * second) (omega arith) (omega arith)
      new_audio_buffer-IsConsistent refl
