-- ===== src/Gateway/Stream/Tests.antt =====
-- Sessions on small inputs: a second of audio at the rate of one sample a second.
use voxplatform.Prelude.{◌+◌, ◌*◌, ◌≡◌, refl, ◌++◌, true, false, some, List, [], ◌∷◌, arith}
use voxplatform.Gateway.Wav.{build_wav}
use voxplatform.Gateway.Stream.{
  unbuildable, second, StreamConfig, default_stream_config, Session, new_session, StreamEvent,
  audio, text, ticked, verdict, garbled, unreachable, answered, failed, reply_messages,
  handle_stream, final_message, error_message,
}
use voxplatform.Gateway.Stream.Latency.{utterance_flushed}
use voxplatform.Gateway.Stream.Delivery.{
  sent_audio, session_audio, kept_all, handle_stream_keeps_audio,
}

abbrev slow : StreamConfig
slow = record default_stream_config { sample_rate = 1 }

abbrev talk : List StreamEvent
talk =
    audio 5 (9 ∷ []) (verdict false)
    ∷ audio 10 (1 ∷ 2 ∷ []) (verdict true)
    ∷ audio 20 (3 ∷ []) (verdict false)
    ∷ audio 30 (4 ∷ []) unreachable
    ∷ audio 40 [] (verdict false)
    ∷ ticked 50 (answered 200 "early" 1)
    ∷ ticked (40 + 2 * second) (answered 200 "hello" 7)
    ∷ audio 60 (8 ∷ []) garbled
    ∷ audio 70 (5 ∷ []) (verdict true)
    ∷ text "close" (failed "refused")
    ∷ audio 90 (6 ∷ []) (verdict true)
    ∷ []

talk_messages :
    (handle_stream slow "r" new_session talk).messages
    ≡ final_message "r" "hello" 7 ∷ error_message "r" "refused" ∷ []
unfolding handle_stream reply_messages
talk_messages = refl

talk_audio : session_audio (handle_stream slow "r" new_session talk) ≡ 1 ∷ 2 ∷ 3 ∷ 4 ∷ 5 ∷ []
unfolding handle_stream build_wav
talk_audio = refl

handle_stream_keeps_audio_example :
    session_audio (handle_stream slow "r" new_session talk) ≡ kept_all slow "r" new_session talk
handle_stream_keeps_audio_example = handle_stream_keeps_audio slow "r" new_session talk

-- Three bytes of speech at the time 0, at one sample a second, and then silence.
abbrev spoken : Session
spoken = record new_session {
  buffer = record {
    frames = (1 ∷ 2 ∷ 3 ∷ []) ∷ [];
    total_bytes = 3;
    speech_start = some 0;
    last_speech = some 0;
    is_speaking = true;
  };
}

abbrev pause : List StreamEvent
pause =
    audio 1 (0 ∷ []) (verdict false)
    ∷ ((ticked 2 unbuildable ∷ []) ++ ticked (3 * second) unbuildable ∷ [])

utterance_flushed_example :
    ((handle_stream slow "r" spoken pause).buffer.frames ≡ [])
    × (sent_audio (handle_stream slow "r" spoken pause).flushed
        ≡ session_audio spoken ++ kept_all slow "r" spoken pause)
utterance_flushed_example =
    utterance_flushed slow "r" 0 1 (3 * second) (0 ∷ []) (verdict false) unbuildable
      (ticked 2 unbuildable ∷ []) spoken refl (λ e. cc) (omega arith) refl refl (tt, tt)
      (omega arith) (omega arith)
