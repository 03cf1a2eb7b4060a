-- ===== src/Gateway/Stream/InFlight/Delivery.antt =====
-- Which audio reaches Whisper when files are in flight while the read loop of
-- internal/gateway/stream.go goes on.
use mathlib.Core.List.{append_assoc, append-nil}
use voxplatform.Prelude.{
  ◌≡◌, refl, inl, inr, ap, sym, ◌∙◌, ℕ, String, Bool, true, Option, none, some, List, [], ◌∷◌, ◌++◌,
  Bool-cases, drop, All, if◌then◌else◌, ◌=s◌,
}
use voxplatform.Gateway.Wav.{Bytes}
use voxplatform.Gateway.Wav.Layout.{flatten, drop-build_wav}
use voxplatform.Gateway.Stream.{
  StreamConfig, VadReply, WhisperReply, Session, audio, text, read_error, ticked, flush,
  should_flush, is_empty, on_audio, handle_event,
}
use voxplatform.Gateway.Stream.Buffer.{total_pcm_lem}
use voxplatform.Gateway.Stream.Delivery.{sent_audio, kept, sent_audio-append, on_audio-audio}
use voxplatform.Gateway.Stream.InFlight.{
  Waiting, Move, read, looked, replied, begin_flush, end_flush, cancelled, look, move, moves,
  moves_ended,
}

-- The moves of the model: the ticks of the flush loop are the moves `looked`.
abbrev pub IsMove : Move → Type 0
IsMove (read (ticked now reply)) = ⊥
IsMove _ = Unit

abbrev pub payload : Option Bytes → Bytes
payload none = []
payload (some wav) = drop 44 wav

-- The audio of the files that were answered, of the file in flight, and of the buffer.
abbrev pub all_audio : Waiting → Bytes
all_audio w =
    sent_audio w.session.flushed ++ (payload w.in_flight ++ flatten w.session.buffer.frames)

abbrev pub kept_by : Waiting → Move → Bytes
kept_by w (read e) = kept w.session e
kept_by w _ = []

append3 : (a b c d : Bytes) → a ++ (b ++ (c ++ d)) ≡ (a ++ (b ++ c)) ++ d
append3 a b c d = rw (append_assoc a, append_assoc b) refl

module _ (cfg : StreamConfig) (id : String) where
  -- The frames that the session keeps while these moves are made.
  pub kept_frames : Waiting → List Move → Bytes
  unfolding move
  kept_frames w [] = []
  kept_frames w (m ∷ ms) =
      if w.session.running then kept_by w m ++ kept_frames (move cfg id w m) ms else []

  begin_flush-audio :
      (now : ℕ) (s : Session)
      → all_audio (begin_flush cfg id now s) ≡ all_audio (record { session = s; in_flight = none })
  unfolding begin_flush flush
  begin_flush-audio now s =
      elim (Bool-cases (
        should_flush cfg.silence_flush_delay cfg.max_buffer_duration cfg.sample_rate now
          s.buffer)) [
            | inr early ↦ rw early
            | inl due ↦ elim (Bool-cases (is_empty s.buffer.frames)) [
              | inl empty ↦ rw (due, empty)
              | inr full ↦ rw (
                due,
                full,
                append-nil,
                total_pcm_lem s.buffer.frames,
                drop-build_wav s.buffer.frames cfg.sample_rate,
              )
            ]
          ]

  end_flush-audio :
      (reply : WhisperReply) (s : Session) (file : Option Bytes)
      → all_audio (end_flush cfg id reply s file)
        ≡ all_audio (record { session = s; in_flight = file })
  unfolding end_flush
  end_flush-audio reply s none = refl
  end_flush-audio reply s (some wav) =
      rw (sent_audio-append s.flushed wav reply)
        (append_assoc (sent_audio s.flushed) (drop 44 wav) _)

  frames-on_audio :
      (now : ℕ) (frame : Bytes) (reply : VadReply) (s : Session)
      → flatten (on_audio now frame reply s).buffer.frames
        ≡ flatten s.buffer.frames ++ kept s (audio now frame reply)
  unfolding on_audio
  frames-on_audio now frame reply s =
      on_audio-audio cfg id now frame reply (record s { flushed = [] })

  look-audio :
      (now : ℕ) (s : Session) (file : Option Bytes)
      → all_audio (look cfg id now s file) ≡ all_audio (record { session = s; in_flight = file })
  look-audio now s none = begin_flush-audio now s
  look-audio now s (some wav) = refl

  move-audio :
      (w : Waiting) (m : Move)
      → IsMove m
      → w.session.running ≡ true
      → (move cfg id w m).session.running ≡ true
      → all_audio (move cfg id w m) ≡ all_audio w ++ kept_by w m
  unfolding move handle_event
  move-audio w (read (audio now frame reply)) legal live goes =
      ap
        (λ (b : Bool).
          all_audio (cancelled cfg id b (on_audio now frame reply w.session) w.in_flight))
        live
      ∙ rw (frames-on_audio now frame reply w.session) (
          append3 (sent_audio w.session.flushed) (payload w.in_flight)
            (flatten w.session.buffer.frames) (kept w.session (audio now frame reply)))
  move-audio w (read (text message reply)) legal live goes =
      elim (Bool-cases (message =s "close")) [
        | inl close ↦ cc (rw close at goes)
        | inr other ↦
            rw (other, append-nil)
              (ap (λ (b : Bool). all_audio (cancelled cfg id b w.session w.in_flight)) live)
      ]
  move-audio w (read (read_error reply)) legal live goes = cc
  move-audio w (read (ticked now reply)) legal live goes = elim legal [ ]
  move-audio w (looked now) legal live goes =
      look-audio now w.session w.in_flight ∙ sym (append-nil _)
  move-audio w (replied reply) legal live goes =
      end_flush-audio reply w.session w.in_flight ∙ sym (append-nil _)

  pub moves_live :
      (w : Waiting) (m : Move) (ms : List Move)
      → w.session.running ≡ true
      → moves cfg id w (m ∷ ms) ≡ moves cfg id (move cfg id w m) ms
  moves_live w m ms live =
      ap (λ (b : Bool). moves cfg id (if b then move cfg id w m else w) ms) live

  -- As long as the read loop runs, and however its events interleave with the ticks of the flush
  -- loop and the answers of Whisper: the audio of the files that were answered, then that of the
  -- file in flight, then that of the buffer, is the audio held at the outset followed by the frames
  -- kept since, in the order in which they were read. No byte is lost, repeated or reordered.
  pub moves_keep_audio :
      (w : Waiting) (ms : List Move)
      → All IsMove ms
      → (moves cfg id w ms).session.running ≡ true
      → all_audio (moves cfg id w ms) ≡ all_audio w ++ kept_frames w ms
  unfolding kept_frames
  moves_keep_audio w [] legal goes = sym (append-nil _)
  moves_keep_audio w (m ∷ ms) (here, legal) goes = elim (Bool-cases w.session.running) [
    | inr over ↦ cc (ap (λ (v : Waiting). v.session.running) (moves_ended cfg id w (m ∷ ms) over))
    | inl live ↦
        let goes' : (moves cfg id (move cfg id w m) ms).session.running ≡ true =
          sym (ap (λ (v : Waiting). v.session.running) (moves_live w m ms live)) ∙ goes in
        elim (Bool-cases (move cfg id w m).session.running) [
          | inr ends ↦ cc (
              ap (λ (v : Waiting). v.session.running)
                (moves_ended cfg id (move cfg id w m) ms ends))
          | inl on ↦
              ap all_audio (moves_live w m ms live)
              ∙ moves_keep_audio (move cfg id w m) ms legal goes'
              ∙ ap (λ (a : Bytes). a ++ kept_frames (move cfg id w m) ms)
                  (move-audio w m here live on)
              ∙ append_assoc (all_audio w) (kept_by w m) (kept_frames (move cfg id w m) ms)
              ∙ ap
                  (λ (b : Bool).
                    all_audio w
                    ++ (if b then kept_by w m ++ kept_frames (move cfg id w m) ms else []))
                  (sym live)
        ]
  ]
