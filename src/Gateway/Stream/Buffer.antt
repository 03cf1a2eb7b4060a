-- ===== src/Gateway/Stream/Buffer.antt =====
-- The buffer's bookkeeping, and when shouldFlush answers true.
use mathlib.Core.List.{append_assoc}
use voxplatform.Prelude.{
  ℕ, ◌-◌, ◌*◌, ◌≤◌, ◌≡◌, ◌≢◌, ◌↔◌, ◌⊎◌, refl, ap, sym, ◌∙◌, true, false, Option, none, some, List,
  [], ◌∷◌, ◌++◌, arith, length, length-append,
}
use voxplatform.Gateway.Wav.{Bytes}
use voxplatform.Gateway.Wav.Layout.{flatten}
use voxplatform.Gateway.Stream.{
  second, AudioBuffer, new_audio_buffer, add_frame, mark_speech, mark_silence, should_flush,
  total_pcm, flush,
}

-- The byte count is the audio's size, and only a buffer that has heard speech is speaking.
pub record IsConsistent (b : AudioBuffer) : Type 0 where
  pub counted : b.total_bytes ≡ length (flatten b.frames)
  pub heard : b.is_speaking ≡ true → b.last_speech ≢ none

pub flatten-append : (fs gs : List Bytes) → flatten (fs ++ gs) ≡ flatten fs ++ flatten gs
flatten-append [] gs = refl
flatten-append (f ∷ fs) gs =
    ap (λ (t : Bytes). f ++ t) (flatten-append fs gs)
    ∙ sym (append_assoc f (flatten fs) (flatten gs))

pub total_pcm_lem : (fs : List Bytes) → total_pcm fs ≡ length (flatten fs)
unfolding total_pcm
total_pcm_lem [] = refl
total_pcm_lem (f ∷ fs) = omega (arith, total_pcm_lem fs, length-append f (flatten fs))

pub new_audio_buffer-IsConsistent : IsConsistent new_audio_buffer
new_audio_buffer-IsConsistent = record { counted = refl; heard = λ h. cc }

pub add_frame-IsConsistent :
    (f : Bytes) (b : AudioBuffer) → IsConsistent b → IsConsistent (add_frame f b)
unfolding add_frame
add_frame-IsConsistent f b c = record {
  counted =
      rw
        (
          flatten-append b.frames (f ∷ []),
          length-append (flatten b.frames) (f ++ []),
          length-append f [],
        )
        (omega (arith, c.counted));
  heard = c.heard;
}

pub mark_speech-IsConsistent :
    (now : ℕ) (b : AudioBuffer) → IsConsistent b → IsConsistent (mark_speech now b)
unfolding mark_speech
mark_speech-IsConsistent now b c = ground arith

pub mark_silence-IsConsistent : (b : AudioBuffer) → IsConsistent b → IsConsistent (mark_silence b)
unfolding mark_silence
mark_silence-IsConsistent b c = ground arith

pub flush-IsConsistent :
    (rate : ℕ) (b : AudioBuffer) → IsConsistent b → IsConsistent (flush rate b).1
unfolding flush
flush-IsConsistent rate b c = ground arith

-- Speech was heard, and long enough ago.
abbrev pub HasPaused : ℕ → ℕ → Option ℕ → Type 0
HasPaused delay now none = ⊥
HasPaused delay now (some last) = delay ≤ now - last

-- A buffer with audio is flushed exactly when it holds at least one second of it and is either
-- full or has been silent for the delay since the last speech.
pub should_flush_iff :
    (delay max rate now : ℕ) (b : AudioBuffer)
    → (should_flush delay max rate now b ≡ true) ↔ (
        (b.frames ≢ [])
        × (2 * rate ≤ b.total_bytes)
        × ((2 * rate * max ≤ b.total_bytes * second)
            ⊎ ((b.is_speaking ≡ false) × HasPaused delay now b.last_speech)))
unfolding should_flush
should_flush_iff delay max rate now b = ground arith
