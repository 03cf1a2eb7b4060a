-- ===== src/Gateway/Stream/Interleaving.antt =====
-- The read loop and the flush loop share the buffer. Each call of a method holds the mutex, so
-- what can happen is a sequence of calls in any order.
use mathlib.Core.List.{append_assoc, append-nil}
use voxplatform.Prelude.{
  ℕ, ◌≡◌, refl, ap, inl, inr, Bool-cases, sym, ◌∙◌, Option, none, some, List, [], ◌∷◌, ◌++◌, arith,
  drop,
}
use voxplatform.Gateway.Wav.{Bytes}
use voxplatform.Gateway.Wav.Layout.{flatten, drop-build_wav}
use voxplatform.Gateway.Stream.{AudioBuffer, is_empty, add_frame, mark_speech, mark_silence, flush}
use voxplatform.Gateway.Stream.Buffer.{
  IsConsistent, flatten-append, total_pcm_lem, add_frame-IsConsistent, mark_speech-IsConsistent,
  mark_silence-IsConsistent, flush-IsConsistent,
}

pub data Call : Type 0 where
  added : Bytes → Call
  spoke : ℕ → Call
  silenced : Call
  flushed : Call

-- The buffer, and the files that the flushes returned, oldest first.
pub record Shared : Type 0 where
  pub buffer : AudioBuffer
  pub files : List Bytes

abbrev pub returned : Option Bytes → List Bytes
returned none = []
returned (some wav) = wav ∷ []

pub call : ℕ → Shared → Call → Shared
unfolding add_frame mark_speech mark_silence
call rate s (added f) = record s { buffer = add_frame f s.buffer }
call rate s (spoke now) = record s { buffer = mark_speech now s.buffer }
call rate s silenced = record s { buffer = mark_silence s.buffer }
call rate s flushed =
    let (wav, b) = flush rate s.buffer in record { buffer = b; files = s.files ++ returned wav }

unfoldable pub calls : ℕ → Shared → List Call → Shared
unfolding call
calls rate s [] = s
calls rate s (c ∷ cs) = calls rate (call rate s c) cs

abbrev pub added_frames : List Call → List Bytes
added_frames [] = []
added_frames (added f ∷ cs) = f ∷ added_frames cs
added_frames (_ ∷ cs) = added_frames cs

-- The audio of the files, behind their headers.
abbrev pub payloads : List Bytes → Bytes
payloads [] = []
payloads (w ∷ ws) = drop 44 w ++ payloads ws

pub payloads-append : (vs ws : List Bytes) → payloads (vs ++ ws) ≡ payloads vs ++ payloads ws
payloads-append [] ws = refl
payloads-append (v ∷ vs) ws =
    ap (λ (t : Bytes). drop 44 v ++ t) (payloads-append vs ws)
    ∙ sym (append_assoc (drop 44 v) (payloads vs) (payloads ws))

-- The audio of the files that a flush returns and of the buffer that it leaves.
pub flush_keeps_audio :
    (rate : ℕ) (b : AudioBuffer)
    → payloads (returned (flush rate b).0) ++ flatten (flush rate b).1.frames ≡ flatten b.frames
unfolding flush
flush_keeps_audio rate b = elim (Bool-cases (is_empty b.frames)) [
  | inl empty ↦ rw empty
  | inr full ↦
      rw (full, append-nil, append-nil, total_pcm_lem b.frames) (drop-build_wav b.frames rate)
]

abbrev pub audio : Shared → Bytes
audio s = payloads s.files ++ flatten s.buffer.frames

call-audio :
    (rate : ℕ) (s : Shared) (c : Call)
    → audio (call rate s c) ≡ audio s ++ flatten (added_frames (c ∷ []))
unfolding call
call-audio rate s (added f) =
    rw (flatten-append s.buffer.frames (f ∷ []))
      (sym (append_assoc (payloads s.files) (flatten s.buffer.frames) (f ++ [])))
call-audio rate s (spoke now) = rw append-nil (ground arith)
call-audio rate s silenced = sym (append-nil _)
call-audio rate s flushed = rw (
  append-nil,
  payloads-append s.files (returned (flush rate s.buffer).0),
  append_assoc (payloads s.files),
  flush_keeps_audio rate s.buffer,
)

-- However the calls of the two loops interleave, the audio handed to Whisper in the files so far,
-- followed by the audio still in the buffer, is the audio of all frames added, in the order of
-- their addition: no flush loses, repeats or reorders a byte.
pub calls_keep_audio :
    (rate : ℕ) (s : Shared) (cs : List Call)
    → audio (calls rate s cs) ≡ audio s ++ flatten (added_frames cs)
unfolding calls
calls_keep_audio rate s [] = sym (append-nil _)
calls_keep_audio rate s (c ∷ cs) =
    calls_keep_audio rate (call rate s c) cs
    ∙ rw (call-audio rate s c, append_assoc) (added_split c cs (audio s))
  where
    added_split :
        (c : Call) (cs : List Call) (pre : Bytes)
        → pre ++ (flatten (added_frames (c ∷ [])) ++ flatten (added_frames cs))
          ≡ pre ++ flatten (added_frames (c ∷ cs))
    added_split (added f) cs pre = rw append-nil
    added_split (spoke now) cs pre = refl
    added_split silenced cs pre = refl
    added_split flushed cs pre = refl

call-IsConsistent :
    (rate : ℕ) (s : Shared) (c : Call) → IsConsistent s.buffer → IsConsistent (call rate s c).buffer
unfolding call
call-IsConsistent rate s (added f) h = add_frame-IsConsistent f s.buffer h
call-IsConsistent rate s (spoke now) h = mark_speech-IsConsistent now s.buffer h
call-IsConsistent rate s silenced h = mark_silence-IsConsistent s.buffer h
call-IsConsistent rate s flushed h = flush-IsConsistent rate s.buffer h

-- Every interleaving keeps the byte count equal to the size of the buffered audio, and a buffer
-- that is speaking has the time of its last speech.
pub calls-IsConsistent :
    (rate : ℕ) (s : Shared) (cs : List Call)
    → IsConsistent s.buffer
    → IsConsistent (calls rate s cs).buffer
unfolding calls
calls-IsConsistent rate s [] h = h
calls-IsConsistent rate s (c ∷ cs) h =
    calls-IsConsistent rate (call rate s c) cs (call-IsConsistent rate s c h)
