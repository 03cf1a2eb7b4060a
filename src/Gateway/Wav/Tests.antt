-- ===== src/Gateway/Wav/Tests.antt =====
-- Runs of the WAV writer on small inputs.
use voxplatform.Prelude.{◌≡◌, refl, some, List, [], ◌∷◌, length, arith}
use voxplatform.Gateway.Wav.{Bytes, build_wav}
use voxplatform.Gateway.Wav.Layout.{flatten}
use voxplatform.Gateway.Wav.Decode.{decode_wav, decode_wav-build_wav}

abbrev two_frames : List Bytes
two_frames = (1 ∷ 2 ∷ []) ∷ (3 ∷ 4 ∷ 5 ∷ 6 ∷ []) ∷ []

decode_two_frames :
    decode_wav (build_wav two_frames 6 16000) ≡ some (16000, 1 ∷ 2 ∷ 3 ∷ 4 ∷ 5 ∷ 6 ∷ [])
unfolding decode_wav build_wav
decode_two_frames = refl

decode_wav-build_wav_example :
    decode_wav (build_wav two_frames (length (flatten two_frames)) 16000)
    ≡ some (16000, flatten two_frames)
decode_wav-build_wav_example = decode_wav-build_wav two_frames 16000 (omega arith) (omega arith)
