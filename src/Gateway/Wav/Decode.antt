-- ===== src/Gateway/Wav/Decode.antt =====
-- A reader of 16-bit mono PCM WAV files, written from the format and not from buildWAV, as the
-- specification of what the backend makes of the file.
use voxplatform.Prelude.{
  ℕ, ◌+◌, ◌*◌, ◌/◌, ◌^◌, ◌<◌, ◌≡◌, refl, Bool, true, false, ◌&&◌, Option, none, some, List, [], ◌∷◌,
  ◌++◌, arith, ◌==◌, length, drop,
}
use voxplatform.Gateway.Wav.{Bytes, byte, u32, riff, wave, fmt, data_tag, build_wav}
use voxplatform.Gateway.Wav.Layout.{flatten, header, build_wav_lem}

abbrev pub read_le16 : Bytes → ℕ
read_le16 (a ∷ b ∷ rest) = a + b * 2 ^ 8
read_le16 _ = 0

abbrev pub read_le32 : Bytes → ℕ
read_le32 (a ∷ b ∷ c ∷ d ∷ rest) = a + b * 2 ^ 8 + c * 2 ^ 16 + d * 2 ^ 24
read_le32 _ = 0

abbrev starts_with : Bytes → Bytes → Bool
starts_with [] file = true
starts_with (x ∷ xs) [] = false
starts_with (x ∷ xs) (b ∷ bs) = x == b && starts_with xs bs

infixr 3 ◌⇒◌
abbrev ◌⇒◌ {ℓ} : {A : Type ℓ} → Bool → Option A → Option A
true ⇒ r = r
false ⇒ r = none

-- The sample rate and the audio, if the tags, the chunk sizes and the format agree.
unfoldable pub decode_wav : Bytes → Option (ℕ × Bytes)
decode_wav file =
    starts_with riff file
    ⇒ (read_le32 (drop 4 file) + 8 == length file)
    ⇒ starts_with wave (drop 8 file)
    ⇒ starts_with fmt (drop 12 file)
    ⇒ (read_le32 (drop 16 file) == 16)
    ⇒ (read_le16 (drop 20 file) == 1)
    ⇒ (read_le16 (drop 22 file) == 1)
    ⇒ (read_le32 (drop 28 file) == read_le32 (drop 24 file) * 2)
    ⇒ (read_le16 (drop 32 file) == 2)
    ⇒ (read_le16 (drop 34 file) == 16)
    ⇒ starts_with data_tag (drop 36 file)
    ⇒ (read_le32 (drop 40 file) == length (drop 44 file))
    ⇒ some (read_le32 (drop 24 file), drop 44 file)

read_le32_lem :
    (v : ℕ)
    → v < 2 ^ 32
    → byte (u32 v)
        + byte (u32 v / 2 ^ 8) * 2 ^ 8
        + byte (u32 v / 2 ^ 16) * 2 ^ 16
        + byte (u32 v / 2 ^ 24) * 2 ^ 24
      ≡ v
read_le32_lem v h = omega arith

eq→true : (a b : ℕ) → a ≡ b → (a == b) ≡ true
eq→true a b h = ground arith

decode-header :
    (total rate : ℕ) (audio : Bytes)
    → length audio ≡ total
    → 36 + total < 2 ^ 32
    → rate * 2 < 2 ^ 32
    → decode_wav (header total rate ++ audio) ≡ some (rate, audio)
unfolding decode_wav
decode-header total rate audio len small slow =
    rw
      (
        read_le32_lem (36 + total) small,
        read_le32_lem (rate * 2) slow,
        read_le32_lem rate (omega arith),
        read_le32_lem total (omega arith),
      )
      (ground arith)

-- A reader of the format gets the configured sample rate and the audio of the frames, in order,
-- from the file that buildWAV makes with the frames' total size, as long as the size fields and
-- the byte rate fit their 32 bits.
pub decode_wav-build_wav :
    (frames : List Bytes) (rate : ℕ)
    → 36 + length (flatten frames) < 2 ^ 32
    → rate * 2 < 2 ^ 32
    → decode_wav (build_wav frames (length (flatten frames)) rate) ≡ some (rate, flatten frames)
decode_wav-build_wav frames rate small slow =
    rw (build_wav_lem frames rate)
      (decode-header (length (flatten frames)) rate (flatten frames) refl small slow)
