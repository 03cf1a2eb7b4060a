-- ===== src/Gateway/Wav/Layout.antt =====
-- What the bytes of a built WAV file are, and that a reader of the format gets the audio back.
use Prim.Native.Nat.add
use mathlib.Core.List.{append_assoc}
use voxplatform.Prelude.{
  ℕ, zero, suc, ◌+◌, ◌-◌, ◌*◌, ◌/◌, ◌^◌, ◌≤◌, ◌≡◌, refl, ap, ◌∙◌, List, [], ◌∷◌, ◌++◌, arith,
  length, drop, replicate, length-append, length-replicate,
}
use voxplatform.Gateway.Wav.{
  Bytes, byte, u32, copy_at, riff, wave, fmt, data_tag, put_header, copy_frames, build_wav,
}

abbrev pub flatten : List Bytes → Bytes
flatten [] = []
flatten (f ∷ fs) = f ++ flatten fs

-- Four bytes of a number, least significant first, and the number that four bytes stand for.
abbrev pub le16 : ℕ → Bytes
le16 v = byte v ∷ byte (v / 2 ^ 8) ∷ []

abbrev pub le32 : ℕ → Bytes
le32 v = byte v ∷ byte (v / 2 ^ 8) ∷ byte (v / 2 ^ 16) ∷ byte (v / 2 ^ 24) ∷ []

-- The header as one list, field after field.
abbrev pub header : ℕ → ℕ → Bytes
header total rate =
    riff
    ++ (le32 (u32 (36 + total))
        ++ (wave
            ++ (fmt
                ++ (le32 16
                    ++ (le16 1
                        ++ (le16 1
                            ++ (le32 (u32 rate)
                                ++ (le32 (u32 (rate * 2))
                                    ++ (le16 2
                                        ++ (le16 16 ++ (data_tag ++ le32 (u32 total))))))))))))

replicate-add : (n m v : ℕ) → replicate (n + m) v ≡ replicate n v ++ replicate m v
replicate-add zero m v = rw add.zero
replicate-add (suc n) m v = rw add.suc (ap (λ (t : Bytes). v ∷ t) (replicate-add n m v))

put_header-append :
    (total rate : ℕ) (rest : Bytes)
    → put_header total rate (replicate 44 0 ++ rest) ≡ header total rate ++ rest
unfolding put_header
put_header-append total rate rest = refl

copy_at-append :
    (pre src buf : Bytes) → copy_at (length pre) src (pre ++ buf) ≡ pre ++ copy_at 0 src buf
unfolding copy_at
copy_at-append [] src buf = refl
copy_at-append (b ∷ bs) src buf = ap (λ (t : Bytes). b ∷ t) (copy_at-append bs src buf)

copy_at-zero :
    (src buf : Bytes) → length src ≤ length buf → copy_at 0 src buf ≡ src ++ drop (length src) buf
unfolding copy_at
copy_at-zero [] buf h = refl
copy_at-zero (x ∷ xs) [] h = elim h [ ]
copy_at-zero (x ∷ xs) (b ∷ bs) h = ap (λ (t : Bytes). x ∷ t) (copy_at-zero xs bs (omega arith))

length-eq-zero : (z : Bytes) → length z ≡ 0 → z ≡ []
length-eq-zero [] h = refl
length-eq-zero (x ∷ xs) h = absurd (omega arith)

length-drop : (n : ℕ) (xs : Bytes) → length (drop n xs) ≡ length xs - n
length-drop zero xs = omega arith
length-drop (suc n) [] = omega arith
length-drop (suc n) (x ∷ xs) = omega (arith, length-drop n xs)

-- Copying the frames over as many bytes as they have leaves the frames behind the prefix.
copy_frames-append :
    (fs : List Bytes) (pre z : Bytes)
    → length z ≡ length (flatten fs)
    → copy_frames (length pre) fs (pre ++ z) ≡ pre ++ flatten fs
unfolding copy_frames
copy_frames-append [] pre z h = ap (λ (t : Bytes). pre ++ t) (length-eq-zero z h)
copy_frames-append (f ∷ fs) pre z h =
    let fits : length f ≤ length z = omega (arith, length-append f (flatten fs)) in
    let rest : length (drop (length f) z) ≡ length (flatten fs) =
      omega (arith, length-append f (flatten fs), length-drop (length f) z) in
    rw (copy_at-append pre f z, copy_at-zero f z fits, ← append_assoc pre f (drop (length f) z))
      (rw (← length-append pre f) (
        copy_frames-append fs (pre ++ f) (drop (length f) z) rest
        ∙ append_assoc pre f (flatten fs)))

-- buildWAV, given the frames' total size, returns the 44 bytes of the header and then the frames
-- in order: no byte of the audio is lost, moved or cut.
pub build_wav_lem :
    (frames : List Bytes) (rate : ℕ)
    → build_wav frames (length (flatten frames)) rate
      ≡ header (length (flatten frames)) rate ++ flatten frames
unfolding build_wav
build_wav_lem frames rate =
    let total : ℕ = length (flatten frames) in
    rw (replicate-add 44 total 0, put_header-append total rate (replicate total 0))
      (copy_frames-append frames (header total rate) (replicate total 0) (length-replicate total 0))

pub length-build_wav :
    (frames : List Bytes) (rate : ℕ)
    → length (build_wav frames (length (flatten frames)) rate) ≡ 44 + length (flatten frames)
length-build_wav frames rate =
    rw (build_wav_lem frames rate)
      (length-append (header (length (flatten frames)) rate) (flatten frames))

pub drop-build_wav :
    (frames : List Bytes) (rate : ℕ)
    → drop 44 (build_wav frames (length (flatten frames)) rate) ≡ flatten frames
drop-build_wav frames rate = rw (build_wav_lem frames rate)
