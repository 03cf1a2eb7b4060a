-- ===== src/Gateway/Wav.antt =====
-- buildWAV, putLE16 and putLE32 of internal/gateway/stream.go: a byte buffer that is filled in
-- place. A byte is a number below 256; a write past the end of the buffer changes nothing.
pub mod Layout
pub mod Decode
mod Tests
use voxplatform.Prelude.{
  ℕ, zero, suc, ◌+◌, ◌*◌, ◌/◌, ◌%◌, ◌^◌, List, [], ◌∷◌, ◌++◌, length, replicate,
}

abbrev pub Bytes : Type 0
Bytes = List ℕ

-- byte(v), uint16(v) and uint32(v)
abbrev pub byte : ℕ → ℕ
byte v = v % 256

abbrev pub u32 : ℕ → ℕ
u32 v = v % 2 ^ 32

-- copy(buf[offset:], src): as many bytes as fit
pub copy_at : ℕ → Bytes → Bytes → Bytes
copy_at zero [] buf = buf
copy_at zero (x ∷ xs) [] = []
copy_at zero (x ∷ xs) (b ∷ bs) = x ∷ copy_at zero xs bs
copy_at (suc n) src [] = []
copy_at (suc n) src (b ∷ bs) = b ∷ copy_at n src bs

pub put_le16 : ℕ → ℕ → Bytes → Bytes
unfolding copy_at
put_le16 offset v buf =
    copy_at (offset + 1) (byte (v / 2 ^ 8) ∷ []) (copy_at offset (byte v ∷ []) buf)

pub put_le32 : ℕ → ℕ → Bytes → Bytes
unfolding copy_at
put_le32 offset v buf =
    let b0 = copy_at offset (byte v ∷ []) buf in
    let b1 = copy_at (offset + 1) (byte (v / 2 ^ 8) ∷ []) b0 in
    let b2 = copy_at (offset + 2) (byte (v / 2 ^ 16) ∷ []) b1 in
    copy_at (offset + 3) (byte (v / 2 ^ 24) ∷ []) b2

abbrev pub riff : Bytes
riff = b'R' ∷ b'I' ∷ b'F' ∷ b'F' ∷ []

abbrev pub wave : Bytes
wave = b'W' ∷ b'A' ∷ b'V' ∷ b'E' ∷ []

abbrev pub fmt : Bytes
fmt = b'f' ∷ b'm' ∷ b't' ∷ b' ' ∷ []

abbrev pub data_tag : Bytes
data_tag = b'd' ∷ b'a' ∷ b't' ∷ b'a' ∷ []

-- The 44 bytes of the header, written in the source's order.
pub put_header : ℕ → ℕ → Bytes → Bytes
unfolding put_le16 put_le32
put_header total_pcm sample_rate buf =
    let b0 = put_le32 4 (u32 (36 + total_pcm)) (copy_at 0 riff buf) in
    let b1 = put_le32 16 16 (copy_at 12 fmt (copy_at 8 wave b0)) in
    let b2 = put_le16 22 1 (put_le16 20 1 b1) in
    let b3 = put_le32 28 (u32 (sample_rate * 2)) (put_le32 24 (u32 sample_rate) b2) in
    let b4 = put_le16 34 16 (put_le16 32 2 b3) in
    put_le32 40 (u32 total_pcm) (copy_at 36 data_tag b4)

-- The loop that copies the frames.
pub copy_frames : ℕ → List Bytes → Bytes → Bytes
copy_frames offset [] buf = buf
copy_frames offset (f ∷ fs) buf = copy_frames (offset + length f) fs (copy_at offset f buf)

unfoldable pub build_wav : List Bytes → ℕ → ℕ → Bytes
unfolding put_header copy_frames
build_wav frames total_pcm sample_rate =
    copy_frames 44 frames (put_header total_pcm sample_rate (replicate (44 + total_pcm) 0))
