-- ===== src/Gateway/RequestId/Hex.antt =====
-- A generated id is the hexadecimal form of its random bytes.
use Prim.Native.Char.{Char, code}
use Prim.Native.String as Text
use text.Mathlib.TextLemmas.{length-cons, length-nil}
use voxplatform.Prelude.{
  ℕ, zero, suc, true, ◌&&◌, ◌==◌, Bool-cases, inl, inr, ◌+◌, ◌-◌, ◌*◌, ◌/◌, ◌%◌, ◌<◌, ◌≡◌, refl, ap,
  String, Bool, List, [], ◌∷◌, arith, ltb, if◌then◌else◌, All, length,
}
use voxplatform.Gateway.RequestId.{hex_digit, encode_to_string, generate_request_id}

-- The number of a hexadecimal digit in lower case.
abbrev pub digit_value : Char → ℕ
digit_value c = if ltb (code c) 97 then code c - 48 else code c - 87

-- The bytes of a hexadecimal text.
pub decode_hex : String → List ℕ
decode_hex Text.[] = []
decode_hex (Text.◌∷◌ h Text.[]) = []
decode_hex (Text.◌∷◌ h (Text.◌∷◌ l s)) = (16 * digit_value h + digit_value l) ∷ decode_hex s

abbrev pub IsByte : ℕ → Type 0
IsByte b = b < 256

-- A test of every number below a bound.
abbrev all_below : ℕ → (ℕ → Bool) → Bool
all_below zero p = true
all_below (suc n) p = p n && all_below n p

all_below_lem : (n : ℕ) (p : ℕ → Bool) (k : ℕ) → all_below n p ≡ true → k < n → p k ≡ true
all_below_lem zero p k h small = absurd (omega (arith, small))
all_below_lem (suc n) p k h small = elim (Bool-cases (k == n)) [
  | inl last ↦ ground (arith, h, last)
  | inr other ↦ ground (arith, h, other, small, all_below_lem n p k)
]

digit_value-hex_digit : (n : ℕ) → n < 16 → digit_value (hex_digit n) ≡ n
digit_value-hex_digit n h =
    ground (arith, all_below_lem 16 (λ k. digit_value (hex_digit k) == k) n refl h)

decode-encode_to_string :
    (bytes : List ℕ) → All IsByte bytes → decode_hex (encode_to_string bytes) ≡ bytes
unfolding decode_hex encode_to_string
decode-encode_to_string [] h = refl
decode-encode_to_string (b ∷ bs) (small, h) =
    rw
      (
        digit_value-hex_digit (b / 16) (omega (arith, small)),
        digit_value-hex_digit (b % 16) (omega arith),
        decode-encode_to_string bs h,
      )
      (ap (λ (n : ℕ). n ∷ bs) (omega arith))

count-encode_to_string : (bytes : List ℕ) → Text.count (encode_to_string bytes) ≡ 2 * length bytes
unfolding encode_to_string
count-encode_to_string [] = length-nil
count-encode_to_string (b ∷ bs) =
    rw (length-cons, length-cons, count-encode_to_string bs) (omega arith)

-- A generated id has two characters for each of its bytes, which are the digits of a hexadecimal
-- number in lower case, and the bytes can be read back from it: an id of eight bytes has sixteen
-- characters, and two ids are the same only if all their bytes are.
pub decode-generate_request_id :
    (bytes : List ℕ)
    → All IsByte bytes
    → (decode_hex (generate_request_id bytes) ≡ bytes)
      × (Text.count (generate_request_id bytes) ≡ 2 * length bytes)
unfolding generate_request_id
decode-generate_request_id bytes h = (decode-encode_to_string bytes h, count-encode_to_string bytes)
