-- ===== src/Prelude/Texts.antt =====
-- Texts as the Go source uses them: comparison, concatenation, and `%d` of `fmt`.
use Prim.Native.Nat.{ℕ, zero, suc, ◌/◌, ◌%◌}
use Prim.Native.String.{String, ◌++◌ as str_append}
use mathlib.Core.Path.{◌≡◌, refl}
use mathlib.Core.Logic.{◌≢◌}
use mathlib.Core.Bool.{Bool, true, false}
use native.Mathlib.Omega.{arith}
use text.Mathlib.Text.{◌==◌ as text_eq}
use text.Mathlib.TextEquality.{eq_iff}
use text.Mathlib.TextPositions.{eq_refl}
use voxplatform.Prelude.Tests.{◌==◌, ltb, leb, if◌then◌else◌}

infix 50 ◌=s◌
abbrev pub ◌=s◌ : String → String → Bool
s =s t = text_eq s t

infixr 65 ◌+s◌
abbrev pub ◌+s◌ : String → String → String
s +s t = str_append s t

pub text_eq→eq : (s t : String) → (s =s t) ≡ true → s ≡ t
text_eq→eq s t h = (eq_iff s t).0 h

pub text_eq_self : (s : String) → (s =s s) ≡ true
text_eq_self s = eq_refl s

pub text_eq_ne : (s t : String) → s ≢ t → (s =s t) ≡ false
text_eq_ne s t h = ground (arith, eq_iff s t)

abbrev digit : ℕ → String
digit d =
    if d == 0
    then "0"
    else if d == 1
    then "1"
    else if d == 2
    then "2"
    else if d == 3
    then "3"
    else if d == 4
    then "4"
    else if d == 5
    then "5"
    else if d == 6
    then "6"
    else if d == 7
    then "7"
    else if d == 8
    then "8"
    else "9"

show_digits : ℕ → ℕ → String
show_digits zero n = digit (n % 10)
show_digits (suc fuel) n =
    let higher = show_digits fuel (n / 10) in
    if ltb n 10 then digit (n % 10) else higher +s digit (n % 10)

-- `%d` of a number below 10 ^ 20, which every Go integer is.
unfoldable pub show_ℕ : ℕ → String
unfolding show_digits
show_ℕ n = show_digits 20 n

show_8000 : show_ℕ 8000 ≡ "8000"
unfolding show_ℕ
show_8000 = refl

-- A Go `int32` as an integer: `negsuc n` is -(n + 1).
pub data ℤ : Type 0 where
  pos : ℕ → ℤ
  negsuc : ℕ → ℤ

unfoldable pub show_ℤ : ℤ → String
unfolding show_ℕ
show_ℤ (pos n) = show_ℕ n
show_ℤ (negsuc n) = "-" +s show_ℕ (suc n)

abbrev pub is_pos : ℤ → Bool
is_pos (pos n) = ltb 0 n
is_pos (negsuc n) = false

abbrev pub lebℤ : ℤ → ℤ → Bool
lebℤ (pos a) (pos b) = leb a b
lebℤ (pos a) (negsuc b) = false
lebℤ (negsuc a) (pos b) = true
lebℤ (negsuc a) (negsuc b) = leb b a
