-- ===== src/Prelude/Text.antt =====
-- Texts as lists of code points. NUL is the code point 0, and in UTF-8 no other character has a
-- zero byte, so what holds of a NUL among the code points holds of the bytes.
use Prim.Native.Nat.{ℕ, zero, suc, ◌+◌, ◌-◌, ◌/◌, ◌%◌, ◌^◌}
use Prim.Native.Char.{code}
use Prim.Native.String.{String}
use mathlib.Core.Path.{◌≡◌, refl}
use mathlib.Core.Bool.{Bool, false, ◌||◌}
use mathlib.Core.List.{List, [], ◌∷◌, ◌++◌}
use native.Mathlib.Omega.{arith}
use rgpot.Prelude.Tests.{ltb, leb, ◌==◌, if◌then◌else◌}

abbrev pub Text : Type 0
Text = List ℕ

abbrev pub codes : String → Text
codes String.[] = []
codes (String.◌∷◌ c s) = code c ∷ codes s

abbrev pub has_nul : Text → Bool
has_nul [] = false
has_nul (c ∷ s) = (c == 0) || has_nul s

pub has_nul-append : (s t : Text) → has_nul (s ++ t) ≡ (has_nul s || has_nul t)
has_nul-append [] t = refl
has_nul-append (c ∷ s) t = ground (arith, has_nul-append s t)

-- The digits of `n` in front of `acc`. Each round drops one digit.
digits : ℕ → ℕ → Text → Text
digits zero n acc = acc
digits (suc f) n acc =
    let more = digits f (n / 10) ((b'0' + n % 10) ∷ acc) in
    if ltb n 10 then (b'0' + n % 10) ∷ acc else more

-- `{}` of an unsigned number of at most 64 bits, which has at most 20 digits.
unfoldable pub decimal : ℕ → Text
unfolding digits
decimal n = digits 20 n []

-- `{}` of an i32 or i64, given by its bit pattern and its width.
unfoldable pub decimal_signed : ℕ → ℕ → Text
unfolding decimal
decimal_signed w n = if leb (2 ^ (w - 1)) n then b'-' ∷ decimal (2 ^ w - n) else decimal n

digits-has_nul : (f n : ℕ) (acc : Text) → has_nul acc ≡ false → has_nul (digits f n acc) ≡ false
unfolding digits
digits-has_nul zero n acc h = h
digits-has_nul (suc f) n acc h = ground (arith, digits-has_nul f (n / 10) ((b'0' + n % 10) ∷ acc))

-- A printed number holds no NUL.
pub decimal-has_nul : (n : ℕ) → has_nul (decimal n) ≡ false
unfolding decimal
decimal-has_nul n = digits-has_nul 20 n [] refl

decimal_test : decimal_signed 64 (2 ^ 64 - 105) ≡ codes "-105"
unfolding decimal_signed
decimal_test = refl
