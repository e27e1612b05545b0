-- ===== src/Prelude/Words.antt =====
-- Machine words. Every integer is the number that its bits spell without a sign, so that a cast
-- between i64, u64 and usize on a 64-bit target keeps the number, and a multiplication wraps.
use Prim.Native.Nat.{ℕ, zero, suc, ◌-◌, ◌*◌, ◌%◌, ◌^◌}
use mathlib.Core.Path.{◌≡◌}
use native.Mathlib.Omega.{arith}
use mathlib.Core.Bool.{Bool, not, ◌||◌, ◌&&◌}
use rgpot.Prelude.Tests.{ltb, leb, if◌then◌else◌}

-- i64, u64 and usize
abbrev pub Word : Type 0
Word = ℕ

-- i32, u32 and c_int
abbrev pub Half : Type 0
Half = ℕ

-- f64: its bit pattern. The crate moves doubles about and never computes with them.
abbrev pub Double : Type 0
Double = ℕ

-- 0.0
abbrev pub zero_double : Double
zero_double = 0

-- `n as i32`, `n as u32`
abbrev pub to_half : Word → Half
to_half n = n % 2 ^ 32

-- An i64 below 0, an i32 below 0.
abbrev pub neg_word : Word → Bool
neg_word n = leb (2 ^ 63) n

abbrev pub neg_half : Half → Bool
neg_half n = leb (2 ^ 31) n

-- The distance of an i64 from 0.
abbrev pub magnitude : Word → ℕ
magnitude n = if neg_word n then 2 ^ 64 - n else n

abbrev pub wrap : ℕ → Word
wrap n = n % 2 ^ 64

-- Whether the product of two i64, of two usize, is out of range.
abbrev pub mul_i64_overflows : Word → Word → Bool
mul_i64_overflows a b =
    let m = magnitude a * magnitude b in
    if (neg_word a && not (neg_word b)) || (neg_word b && not (neg_word a))
    then ltb (2 ^ 63) m
    else leb (2 ^ 63) m

abbrev pub mul_usize_overflows : Word → Word → Bool
mul_usize_overflows a b = leb (2 ^ 64) (a * b)

pub wrap-mul_wrap : (a b : ℕ) → wrap (wrap a * b) ≡ wrap (b * a)
wrap-mul_wrap a zero = omega arith
wrap-mul_wrap a (suc b) = omega (arith, wrap-mul_wrap a b)
