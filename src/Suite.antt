-- ===== src/Suite.antt =====
-- The `#[cfg(test)]` modules of rgpot-core/src: the callbacks that they register and the tests, as
-- commands. What the unit tests share: assertions, locals, and `as f64`.
pub mod Callbacks
pub mod Potential
pub mod CPotential
pub mod Tensors
pub mod Validation
pub mod Inputs
pub mod Errors
use rgpot.Prelude.Text.{codes}
use rgpot.Status.{Status, success, invalid_parameter, internal_error, rpc_error, buffer_size_error}
use rgpot.Layout.{ForceOut, Ptr, Cell}
use rgpot.Memory.{
  dealloc, ◌>>◌, alloc, static_str, as_out, ◌>>=◌, panic, ok, pure, load, World, Cmd,
}
use rgpot.Prelude.Words.{zero_double, Double, Half, Word}
use rgpot.Prelude.{
  refl, ◌||◌, ◌≡◌, ◌*◌, zero, ◌&&◌, bad, leb, ◌%◌, ◌-◌, none, ltb, some, ◌^◌, ◌/◌, if◌then◌else◌,
  replicate, good, ◌==◌, map, Result, Bool, Option, suc, ℕ, ◌+◌, true, false, List, [], ◌∷◌, arith,
}

-- `assert!` and `assert_eq!`
abbrev pub assert : Bool → Cmd (Unit {0})
assert b = if b then pure tt else panic (static_str (codes "assertion failed"))

abbrev pub assert_eq : ℕ → ℕ → Cmd (Unit {0})
assert_eq a b = assert (a == b)

abbrev pub same_numbers : List ℕ → List ℕ → Bool
same_numbers [] [] = true
same_numbers (x ∷ xs) (y ∷ ys) = (x == y) && same_numbers xs ys
same_numbers _ _ = false

abbrev pub same_status : Status → Status → Bool
same_status success success = true
same_status invalid_parameter invalid_parameter = true
same_status internal_error internal_error = true
same_status rpc_error rpc_error = true
same_status buffer_size_error buffer_size_error = true
same_status _ _ = false

abbrev pub is_good {ℓ κ} : {A : Type ℓ} {E : Type κ} → Result A E → Bool
is_good (good a) = true
is_good (bad e) = false

abbrev pub is_some_of : Option ℕ → ℕ → Bool
is_some_of none n = false
is_some_of (some m) n = m == n

abbrev pub is_none {ℓ} : {A : Type ℓ} → Option A → Bool
is_none none = true
is_none (some a) = false

-- A variable on the stack whose address is taken.
abbrev pub with_local {ℓ} : {A : Type ℓ} → Cell → (Ptr → Cmd A) → Cmd A
with_local x body = do p ← alloc x; a ← body p; dealloc p; pure a

abbrev pub read_out : Ptr → Cmd ForceOut
read_out p = load p >>= as_out

-- The number of bits behind the leading one; `fuel` is at least that number.
abbrev log2 : ℕ → ℕ → ℕ
log2 zero n = 0
log2 (suc fuel) n = let more = log2 fuel (n / 2) in if ltb n 2 then 0 else suc more

-- `n as f64` of an integer without sign: the nearest double, and of two the even one.
abbrev pub as_f64 : Word → Double
as_f64 n =
    let e = log2 64 n in
    let unit = 2 ^ (e - 52) in
    let q = if ltb 52 e then n / unit else n * 2 ^ (52 - e) in
    let r = if ltb 52 e then n % unit else 0 in
    let up = if ltb unit (2 * r) || ((2 * r == unit) && (q % 2 == 1)) then 1 else 0 in
    if n == 0 then 0 else (e + 1022) * 2 ^ 52 + q + up

-- `-x`
abbrev pub neg_f64 : Double → Double
neg_f64 x = (x + 2 ^ 63) % 2 ^ 64

as_f64_test : map as_f64 (0 ∷ 1 ∷ 2 ∷ 3 ∷ 10 ∷ (2 ^ 53 + 1) ∷ (2 ^ 53 + 3) ∷ (2 ^ 64 - 1) ∷ []) ≡ (
    0 ∷ 4607182418800017408 ∷ 4611686018427387904 ∷ 4613937818241073152 ∷ 4621819117588971520
    ∷ 4845873199050653696 ∷ 4845873199050653698 ∷ 4895412794951729152 ∷ [])
as_f64_test = refl

-- `vec![0.0; n]`, whose size in bytes must fit isize.
abbrev pub zeros : Word → Cmd (List Double)
zeros n =
    if leb (2 ^ 63) (n * 8)
    then panic (static_str (codes "capacity overflow"))
    else pure (replicate n zero_double)

abbrev pub or_zero : Option Word → Word
or_zero none = 0
or_zero (some n) = n

abbrev pub ten : Double
ten = as_f64 10

-- The box `[10, 0, 0, 0, 10, 0, 0, 0, 10]`.
abbrev pub cube : List Double
cube = ten ∷ 0 ∷ 0 ∷ 0 ∷ ten ∷ 0 ∷ 0 ∷ 0 ∷ ten ∷ []

abbrev pub ones : ℕ → List Half
ones n = replicate n 1

-- Whether no block is left at the addresses up to `n`.
abbrev no_blocks : ℕ → World → Bool
no_blocks zero w = true
no_blocks (suc n) w = is_none (w.cell n) && no_blocks n w

-- Whether a test returns and leaves no block behind.
abbrev passes : Cmd (Unit {0}) → World → Bool
passes m w = elim (m w) [ ok _ v ↦ no_blocks v.next v | _ ↦ false ]

abbrev pub all_pass : List (Cmd (Unit {0})) → World → Bool
all_pass [] w = true
all_pass (m ∷ ms) w = passes m w && all_pass ms w
