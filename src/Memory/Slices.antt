-- ===== src/Memory/Slices.antt =====
-- Reads of live blocks.
use rgpot.Prelude.{
  ◌*◌, Option-cases, ◌==◌, ◌&&◌, refl, inr, inl, Bool-cases, ◌⊎◌, ap, ◌∙◌, ℕ, zero, suc, ◌≤◌, ◌≡◌,
  ◌≢◌, some, List, arith, length, take, take_all,
}
use rgpot.Prelude.Words.{Word, Half, Double}
use rgpot.Layout.{is_null, Ptr, null, Cell, f64s, i32s, i64s}
use rgpot.Memory.{
  ltb, wrap, [], mul_i64_overflows, overflow_message, static_str, panicked, undefined, mul_i64,
  as_f64s, IsWorld, with_block, World, ok, load, f64_slice, i32_slice, i64_slice,
}

module _ {w : World} {p : Ptr} where
  pub load-some : {c : Cell} → p ≢ 0 → w.cell p ≡ some c → load p w ≡ ok c w
  unfolding load
  load-some h e = ground arith

  pub f64_slice-f64s :
      {xs : List Double} (n : ℕ)
      → p ≢ 0
      → w.cell p ≡ some (f64s xs)
      → n ≤ length xs
      → f64_slice p n w ≡ ok (take n xs) w
  unfolding f64_slice load
  f64_slice-f64s zero h e fits = ground arith
  f64_slice-f64s (suc n) h e fits = ground arith

  pub i32_slice-i32s :
      {xs : List Half} (n : ℕ)
      → p ≢ 0
      → w.cell p ≡ some (i32s xs)
      → n ≤ length xs
      → i32_slice p n w ≡ ok (take n xs) w
  unfolding i32_slice load
  i32_slice-i32s zero h e fits = ground arith
  i32_slice-i32s (suc n) h e fits = ground arith

  pub i64_slice-i64s :
      {xs : List Word} (n : ℕ)
      → p ≢ 0
      → w.cell p ≡ some (i64s xs)
      → n ≤ length xs
      → i64_slice p n w ≡ ok (take n xs) w
  unfolding i64_slice load
  i64_slice-i64s zero h e fits = ground arith
  i64_slice-i64s (suc n) h e fits = ground arith

-- A fresh block keeps the allocator's invariant.
pub with_block-IsWorld : {w : World} (c : Cell) → IsWorld w → IsWorld (with_block c w)
with_block-IsWorld c is = record {
  positive = omega (arith, is.positive);
  fresh = λ p h. ground (arith, is.fresh p);
  null_unused = ground (arith, is.positive, is.null_unused);
}

-- A buffer read whole.
pub f64_slice-all :
    (w : World) (p : Ptr) (xs : List Double) (n : ℕ)
    → p ≢ null
    → w.cell p ≡ some (f64s xs)
    → length xs ≡ n
    → f64_slice p n w ≡ ok xs w
f64_slice-all w p xs n live e size =
    f64_slice-f64s n live e (omega arith) ∙ ap (λ ys. ok ys w) (take_all n xs size)

pub i32_slice-all :
    (w : World) (p : Ptr) (xs : List Half) (n : ℕ)
    → p ≢ null
    → w.cell p ≡ some (i32s xs)
    → length xs ≡ n
    → i32_slice p n w ≡ ok xs w
i32_slice-all w p xs n live e size =
    i32_slice-i32s n live e (omega arith) ∙ ap (λ ys. ok ys w) (take_all n xs size)

as_f64s-cases :
    (c : Cell) (w : World)
    → ((xs : List Double) × (as_f64s c w ≡ ok xs w)) ⊎ (as_f64s c w ≡ undefined)
as_f64s-cases (f64s xs) w = inl (xs, refl)
as_f64s-cases _ w = inr refl

-- A slice of doubles is read without a change, or there is none.
pub f64_slice-cases :
    (p : Ptr) (n : ℕ) (w : World)
    → ((xs : List Double) × (f64_slice p n w ≡ ok xs w)) ⊎ (f64_slice p n w ≡ undefined)
unfolding f64_slice load
f64_slice-cases p n w = elim (Bool-cases (is_null p)) [
  | inl e ↦ inr (rw e refl)
  | inr live ↦ elim (Bool-cases (n == 0)) [
    | inl e ↦ inl ([], rw (live, e) refl)
    | inr some_element ↦ elim (Option-cases (w.cell p)) [
      | inl e ↦ inr (ground arith)
      | inr (c, e) ↦ elim (as_f64s-cases c w) [
        | inr other ↦ inr (ground arith)
        | inl (xs, same) ↦ elim (Bool-cases (ltb (length xs) n)) [
          | inl short ↦ inr (ground arith)
          | inr long ↦ inl (take n xs, ground arith)
        ]
      ]
    ]
  ]
]

-- A product in i64 is computed without a change, or panics.
pub mul_i64-cases :
    (a b : Word) (w : World)
    → ((n : Word) × (mul_i64 a b w ≡ ok n w))
      ⊎ (mul_i64 a b w ≡ panicked (static_str overflow_message) w)
unfolding mul_i64
mul_i64-cases a b w = elim (Bool-cases (mul_i64_overflows a b && w.overflow_checks)) [
  | inl out ↦ inr (rw out refl)
  | inr fits ↦ inl (wrap (a * b), rw fits refl)
]

-- A product in i64 that is computed is the product modulo 2 ^ 64.
pub mul_i64-wrap : (a b n : Word) (w w' : World) → mul_i64 a b w ≡ ok n w' → n ≡ wrap (a * b)
unfolding mul_i64
mul_i64-wrap a b n w w' h = elim (Bool-cases (mul_i64_overflows a b && w.overflow_checks)) [
  | inl out ↦ absurd (ground (arith, rw out at h))
  | inr fits ↦ let e : ok (wrap (a * b)) w ≡ ok n w' = rw fits at h in cc e
]
