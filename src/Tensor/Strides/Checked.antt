-- ===== src/Tensor/Strides/Checked.antt =====
-- `compute_row_major_strides` in a build with overflow checks: it returns or panics, on every shape.
use rgpot.Memory.{mul_i64, panicked, ok, Run, overflow_message, static_str, panic, Cmd}
use rgpot.Tensor.Strides.{
  compute_row_major_strides-row_words, wrap, strides_loop-panicked, partial-length, drop-length,
  partial, row_words, strides_loop, Fits, Word, compute_row_major_strides, World, mul_i64, volume,
  strides_loop-partial, drop-eq-cons, mul_i64-fits, volume-lt,
}
use rgpot.Prelude.{
  not, replicate, [], zero, false, sym, ap, inr, ◌∙◌, inl, refl, ◌*◌, Bool-cases, get_or, length,
  ◌≤◌, ◌^◌, if◌then◌else◌, suc, ◌<◌, true, ◌≡◌, drop, Bool, ◌∷◌, List, ℕ, arith, ltb, ◌&&◌,
}

-- Whether the volume of every list of last dimensions is in the range of i64.
abbrev pub fits : List Word → Bool
fits [] = true
fits (d ∷ ds) = ltb (volume (d ∷ ds)) (2 ^ 63) && fits ds

abbrev pub NonNegative : List Word → Type 0
NonNegative [] = Unit {0}
NonNegative (d ∷ ds) = (d < 2 ^ 63) × NonNegative ds

fits-Fits : (ds : List Word) → NonNegative ds → fits ds ≡ true → Fits ds
fits-Fits [] n h = tt
fits-Fits (d ∷ ds) n h = (n.0, ground arith, fits-Fits ds n.1 (ground arith))

fits-drop : (i : ℕ) (ds : List Word) → fits ds ≡ true → fits (drop i ds) ≡ true
fits-drop zero ds h = h
fits-drop (suc i) [] h = refl
fits-drop (suc i) (d ∷ ds) h = fits-drop i ds (ground arith)

not_fits-drop : (i : ℕ) (ds : List Word) → fits (drop i ds) ≡ false → fits ds ≡ false
not_fits-drop i ds h = elim (Bool-cases (fits ds)) [
  | inl all_fit ↦ absurd (ground (arith, fits-drop i ds all_fit))
  | inr some_out ↦ some_out
]

NonNegative-drop : (i : ℕ) (ds : List Word) → NonNegative ds → NonNegative (drop i ds)
NonNegative-drop zero ds h = h
NonNegative-drop (suc i) [] h = tt
NonNegative-drop (suc i) (d ∷ ds) h = NonNegative-drop i ds h.1

abbrev overflowing {ℓ} : {A : Type ℓ} → Cmd A
overflowing = panic (static_str overflow_message)

mul_i64-out :
    (a b : ℕ) (w : World)
    → w.overflow_checks ≡ true
    → a < 2 ^ 63
    → b < 2 ^ 63
    → ltb (b * a) (2 ^ 63) ≡ false
    → mul_i64 (wrap a) b w ≡ overflowing w
unfolding mul_i64
mul_i64-out a b w checked ha hb h = ground arith

module _ (w : World) (d₀ : Word) (ds : List Word) (checked : w.overflow_checks ≡ true)
    (all : NonNegative ds) where
  abbrev outcome : Bool → Run (List Word)
  outcome true = ok (row_words (d₀ ∷ ds)) w
  outcome false = overflowing w

  strides_loop-fits :
      (k : ℕ)
      → k ≤ length ds
      → fits (drop k ds) ≡ true
      → strides_loop k (d₀ ∷ ds) (partial w d₀ ds k) w ≡ outcome (fits ds)
  strides_loop-fits zero h done = unfold strides_loop in rw done refl
  strides_loop-fits (suc i) h done =
      let here = drop-eq-cons i ds 0 h in
      let tail : List Word = drop (suc i) ds in
      let d : Word = get_or ds i 0 in
      let small = volume-lt tail (fits-Fits tail (NonNegative-drop (suc i) ds all) done) in
      let positive = (rw here at (NonNegative-drop i ds all)).0 in
      elim (Bool-cases (ltb (d * volume tail) (2 ^ 63))) [
        | inl inside ↦
            strides_loop-partial w d₀ ds i h
              (rw here (mul_i64-fits (volume tail) d w small positive (ground arith)))
            ∙ strides_loop-fits i (omega arith) (rw (here, inside) done)
        | inr outside ↦
            strides_loop-panicked w d₀ ds i _ h
              (mul_i64-out (volume tail) d w checked small positive outside)
            ∙ ap outcome (sym (not_fits-drop i ds (rw (here, outside) refl)))
      ]

  outcome-if :
      outcome (fits ds)
      ≡ (if fits ds then ok (row_words (d₀ ∷ ds)) w else panicked (static_str overflow_message) w)
  outcome-if = elim (Bool-cases (fits ds)) [
    | inl all_fit ↦ rw all_fit refl
    | inr some_out ↦ rw some_out refl
  ]

compute_row_major_strides-checked :
    (w : World) (d : Word) (ds : List Word)
    → w.overflow_checks ≡ true
    → NonNegative ds
    → compute_row_major_strides (d ∷ ds) w
      ≡ (if fits ds then ok (row_words (d ∷ ds)) w else panicked (static_str overflow_message) w)
unfolding compute_row_major_strides
compute_row_major_strides-checked w d ds checked all =
    let run =
      strides_loop-fits w d ds checked all (length ds) (omega arith) (rw (drop-length ds) refl)
      ∙ outcome-if w d ds checked all in
    let start : compute_row_major_strides (d ∷ ds) w
        ≡ strides_loop (length ds) (d ∷ ds) (replicate (suc (length ds)) 1) w =
      ground arith in
    start ∙ rw (← partial-length w d ds) run

-- For every shape whose dimensions behind the first are not negative, in every build: the function
-- panics with the overflow message where the build has overflow checks and the volume of some list
-- of last dimensions behind the first is out of the range of i64, and else it returns the
-- row-major strides modulo 2 ^ 64. There is no third case, and the memory is left alone.
pub compute_row_major_strides-total :
    (w : World) (d : Word) (ds : List Word)
    → NonNegative ds
    → compute_row_major_strides (d ∷ ds) w ≡ (
        if w.overflow_checks && not (fits ds)
        then panicked (static_str overflow_message) w
        else ok (row_words (d ∷ ds)) w)
compute_row_major_strides-total w d ds all = elim (Bool-cases w.overflow_checks) [
  | inl checked ↦
      rw (compute_row_major_strides-checked w d ds checked all) (ground (arith, checked))
  | inr unchecked ↦
      rw (compute_row_major_strides-row_words w (d ∷ ds) unchecked) (ground (arith, unchecked))
]
