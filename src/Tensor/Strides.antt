-- ===== src/Tensor/Strides.antt =====
-- What `compute_row_major_strides` computes, for every shape.
pub mod Offsets
pub mod Checked
use rgpot.Prelude.{
  ℕ, zero, suc, ◌*◌, ◌^◌, ◌<◌, ◌≤◌, ◌≡◌, refl, ap, ◌∙◌, sym, Bool, true, false, List, [], ◌∷◌, ◌++◌,
  arith, length, replicate-snoc, get_or, set, drop, replicate,
}
use rgpot.Memory.{Payload, panicked, World, ok, mul_i64, mul_checked}
use mathlib.Core.Path.{ap₂}
use rgpot.Prelude.Words.{Word, wrap, mul_i64_overflows, wrap-mul_wrap}
use rgpot.Tensor.{strides_loop, compute_row_major_strides}

-- The product of the dimensions.
abbrev pub volume : List Word → ℕ
volume [] = 1
volume (d ∷ ds) = d * volume ds

-- The row-major strides, with no bound: each is the volume of the dimensions behind it.
abbrev pub row_major : List Word → List ℕ
row_major [] = []
row_major (d ∷ ds) = volume ds ∷ row_major ds

-- The same in 64 bits.
abbrev pub row_words : List Word → List Word
row_words [] = []
row_words (d ∷ ds) = wrap (volume ds) ∷ row_words ds

-- Neither a dimension nor the volume from it on is too large for i64.
abbrev pub Fits : List Word → Type 0
Fits [] = Unit {0}
Fits (d ∷ ds) = (d < 2 ^ 63) × (volume (d ∷ ds) < 2 ^ 63) × Fits ds

-- No product of the loop over these dimensions panics.
abbrev Steps : World → List Word → Type 0
Steps w [] = Unit {0}
Steps w (d ∷ ds) = (mul_i64 (wrap (volume ds)) d w ≡ ok (wrap (volume (d ∷ ds))) w) × Steps w ds

module _ {ℓ} {A : Type ℓ} where
  pub drop-eq-cons :
      (i : ℕ) (xs : List A) (a : A) → i < length xs → drop i xs ≡ get_or xs i a ∷ drop (suc i) xs
  drop-eq-cons i [] a h = elim h [ ]
  drop-eq-cons zero (x ∷ xs) a h = refl
  drop-eq-cons (suc i) (x ∷ xs) a h = drop-eq-cons i xs a (omega arith)

  get_or-replicate : (k : ℕ) (a d y : A) (ys : List A) → get_or (replicate k a ++ y ∷ ys) k d ≡ y
  get_or-replicate zero a d y ys = refl
  get_or-replicate (suc k) a d y ys = get_or-replicate k a d y ys

  set-replicate :
      (i : ℕ) (a v : A) (ys : List A)
      → set (replicate (suc i) a ++ ys) i v ≡ replicate i a ++ v ∷ ys
  set-replicate zero a v ys = refl
  set-replicate (suc i) a v ys = ap (λ t. a ∷ t) (set-replicate i a v ys)

  drop-length : (xs : List A) → drop (length xs) xs ≡ []
  drop-length [] = refl
  drop-length (x ∷ xs) = drop-length xs

Steps-drop : (w : World) (i : ℕ) (ds : List Word) → Steps w ds → Steps w (drop i ds)
Steps-drop w zero ds h = h
Steps-drop w (suc i) [] h = tt
Steps-drop w (suc i) (d ∷ ds) h = Steps-drop w i ds h.1

strides_loop-suc :
    (i : ℕ) (shape strides : List Word) (v : Word) (w : World)
    → mul_i64 (get_or strides (suc i) 0) (get_or shape (suc i) 0) w ≡ ok v w
    → strides_loop (suc i) shape strides w ≡ strides_loop i shape (set strides i v) w
unfolding strides_loop
strides_loop-suc i shape strides v w h = rw h refl

module _ (w : World) (d₀ : Word) (ds : List Word) where
  -- The vector when the indices from `k` on are done.
  abbrev pub partial : ℕ → List Word
  partial k = replicate k 1 ++ row_words (drop k (d₀ ∷ ds))

  pub partial-length : partial (length ds) ≡ replicate (suc (length ds)) 1
  partial-length =
      rw (drop-eq-cons (length ds) (d₀ ∷ ds) 0 (omega arith), drop-length ds)
        (sym (replicate-snoc (length ds) 1))

  set-partial :
      (i : ℕ) → i < length ds → set (partial (suc i)) i (wrap (volume (drop i ds))) ≡ partial i
  set-partial i h =
      rw (drop-eq-cons i (d₀ ∷ ds) 0 (omega arith))
        (set-replicate i 1 (wrap (volume (drop i ds))) (row_words (drop i ds)))

  get_or-partial :
      (i : ℕ) → i < length ds → get_or (partial (suc i)) (suc i) 0 ≡ wrap (volume (drop (suc i) ds))
  get_or-partial i h =
      rw (drop-eq-cons i ds 0 h) (get_or-replicate (suc i) 1 0 _ (row_words (drop (suc i) ds)))

  -- One round whose product is computed.
  pub strides_loop-partial :
      (i : ℕ)
      → i < length ds
      → mul_i64 (wrap (volume (drop (suc i) ds))) (get_or ds i 0) w
        ≡ ok (wrap (volume (drop i ds))) w
      → strides_loop (suc i) (d₀ ∷ ds) (partial (suc i)) w ≡ strides_loop i (d₀ ∷ ds) (partial i) w
  strides_loop-partial i h e =
      strides_loop-suc i (d₀ ∷ ds) (partial (suc i)) _ w (rw (get_or-partial i h) e)
      ∙ ap (λ t. strides_loop i (d₀ ∷ ds) t w) (set-partial i h)

  -- One round whose product panics.
  pub strides_loop-panicked :
      (i : ℕ) (e : Payload)
      → i < length ds
      → mul_i64 (wrap (volume (drop (suc i) ds))) (get_or ds i 0) w ≡ panicked e w
      → strides_loop (suc i) (d₀ ∷ ds) (partial (suc i)) w ≡ panicked e w
  unfolding strides_loop
  strides_loop-panicked i e h out = rw (get_or-partial i h, out) refl

module _ (w : World) (d₀ : Word) (ds : List Word) (steps : Steps w ds) where
  mul_i64-drop :
      (i : ℕ)
      → i < length ds
      → mul_i64 (wrap (volume (drop (suc i) ds))) (get_or ds i 0) w
        ≡ ok (wrap (volume (drop i ds))) w
  mul_i64-drop i h =
      let here = drop-eq-cons i ds 0 h in rw here (rw here at (Steps-drop w i ds steps)).0

  strides_loop-row_words :
      (k : ℕ)
      → k ≤ length ds
      → strides_loop k (d₀ ∷ ds) (partial w d₀ ds k) w ≡ ok (row_words (d₀ ∷ ds)) w
  strides_loop-row_words zero h = unfold strides_loop in refl
  strides_loop-row_words (suc i) h =
      strides_loop-partial w d₀ ds i h (mul_i64-drop i h) ∙ strides_loop-row_words i (omega arith)

  compute_row_major_strides-Steps :
      compute_row_major_strides (d₀ ∷ ds) w ≡ ok (row_words (d₀ ∷ ds)) w
  unfolding compute_row_major_strides
  compute_row_major_strides-Steps =
      rw (← partial-length w d₀ ds)
        (ground (arith, strides_loop-row_words (length ds) (omega arith)))

pub mul_checked-wraps :
    (out : Bool) (a b : ℕ) (w : World)
    → w.overflow_checks ≡ false
    → mul_checked out a b w ≡ ok (wrap (a * b)) w
mul_checked-wraps true a b w h = rw h refl
mul_checked-wraps false a b w h = refl

mul_i64-wraps :
    (a b : ℕ) (w : World) → w.overflow_checks ≡ false → mul_i64 (wrap a) b w ≡ ok (wrap (b * a)) w
unfolding mul_i64
mul_i64-wraps a b w h =
    mul_checked-wraps (mul_i64_overflows (wrap a) b) (wrap a) b w h
    ∙ ap (λ n. ok n w) (wrap-mul_wrap a b)

pub mul_i64-fits :
    (a b : ℕ) (w : World)
    → a < 2 ^ 63
    → b < 2 ^ 63
    → b * a < 2 ^ 63
    → mul_i64 (wrap a) b w ≡ ok (wrap (b * a)) w
unfolding mul_i64
mul_i64-fits a b w ha hb h = ground arith

Steps-wraps : (w : World) (ds : List Word) → w.overflow_checks ≡ false → Steps w ds
Steps-wraps w [] h = tt
Steps-wraps w (d ∷ ds) h = (mul_i64-wraps (volume ds) d w h, Steps-wraps w ds h)

pub volume-lt : (ds : List Word) → Fits ds → volume ds < 2 ^ 63
volume-lt [] h = omega arith
volume-lt (d ∷ ds) h = h.1

Steps-Fits : (w : World) (ds : List Word) → Fits ds → Steps w ds
Steps-Fits w [] h = tt
Steps-Fits w (d ∷ ds) h =
    (mul_i64-fits (volume ds) d w (volume-lt ds h.2) h.0 h.1, Steps-Fits w ds h.2)

pub row_words-eq-row_major :
    (d : Word) (ds : List Word) → Fits ds → row_words (d ∷ ds) ≡ row_major (d ∷ ds)
row_words-eq-row_major d [] h = refl
row_words-eq-row_major d (e ∷ ds) h =
    ap₂ ◌∷◌ (let small = volume-lt (e ∷ ds) h in omega arith) (row_words-eq-row_major e ds h.2)

-- For a shape whose dimensions behind the first fit i64 with their volumes, the strides are the
-- row-major ones, in debug and in release builds, and the memory is left alone.
pub compute_row_major_strides-row_major :
    (w : World) (d : Word) (ds : List Word)
    → Fits ds
    → compute_row_major_strides (d ∷ ds) w ≡ ok (row_major (d ∷ ds)) w
compute_row_major_strides-row_major w d ds h =
    compute_row_major_strides-Steps w d ds (Steps-Fits w ds h)
    ∙ ap (λ t. ok t w) (row_words-eq-row_major d ds h)

-- Without overflow checks every shape gets the row-major strides modulo 2 ^ 64.
pub compute_row_major_strides-row_words :
    (w : World) (shape : List Word)
    → w.overflow_checks ≡ false
    → compute_row_major_strides shape w ≡ ok (row_words shape) w
unfolding compute_row_major_strides
compute_row_major_strides-row_words w [] h = refl
compute_row_major_strides-row_words w (d ∷ ds) h =
    compute_row_major_strides-Steps w d ds (Steps-wraps w ds h)
