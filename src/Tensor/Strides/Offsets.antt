-- ===== src/Tensor/Strides/Offsets.antt =====
-- Where the strides put the elements of a tensor.
use native.Mathlib.Nat.{mul-le-mul_right}
use mathlib.Core.Path.{ap₂}
use rgpot.Prelude.{ℕ, ◌+◌, ◌*◌, ◌≤◌, ◌<◌, ◌≡◌, refl, ap, List, [], ◌∷◌, arith, ◌↔◌, ◌⊎◌, inl, inr}
use rgpot.Prelude.Words.{Word}
use rgpot.Memory.{World, ok}
use rgpot.Tensor.{compute_row_major_strides}
use rgpot.Tensor.Strides.{volume, row_major, Fits, compute_row_major_strides-row_major}

-- The element that an index addresses: the sum of the products with the strides.
abbrev pub offset : List ℕ → List ℕ → ℕ
offset [] idx = 0
offset (s ∷ ss) [] = 0
offset (s ∷ ss) (i ∷ idx) = i * s + offset ss idx

-- One number below each dimension.
abbrev pub IsIndex : List Word → List ℕ → Type 0
IsIndex [] [] = Unit {0}
IsIndex [] (i ∷ idx) = ⊥
IsIndex (d ∷ ds) [] = ⊥
IsIndex (d ∷ ds) (i ∷ idx) = (i < d) × IsIndex ds idx

offset-lt : (ds : List Word) (idx : List ℕ) → IsIndex ds idx → offset (row_major ds) idx < volume ds
offset-lt [] [] h = omega arith
offset-lt [] (i ∷ idx) h = elim h [ ]
offset-lt (d ∷ ds) [] h = elim h [ ]
offset-lt (d ∷ ds) (i ∷ idx) h =
    let below = offset-lt ds idx h.1 in
    let more : (i + 1) * volume ds ≤ d * volume ds =
      mul-le-mul_right (volume ds) (omega (arith, h.0)) in
    omega arith

-- A larger quotient makes a larger sum.
quotient-lt : (v i j o p : ℕ) → o < v → i < j → i * v + o < j * v + p
quotient-lt v i j o p ho h =
    let more : (i + 1) * v ≤ j * v = mul-le-mul_right v (omega arith) in omega arith

quotients : (i j : ℕ) → (i < j) ⊎ (j < i) ⊎ (i ≡ j)
quotients i j = ground arith

-- A quotient and a remainder are told by the sum.
quotient-remainder : (v i j o p : ℕ) → o < v → p < v → i * v + o ≡ j * v + p → (i ≡ j) × (o ≡ p)
quotient-remainder v i j o p ho hp h = elim (quotients i j) [
  | inl less ↦ absurd (let lt = quotient-lt v i j o p ho less in omega arith)
  | inr (inl more) ↦ absurd (let lt = quotient-lt v j i p o hp more in omega arith)
  | inr (inr same) ↦ (same, omega (arith, ap (λ k. k * v) same))
]

offset-injective :
    (ds : List Word) (idx idx' : List ℕ)
    → IsIndex ds idx
    → IsIndex ds idx'
    → offset (row_major ds) idx ≡ offset (row_major ds) idx'
    → idx ≡ idx'
offset-injective [] [] [] h h' e = refl
offset-injective [] [] (j ∷ idx') h h' e = elim h' [ ]
offset-injective [] (i ∷ idx) idx' h h' e = elim h [ ]
offset-injective (d ∷ ds) [] idx' h h' e = elim h [ ]
offset-injective (d ∷ ds) (i ∷ idx) [] h h' e = elim h' [ ]
offset-injective (d ∷ ds) (i ∷ idx) (j ∷ idx') h h' e =
    let (same, same') =
      quotient-remainder (volume ds) i j (offset (row_major ds) idx) (offset (row_major ds) idx')
        (offset-lt ds idx h.1) (offset-lt ds idx' h'.1) e in
    ap₂ ◌∷◌ same (offset-injective ds idx idx' h.1 h'.1 same')

-- With the strides that are computed for a shape whose dimensions fit i64 with their volumes, each
-- index lies within the volume of the tensor, and no two indices lie at the same place.
pub compute_row_major_strides-offset :
    (w : World) (d : Word) (ds : List Word) (idx idx' : List ℕ)
    → Fits ds
    → IsIndex (d ∷ ds) idx
    → IsIndex (d ∷ ds) idx'
    → (strides : List Word) × (compute_row_major_strides (d ∷ ds) w ≡ ok strides w)
      × (offset strides idx < volume (d ∷ ds))
      × ((offset strides idx ≡ offset strides idx') ↔ (idx ≡ idx'))
compute_row_major_strides-offset w d ds idx idx' fits h h' = (
  row_major (d ∷ ds),
  compute_row_major_strides-row_major w d ds fits,
  offset-lt (d ∷ ds) idx h,
  (offset-injective (d ∷ ds) idx idx' h h', ap (offset (row_major (d ∷ ds)))),
)
