-- ===== src/Tests/Tensors.antt =====
-- Tensors of concrete shapes.
use rgpot.Tests.Data.{debug, empty, empty-IsWorld}
use rgpot.Prelude.{
  ℕ, ◌<◌, false, ◌+◌, ◌^◌, ◌≡◌, ◌↔◌, refl, none, List, [], ◌∷◌, arith, good, ◌==◌, if◌then◌else◌,
}
use rgpot.Prelude.Words.{Word, Double}
use rgpot.Layout.{DlDataType, Ptr, f64s, i64s, managed, object}
use rgpot.Memory.{
  World, IsWorld, SameRest, ok, aborted, ◌>>=◌, ◌>>◌, pure, dealloc, f64_slice, with_block,
}
use rgpot.Memory.Slices.{with_block-IsWorld}
use rgpot.Tensor.{compute_row_major_strides, rgpot_tensor_free, dtype_f64, dtype_i32}
use rgpot.Tensor.Strides.{compute_row_major_strides-row_major}
use rgpot.Tensor.Blocks.{borrowed_managed, IsOwned, Grown}
use rgpot.Tensor.CApi.{rgpot_tensor_owned_cpu_f64_2d, rgpot_tensor_data}
use rgpot.Tensor.Lifetime.{rgpot_tensor_owned_cpu_f64_2d_outlives}
use rgpot.Tensor.Overflow.{
  rgpot_tensor_owned_cpu_f64_2d-aborts, rgpot_tensor_owned_cpu_f64_2d-wraps,
}
use rgpot.Tensor.Validate.{validate_positions, validate_atomic_numbers, validate_box_matrix}
use rgpot.Tensor.Validate.Accepts.{
  Readable, validate_positions_iff, validate_atomic_numbers_iff, validate_box_matrix_iff,
}
use rgpot.Tensor.Strides.Offsets.{offset, compute_row_major_strides-offset}
use rgpot.Tests.Callbacks.{echo}

compute_row_major_strides-row_major_example :
    compute_row_major_strides (2 ∷ 3 ∷ 4 ∷ []) empty ≡ ok (12 ∷ 4 ∷ 1 ∷ []) empty
compute_row_major_strides-row_major_example =
    compute_row_major_strides-row_major empty 2 (3 ∷ 4 ∷ [])
      (omega arith, omega arith, (omega arith, omega arith, tt))

abbrev release_build : World
release_build = record empty { overflow_checks = false }

release_build-IsWorld : IsWorld release_build
release_build-IsWorld = record { positive = omega arith; fresh = λ p h. refl; null_unused = refl }

-- 2 ^ 32 * 2 ^ 32 is 0 in 64 bits.
wrapped_strides_test :
    compute_row_major_strides (1 ∷ 2 ^ 32 ∷ 2 ^ 32 ∷ []) release_build
    ≡ ok (0 ∷ 2 ^ 32 ∷ 1 ∷ []) release_build
unfolding compute_row_major_strides
wrapped_strides_test = refl

abbrev six : List Double
six = 1 ∷ 2 ∷ 3 ∷ 4 ∷ 5 ∷ 6 ∷ []

abbrev six_world : World
six_world = with_block (f64s six) empty

rgpot_tensor_owned_cpu_f64_2d_outlives_example :
    (w' : World) × ((do
      t ← rgpot_tensor_owned_cpu_f64_2d 1 2 3
      dealloc 1
      elements ← rgpot_tensor_data t
      copy ← f64_slice elements 6
      rgpot_tensor_free echo t
      pure copy)
        six_world
      ≡ ok six w')
    × ((q : Ptr) → w'.cell q ≡ (if q == 1 then none else six_world.cell q))
    × SameRest six_world w'
rgpot_tensor_owned_cpu_f64_2d_outlives_example =
    rgpot_tensor_owned_cpu_f64_2d_outlives echo six_world 1 2 3 six
      (with_block-IsWorld _ empty-IsWorld) (omega arith) refl (omega arith) (omega arith)
      (omega arith) refl

rgpot_tensor_owned_cpu_f64_2d-aborts_example :
    rgpot_tensor_owned_cpu_f64_2d 1 (2 ^ 62) 2 six_world ≡ aborted
rgpot_tensor_owned_cpu_f64_2d-aborts_example =
    rgpot_tensor_owned_cpu_f64_2d-aborts 1 (2 ^ 62) 2 six_world refl refl

abbrev six_release : World
six_release = with_block (f64s six) release_build

-- (2 ^ 62 + 1) * 4 is 4 in 64 bits.
rgpot_tensor_owned_cpu_f64_2d-wraps_example :
    (w' : World) × (rgpot_tensor_owned_cpu_f64_2d 1 (2 ^ 62 + 1) 4 six_release ≡ ok 6 w')
    × IsOwned w'.cell 2 (1 ∷ 2 ∷ 3 ∷ 4 ∷ []) ((2 ^ 62 + 1) ∷ 4 ∷ []) (4 ∷ 1 ∷ [])
    × Grown 5 six_release w'
rgpot_tensor_owned_cpu_f64_2d-wraps_example =
    rgpot_tensor_owned_cpu_f64_2d-wraps 1 (2 ^ 62 + 1) 4 six six_release
      (with_block-IsWorld _ release_build-IsWorld) refl (omega arith) refl (omega arith)
      (omega arith)

-- A shape at 1 and a tensor over it at 2.
abbrev shaped : List Word → DlDataType → World
shaped shape dtype =
    with_block (managed (borrowed_managed 1 100 dtype shape)) (with_block (i64s shape) empty)

abbrev five_three : List Word
five_three = 5 ∷ 3 ∷ []

abbrev three_three : List Word
three_three = 3 ∷ 3 ∷ []

abbrev five : List Word
five = 5 ∷ []

abbrev seven : List Word
seven = 7 ∷ []

matrix_Readable :
    (dtype : DlDataType) (a b : Word)
    → Readable
        (shaped (a ∷ b ∷ []) dtype)
        2
        (borrowed_managed 1 100 dtype (a ∷ b ∷ []))
        (a ∷ b ∷ [])
matrix_Readable dtype a b = record {
  live = omega arith;
  handle = refl;
  shape_live = omega arith;
  shape_block = refl;
  dimensions = refl;
}

vector_Readable :
    (dtype : DlDataType) (a : Word)
    → Readable (shaped (a ∷ []) dtype) 2 (borrowed_managed 1 100 dtype (a ∷ [])) (a ∷ [])
vector_Readable dtype a = record {
  live = omega arith;
  handle = refl;
  shape_live = omega arith;
  shape_block = refl;
  dimensions = refl;
}

validate_positions_iff_example :
    (validate_positions debug 2 (shaped five_three dtype_f64)
      ≡ ok (good 5) (shaped five_three dtype_f64))
    ↔ ((dtype_f64 ≡ dtype_f64) × (five_three ≡ five_three))
validate_positions_iff_example = validate_positions_iff debug 5 (matrix_Readable dtype_f64 5 3)

validate_atomic_numbers_iff_example :
    (validate_atomic_numbers debug 2 7 (shaped five dtype_i32)
      ≡ ok (good tt) (shaped five dtype_i32))
    ↔ ((dtype_i32 ≡ dtype_i32) × (five ≡ seven))
validate_atomic_numbers_iff_example =
    validate_atomic_numbers_iff debug 7 (vector_Readable dtype_i32 5)

validate_box_matrix_iff_example :
    (validate_box_matrix debug 2 (shaped three_three dtype_f64)
      ≡ ok (good tt) (shaped three_three dtype_f64))
    ↔ ((dtype_f64 ≡ dtype_f64) × (three_three ≡ three_three))
validate_box_matrix_iff_example = validate_box_matrix_iff debug (matrix_Readable dtype_f64 3 3)

abbrev counter_world : World
counter_world = with_block (object 0) empty

abbrev last : List ℕ
last = 1 ∷ 2 ∷ 3 ∷ []

abbrev first : List ℕ
first = 0 ∷ 0 ∷ 0 ∷ []

compute_row_major_strides-offset_example :
    (strides : List Word) × (compute_row_major_strides (2 ∷ 3 ∷ 4 ∷ []) empty ≡ ok strides empty)
    × (offset strides last < 24)
    × ((offset strides last ≡ offset strides first) ↔ (last ≡ first))
compute_row_major_strides-offset_example =
    compute_row_major_strides-offset empty 2 (3 ∷ 4 ∷ []) last first
      (omega arith, omega arith, (omega arith, omega arith, tt))
      (omega arith, (omega arith, (omega arith, tt)))
      (omega arith, (omega arith, (omega arith, tt)))
