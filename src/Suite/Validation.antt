-- ===== src/Suite/Validation.antt =====
-- The tests of the validation helpers in rgpot-core/src/tensor.rs. No test looks at the `{:?}` of a
-- type, so any text will do for it.
use rgpot.Tensor.{rgpot_tensor_free}
use rgpot.Tensor.Validate.{validate_box_matrix, validate_atomic_numbers, validate_positions}
use rgpot.Tensor.CApi.{
  rgpot_tensor_cpu_f64_2d, rgpot_tensor_cpu_f64_matrix3, rgpot_tensor_cpu_i32_1d,
}
use rgpot.Prelude.Text.{codes, Text}
use rgpot.Layout.{f64s, null, i32s, DlDataType}
use rgpot.Foreign.{Foreign}
use rgpot.Prelude.{false, bad, ◌==◌, good, not, Bool, replicate, Result, [], ◌∷◌}
use rgpot.Memory.{◌>>=◌, Cmd, ◌>>◌}
use rgpot.Suite.{is_good, Word, with_local, assert}
use rgpot.Suite.Callbacks.{functions}

abbrev c : Foreign
c = functions null

abbrev debug : DlDataType → Text
debug t = codes "DLDataType"

abbrev is_word : Result Word Text → Word → Bool
is_word (good n) m = n == m
is_word (bad e) m = false

abbrev pub validate_positions_ok : Cmd (Unit {0})
validate_positions_ok = with_local (f64s (replicate 6 0)) λ buffer. do
  tensor ← rgpot_tensor_cpu_f64_2d buffer 2 3
  r ← validate_positions debug tensor
  assert (is_word r 2)
  rgpot_tensor_free c tensor

abbrev pub validate_positions_null : Cmd (Unit {0})
validate_positions_null = do r ← validate_positions debug null; assert (not (is_good r))

abbrev pub validate_positions_wrong_shape : Cmd (Unit {0})
validate_positions_wrong_shape = with_local (f64s (replicate 8 0)) λ buffer. do
  tensor ← rgpot_tensor_cpu_f64_2d buffer 2 4
  r ← validate_positions debug tensor
  assert (not (is_good r))
  rgpot_tensor_free c tensor

abbrev pub validate_positions_wrong_dtype : Cmd (Unit {0})
validate_positions_wrong_dtype = with_local (i32s (replicate 6 0)) λ buffer. do
  tensor ← rgpot_tensor_cpu_i32_1d buffer 6
  r ← validate_positions debug tensor
  assert (not (is_good r))
  rgpot_tensor_free c tensor

abbrev pub validate_atomic_numbers_ok : Cmd (Unit {0})
validate_atomic_numbers_ok = with_local (i32s (1 ∷ 8 ∷ [])) λ buffer. do
  tensor ← rgpot_tensor_cpu_i32_1d buffer 2
  r ← validate_atomic_numbers debug tensor 2
  assert (is_good r)
  rgpot_tensor_free c tensor

abbrev pub validate_atomic_numbers_wrong_count : Cmd (Unit {0})
validate_atomic_numbers_wrong_count = with_local (i32s (1 ∷ 8 ∷ [])) λ buffer. do
  tensor ← rgpot_tensor_cpu_i32_1d buffer 2
  r ← validate_atomic_numbers debug tensor 3
  assert (not (is_good r))
  rgpot_tensor_free c tensor

abbrev pub validate_box_matrix_ok : Cmd (Unit {0})
validate_box_matrix_ok = with_local (f64s (replicate 9 0)) λ buffer. do
  tensor ← rgpot_tensor_cpu_f64_matrix3 buffer
  r ← validate_box_matrix debug tensor
  assert (is_good r)
  rgpot_tensor_free c tensor

abbrev pub validate_box_matrix_wrong_shape : Cmd (Unit {0})
validate_box_matrix_wrong_shape = with_local (f64s (replicate 6 0)) λ buffer. do
  tensor ← rgpot_tensor_cpu_f64_2d buffer 2 3
  r ← validate_box_matrix debug tensor
  assert (not (is_good r))
  rgpot_tensor_free c tensor
