-- ===== src/Suite/Tensors.antt =====
-- The tests of the tensors and the strides in rgpot-core/src/tensor.rs.
use rgpot.Tensor.CApi.{
  rgpot_tensor_shape, rgpot_tensor_device, rgpot_tensor_cpu_f64_matrix3, rgpot_tensor_data,
  rgpot_tensor_cpu_i32_1d, rgpot_tensor_cpu_f64_2d, rgpot_tensor_owned_cpu_f64_2d,
}
use rgpot.Tensor.{
  dtype_i32, dtype_f64, cpu_device, cpu, create_owned_f64_tensor, compute_row_major_strides,
  create_owned_i32_tensor, rgpot_tensor_free,
}
use rgpot.Layout.{is_null, object, DlTensor, i32s, f64s, null, DlDevice}
use rgpot.Foreign.{Foreign}
use rgpot.Tensor.Validate.{eq_dtype}
use rgpot.Prelude.{get_or, ◌&&◌, not, length, ◌%◌, replicate, ◌/◌, ◌==◌, Bool, map, List, [], ◌∷◌}
use rgpot.Memory.{pure, f64_slice, i32_slice, as_managed, load, i64_slice, ◌>>=◌, Cmd, ◌>>◌}
use rgpot.Suite.{same_numbers, Double, Word, Ptr, assert_eq, as_f64, with_local, assert}
use rgpot.Suite.Callbacks.{read_object, functions}

abbrev c : Foreign
c = functions null

-- 1.0 to 6.0
abbrev pub six : List Double
six = map as_f64 (1 ∷ 2 ∷ 3 ∷ 4 ∷ 5 ∷ 6 ∷ [])

abbrev pub dl_tensor_of : Ptr → Cmd DlTensor
dl_tensor_of t = do m ← load t >>= as_managed; pure m.dl_tensor

-- `PartialEq` of `DLDevice`
abbrev eq_device : DlDevice → DlDevice → Bool
eq_device a b = (a.device_type == b.device_type) && (a.device_id == b.device_id)

abbrev pub assert_words : Ptr → List Word → Cmd (Unit {0})
assert_words p expected = do
  words ← i64_slice p (length expected)
  assert (same_numbers words expected)

abbrev pub borrowed_f64_2d_has_correct_metadata : Cmd (Unit {0})
borrowed_f64_2d_has_correct_metadata = with_local (f64s six) λ buffer. do
  tensor ← rgpot_tensor_cpu_f64_2d buffer 2 3
  assert (not (is_null tensor))
  t ← dl_tensor_of tensor
  assert (eq_device t.device cpu_device)
  assert (eq_dtype t.dtype dtype_f64)
  assert_eq t.ndim 2
  assert_words t.shape (2 ∷ 3 ∷ [])
  assert_words t.strides (3 ∷ 1 ∷ [])
  assert_eq t.byte_offset 0
  assert_eq t.elements buffer
  rgpot_tensor_free c tensor
  kept ← f64_slice buffer 6
  assert_eq (get_or kept 0 0) (as_f64 1)

abbrev pub borrowed_i32_1d_has_correct_metadata : Cmd (Unit {0})
borrowed_i32_1d_has_correct_metadata = with_local (i32s (6 ∷ 1 ∷ 8 ∷ [])) λ buffer. do
  tensor ← rgpot_tensor_cpu_i32_1d buffer 3
  assert (not (is_null tensor))
  t ← dl_tensor_of tensor
  assert (eq_dtype t.dtype dtype_i32)
  assert_eq t.ndim 1
  assert_words t.shape (3 ∷ [])
  rgpot_tensor_free c tensor
  kept ← i32_slice buffer 3
  assert_eq (get_or kept 2 0) 8

abbrev pub borrowed_matrix3_is_3x3 : Cmd (Unit {0})
borrowed_matrix3_is_3x3 = with_local (f64s (replicate 9 0)) λ buffer. do
  tensor ← rgpot_tensor_cpu_f64_matrix3 buffer
  t ← dl_tensor_of tensor
  assert_eq t.ndim 2
  assert_words t.shape (3 ∷ 3 ∷ [])
  rgpot_tensor_free c tensor

-- `flags & DLPACK_FLAG_BITMASK_IS_COPIED != 0`: the second lowest bit.
abbrev is_copied : Word → Bool
is_copied flags = (flags / 2) % 2 == 1

abbrev pub owned_f64_tensor_survives_source_drop : Cmd (Unit {0})
owned_f64_tensor_survives_source_drop = do
  tensor ← create_owned_f64_tensor six (2 ∷ 3 ∷ [])
  m ← load tensor >>= as_managed
  slice ← f64_slice m.dl_tensor.elements 6
  assert (same_numbers slice six)
  assert (is_copied m.flags)
  rgpot_tensor_free c tensor

abbrev pub owned_i32_tensor_survives_source_drop : Cmd (Unit {0})
owned_i32_tensor_survives_source_drop = do
  tensor ← create_owned_i32_tensor (1 ∷ 8 ∷ 6 ∷ []) (3 ∷ [])
  t ← dl_tensor_of tensor
  slice ← i32_slice t.elements 3
  assert (same_numbers slice (1 ∷ 8 ∷ 6 ∷ []))
  rgpot_tensor_free c tensor

abbrev pub owned_cpu_f64_2d_copies_data : Cmd (Unit {0})
owned_cpu_f64_2d_copies_data =
    let numbers = map as_f64 (10 ∷ 20 ∷ 30 ∷ 40 ∷ 50 ∷ 60 ∷ []) in
    with_local (f64s numbers) λ source. do
      tensor ← rgpot_tensor_owned_cpu_f64_2d source 2 3
      t ← dl_tensor_of tensor
      assert (not (t.elements == source))
      slice ← f64_slice t.elements 6
      assert (same_numbers slice numbers)
      rgpot_tensor_free c tensor

abbrev pub free_null_is_noop : Cmd (Unit {0})
free_null_is_noop = rgpot_tensor_free c null

abbrev pub device_accessor_returns_cpu : Cmd (Unit {0})
device_accessor_returns_cpu = with_local (f64s (replicate 6 0)) λ buffer. do
  tensor ← rgpot_tensor_cpu_f64_2d buffer 2 3
  dev ← rgpot_tensor_device tensor
  assert_eq dev.device_type cpu
  assert_eq dev.device_id 0
  rgpot_tensor_free c tensor

abbrev pub data_accessor_returns_correct_pointer : Cmd (Unit {0})
data_accessor_returns_correct_pointer = with_local (f64s (replicate 3 (as_f64 42))) λ buffer. do
  tensor ← rgpot_tensor_cpu_f64_2d buffer 1 3
  ptr ← rgpot_tensor_data tensor
  assert_eq ptr buffer
  rgpot_tensor_free c tensor

abbrev pub shape_accessor_returns_correct_values : Cmd (Unit {0})
shape_accessor_returns_correct_values = with_local (f64s (replicate 12 0)) λ buffer. do
  tensor ← rgpot_tensor_cpu_f64_2d buffer 4 3
  with_local (object 0) λ ndim_out. do
    shape_ptr ← rgpot_tensor_shape tensor ndim_out
    ndim ← read_object ndim_out
    assert_eq ndim 2
    assert_words shape_ptr (4 ∷ 3 ∷ [])
    rgpot_tensor_free c tensor

abbrev strides_are : List Word → List Word → Cmd (Unit {0})
strides_are shape expected = do
  strides ← compute_row_major_strides shape
  assert (same_numbers strides expected)

abbrev pub row_major_strides_1d : Cmd (Unit {0})
row_major_strides_1d = strides_are (5 ∷ []) (1 ∷ [])

abbrev pub row_major_strides_2d : Cmd (Unit {0})
row_major_strides_2d = strides_are (4 ∷ 3 ∷ []) (3 ∷ 1 ∷ [])

abbrev pub row_major_strides_3d : Cmd (Unit {0})
row_major_strides_3d = strides_are (2 ∷ 3 ∷ 4 ∷ []) (12 ∷ 4 ∷ 1 ∷ [])

abbrev pub row_major_strides_empty : Cmd (Unit {0})
row_major_strides_empty = strides_are [] []
