-- ===== src/Tests/Suite.antt =====
-- Every test of the crate passes in the model, in builds with and without overflow checks.
use rgpot.Status.{set_last_error, rgpot_last_error, catch_unwind, payload_message}
use rgpot.CApi.Types.{
  rgpot_force_input_create, rgpot_force_input_free, rgpot_force_out_create, free_tensors,
  create_tensors,
}
use rgpot.CApi.Potential.{rgpot_potential_new, rgpot_potential_calculate, rgpot_potential_free}
use rgpot.Suite.CPotential.{
  make_test_input, cleanup, calculate_once, new_returns_non_null,
  calculate_null_pot_returns_invalid_parameter, calculate_null_input_returns_invalid_parameter,
  calculate_null_output_returns_invalid_parameter, full_lifecycle_new_calculate_free,
  callback_error_propagates, user_data_is_forwarded_to_callback, free_fn_is_invoked_on_drop,
  multiple_calculations_same_handle,
}
use rgpot.Tensor.Validate.{validate_positions, validate_atomic_numbers, validate_box_matrix}
use rgpot.Memory.{
  i32_slice, mul_i64, mul_usize, i64_slice, f64_slice, dealloc, store, load, Cmd, World,
}
use rgpot.Tensor.{
  create_owned_i32_tensor, rgpot_tensor_free, create_owned_f64_tensor, create_borrowed_tensor,
  compute_row_major_strides,
}
use rgpot.Tensor.CApi.{
  rgpot_tensor_owned_cpu_f64_2d, rgpot_tensor_device, rgpot_tensor_data, rgpot_tensor_shape,
  rgpot_tensor_cpu_f64_matrix3, rgpot_tensor_cpu_i32_1d, rgpot_tensor_cpu_f64_2d,
}
use rgpot.Potential.{calculate, drop}
use rgpot.Types.{n_atoms}
use rgpot.Tests.Data.{empty}
use rgpot.Prelude.{[], ◌∷◌, false, List, refl, true, ◌≡◌}
use rgpot.Suite.{all_pass}
use rgpot.Suite.CPotential
use rgpot.Suite.Tensors
use rgpot.Suite.Tensors.{
  borrowed_f64_2d_has_correct_metadata, borrowed_i32_1d_has_correct_metadata,
  borrowed_matrix3_is_3x3, owned_f64_tensor_survives_source_drop,
  owned_i32_tensor_survives_source_drop, owned_cpu_f64_2d_copies_data, device_accessor_returns_cpu,
  data_accessor_returns_correct_pointer, shape_accessor_returns_correct_values,
  row_major_strides_1d, row_major_strides_2d, row_major_strides_3d, row_major_strides_empty,
}
use rgpot.Suite.Validation.{
  validate_positions_ok, validate_positions_null, validate_positions_wrong_shape,
  validate_positions_wrong_dtype, validate_atomic_numbers_ok, validate_atomic_numbers_wrong_count,
  validate_box_matrix_ok, validate_box_matrix_wrong_shape,
}
use rgpot.Suite.Inputs.{
  n_atoms_from_positions_tensor, n_atoms_null_positions, force_out_starts_with_null_forces,
  force_out_energy_and_variance_are_independent, full_input_with_tensors,
  force_input_create_produces_valid_tensors, force_input_free_null_is_noop,
  force_out_create_starts_null, force_input_n_atoms_accessor,
}
use rgpot.Suite.Errors.{
  test_set_and_get_last_error, test_catch_unwind_success, test_catch_unwind_panic,
  test_error_overwrite, test_interior_nul_is_handled, test_catch_unwind_returns_callback_status,
  test_catch_unwind_string_panic,
}
use rgpot.Suite.Potential.{
  test_potential_callback, callback_error_status_is_returned,
  callback_writes_forces_energy_variance, drop_calls_free_fn_with_user_data,
  drop_skips_free_fn_when_user_data_is_null, drop_without_free_fn_is_safe,
  user_data_is_passed_through, new_io, make_input, free_input, drop_io, with_io,
}
use rgpot.Suite.Callbacks.{count_atoms, write_all, count_calls, fetch_add_one}

abbrev release_build : World
release_build = record empty { overflow_checks = false }

abbrev potential_tests : List (Cmd (Unit {0}))
potential_tests =
    test_potential_callback ∷ callback_error_status_is_returned
    ∷ callback_writes_forces_energy_variance ∷ drop_calls_free_fn_with_user_data
    ∷ drop_skips_free_fn_when_user_data_is_null ∷ drop_without_free_fn_is_safe
    ∷ user_data_is_passed_through ∷ []

potential_tests_test :
    (all_pass potential_tests empty ≡ true) × (all_pass potential_tests release_build ≡ true)
unfolding new_io make_input free_input drop_io with_io count_atoms write_all count_calls
    fetch_add_one n_atoms load store dealloc f64_slice i64_slice mul_usize compute_row_major_strides
    create_borrowed_tensor create_owned_f64_tensor rgpot_tensor_free rgpot_tensor_cpu_f64_2d
    rgpot_tensor_cpu_i32_1d rgpot_tensor_cpu_f64_matrix3 calculate drop
potential_tests_test = (refl, refl)

abbrev c_potential_tests : List (Cmd (Unit {0}))
c_potential_tests =
    new_returns_non_null ∷ CPotential.free_null_is_noop
    ∷ calculate_null_pot_returns_invalid_parameter ∷ calculate_null_input_returns_invalid_parameter
    ∷ calculate_null_output_returns_invalid_parameter ∷ full_lifecycle_new_calculate_free
    ∷ callback_error_propagates ∷ user_data_is_forwarded_to_callback ∷ free_fn_is_invoked_on_drop
    ∷ multiple_calculations_same_handle ∷ []

c_potential_tests_test :
    (all_pass c_potential_tests empty ≡ true) × (all_pass c_potential_tests release_build ≡ true)
unfolding load store dealloc i64_slice mul_usize compute_row_major_strides create_borrowed_tensor
    create_owned_f64_tensor rgpot_tensor_free rgpot_tensor_cpu_f64_2d rgpot_tensor_cpu_i32_1d
    rgpot_tensor_cpu_f64_matrix3 n_atoms calculate drop count_atoms count_calls fetch_add_one
    make_test_input cleanup calculate_once rgpot_potential_new rgpot_potential_calculate
    rgpot_potential_free rgpot_force_input_create rgpot_force_input_free free_tensors create_tensors
    catch_unwind set_last_error rgpot_last_error
c_potential_tests_test = (refl, refl)

abbrev tensor_tests : List (Cmd (Unit {0}))
tensor_tests =
    borrowed_f64_2d_has_correct_metadata ∷ borrowed_i32_1d_has_correct_metadata
    ∷ borrowed_matrix3_is_3x3 ∷ owned_f64_tensor_survives_source_drop
    ∷ owned_i32_tensor_survives_source_drop ∷ owned_cpu_f64_2d_copies_data
    ∷ Tensors.free_null_is_noop ∷ device_accessor_returns_cpu
    ∷ data_accessor_returns_correct_pointer ∷ shape_accessor_returns_correct_values
    ∷ row_major_strides_1d ∷ row_major_strides_2d ∷ row_major_strides_3d ∷ row_major_strides_empty
    ∷ []

tensor_tests_test :
    (all_pass tensor_tests empty ≡ true) × (all_pass tensor_tests release_build ≡ true)
unfolding load store dealloc f64_slice i32_slice i64_slice mul_i64 compute_row_major_strides
    create_borrowed_tensor create_owned_f64_tensor create_owned_i32_tensor rgpot_tensor_free
    rgpot_tensor_cpu_f64_2d rgpot_tensor_cpu_i32_1d rgpot_tensor_cpu_f64_matrix3
    rgpot_tensor_owned_cpu_f64_2d rgpot_tensor_device rgpot_tensor_data rgpot_tensor_shape
tensor_tests_test = (refl, refl)

abbrev validation_tests : List (Cmd (Unit {0}))
validation_tests =
    validate_positions_ok ∷ validate_positions_null ∷ validate_positions_wrong_shape
    ∷ validate_positions_wrong_dtype ∷ validate_atomic_numbers_ok
    ∷ validate_atomic_numbers_wrong_count ∷ validate_box_matrix_ok ∷ validate_box_matrix_wrong_shape
    ∷ []

validation_tests_test :
    (all_pass validation_tests empty ≡ true) × (all_pass validation_tests release_build ≡ true)
unfolding load dealloc i64_slice compute_row_major_strides create_borrowed_tensor rgpot_tensor_free
    rgpot_tensor_cpu_f64_2d rgpot_tensor_cpu_i32_1d rgpot_tensor_cpu_f64_matrix3 validate_positions
    validate_atomic_numbers validate_box_matrix
validation_tests_test = (refl, refl)

abbrev input_tests : List (Cmd (Unit {0}))
input_tests =
    n_atoms_from_positions_tensor ∷ n_atoms_null_positions ∷ force_out_starts_with_null_forces
    ∷ force_out_energy_and_variance_are_independent ∷ full_input_with_tensors
    ∷ force_input_create_produces_valid_tensors ∷ force_input_free_null_is_noop
    ∷ force_out_create_starts_null ∷ force_input_n_atoms_accessor ∷ []

input_tests_test : (all_pass input_tests empty ≡ true) × (all_pass input_tests release_build ≡ true)
unfolding load store dealloc f64_slice i64_slice compute_row_major_strides create_borrowed_tensor
    rgpot_tensor_free rgpot_tensor_cpu_f64_2d rgpot_tensor_cpu_i32_1d rgpot_tensor_cpu_f64_matrix3
    n_atoms rgpot_force_input_create rgpot_force_input_free rgpot_force_out_create free_tensors
    create_tensors
input_tests_test = (refl, refl)

abbrev status_tests : List (Cmd (Unit {0}))
status_tests =
    test_set_and_get_last_error ∷ test_catch_unwind_success ∷ test_catch_unwind_panic
    ∷ test_error_overwrite ∷ test_interior_nul_is_handled
    ∷ test_catch_unwind_returns_callback_status ∷ test_catch_unwind_string_panic ∷ []

status_tests_test :
    (all_pass status_tests empty ≡ true) × (all_pass status_tests release_build ≡ true)
unfolding set_last_error rgpot_last_error catch_unwind payload_message
status_tests_test = (refl, refl)
