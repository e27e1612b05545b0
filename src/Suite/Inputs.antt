-- ===== src/Suite/Inputs.antt =====
-- The tests in rgpot-core/src/types.rs and rgpot-core/src/c_api/types.rs.
use rgpot.Tensor.{cpu, rgpot_tensor_free}
use rgpot.Tensor.CApi.{
  rgpot_tensor_cpu_f64_matrix3, rgpot_tensor_cpu_i32_1d, rgpot_tensor_cpu_f64_2d,
}
use rgpot.Types.{n_atoms}
use rgpot.CApi.Types.{rgpot_force_input_create, rgpot_force_out_create, rgpot_force_input_free}
use rgpot.Layout.{force_input, is_null, force_out, i32s, f64s, null}
use rgpot.Foreign.{Foreign}
use rgpot.Prelude.{not, replicate, ◌^◌, ◌+◌, [], ◌∷◌}
use rgpot.Memory.{as_input, load, f64_slice, ◌>>=◌, Cmd, ◌>>◌}
use rgpot.Suite.{
  same_numbers, neg_f64, is_some_of, ones, ten, cube, is_none, ForceOut, Double, assert_eq, as_f64,
  with_local, read_out, assert,
}
use rgpot.Suite.Callbacks.{modify_out, functions}
use rgpot.Suite.Tensors.{dl_tensor_of, assert_words, six}

abbrev c : Foreign
c = functions null

abbrev pub n_atoms_from_positions_tensor : Cmd (Unit {0})
n_atoms_from_positions_tensor = with_local (f64s (replicate 6 0)) λ pos. do
  tensor ← rgpot_tensor_cpu_f64_2d pos 2 3
  n ← n_atoms (record { positions = tensor; atomic_numbers = null; box_matrix = null })
  assert (is_some_of n 2)
  rgpot_tensor_free c tensor

abbrev pub n_atoms_null_positions : Cmd (Unit {0})
n_atoms_null_positions = do
  n ← n_atoms (record { positions = null; atomic_numbers = null; box_matrix = null })
  assert (is_none n)

abbrev pub force_out_starts_with_null_forces : Cmd (Unit {0})
force_out_starts_with_null_forces = do
  let out : ForceOut = record { forces = null; energy = 0; variance = 0 }
  assert (is_null out.forces)
  assert_eq out.energy 0
  assert_eq out.variance 0

-- 1.5 and 2.5
abbrev one_and_half : Double
one_and_half = as_f64 1 + 2 ^ 51

abbrev two_and_half : Double
two_and_half = as_f64 2 + 2 ^ 50

abbrev pub force_out_energy_and_variance_are_independent : Cmd (Unit {0})
force_out_energy_and_variance_are_independent =
    let start : ForceOut = record {
      forces = null;
      energy = one_and_half;
      variance = two_and_half;
    } in
    with_local (force_out start) λ p. do
      out ← read_out p
      assert_eq out.energy one_and_half
      assert_eq out.variance two_and_half
      modify_out p λ o. record o { energy = neg_f64 (as_f64 3) }
      out' ← read_out p
      assert_eq out'.energy (neg_f64 (as_f64 3))
      assert_eq out'.variance two_and_half

abbrev pub full_input_with_tensors : Cmd (Unit {0})
full_input_with_tensors =
    let numbers = 0 ∷ 0 ∷ 0 ∷ as_f64 1 ∷ 0 ∷ 0 ∷ [] in
    with_local (f64s numbers) λ pos. with_local (i32s (1 ∷ 1 ∷ [])) λ atmnrs.
      with_local (f64s cube) λ box. do
        pos_t ← rgpot_tensor_cpu_f64_2d pos 2 3
        atm_t ← rgpot_tensor_cpu_i32_1d atmnrs 2
        box_t ← rgpot_tensor_cpu_f64_matrix3 box
        n ← n_atoms (record { positions = pos_t; atomic_numbers = atm_t; box_matrix = box_t })
        assert (is_some_of n 2)
        pt ← dl_tensor_of pos_t
        numbers' ← f64_slice pt.elements 6
        assert (same_numbers numbers' numbers)
        rgpot_tensor_free c pos_t
        rgpot_tensor_free c atm_t
        rgpot_tensor_free c box_t

abbrev pub force_input_create_produces_valid_tensors : Cmd (Unit {0})
force_input_create_produces_valid_tensors = with_local (f64s six) λ pos.
    with_local (i32s (6 ∷ 1 ∷ [])) λ atmnrs. with_local (f64s (replicate 9 ten)) λ box. do
      input ← rgpot_force_input_create 2 pos atmnrs box
      assert (not (is_null input.positions))
      assert (not (is_null input.atomic_numbers))
      assert (not (is_null input.box_matrix))
      pt ← dl_tensor_of input.positions
      assert_eq pt.ndim 2
      assert_eq pt.device.device_type cpu
      assert_words pt.shape (2 ∷ 3 ∷ [])
      numbers ← f64_slice pt.elements 6
      assert (same_numbers numbers six)
      with_local (force_input input) λ p. do
        rgpot_force_input_free c p
        freed ← load p >>= as_input
        assert (is_null freed.positions)

abbrev pub force_input_free_null_is_noop : Cmd (Unit {0})
force_input_free_null_is_noop = rgpot_force_input_free c null

abbrev pub force_out_create_starts_null : Cmd (Unit {0})
force_out_create_starts_null = do
  out ← rgpot_force_out_create
  assert (is_null out.forces)
  assert_eq out.energy 0
  assert_eq out.variance 0

abbrev pub force_input_n_atoms_accessor : Cmd (Unit {0})
force_input_n_atoms_accessor = with_local (f64s (replicate 9 0)) λ pos.
    with_local (i32s (ones 3)) λ atmnrs. with_local (f64s (replicate 9 0)) λ box. do
      input ← rgpot_force_input_create 3 pos atmnrs box
      n ← n_atoms input
      assert (is_some_of n 3)
      with_local (force_input input) λ p. rgpot_force_input_free c p
