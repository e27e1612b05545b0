-- ===== src/Suite/CPotential.antt =====
-- The tests in rgpot-core/src/c_api/potential.rs.
pub mod Counted
pub mod Released
pub mod Repeated
use rgpot.Status.{from_c_chars, rgpot_last_error}
use rgpot.CApi.Types.{rgpot_force_input_create, rgpot_force_input_free, empty_out}
use rgpot.Tensor.{rgpot_tensor_free}
use rgpot.Layout.{is_null, i32s, f64s, force_input, null, force_out, ForceInput, object}
use rgpot.CApi.Potential.{rgpot_potential_new, rgpot_potential_calculate, rgpot_potential_free}
use rgpot.Foreign.{Foreign}
use rgpot.Prelude.{not, ℕ, ◌*◌, List, [], ◌∷◌, arith, none, some}
use rgpot.Memory.{mul_usize, store, alloc, dealloc, pure, ◌>>=◌, Cmd, ◌>>◌}
use rgpot.Suite.{
  codes, same_numbers, cube, ones, internal_error, invalid_parameter, success, same_status, zeros,
  ForceOut, Ptr, Word, assert_eq, as_f64, with_local, read_out, assert,
}
use rgpot.Suite.Callbacks.{
  free_ptr, read_object, modify_out, counting_ptr, failing_ptr, sum_ptr, functions,
}

-- The three arrays of a test by their addresses, and the input over them. The arrays are moved out of
-- `make_test_input`, but nothing reads the tensors' data afterwards.
pub record TestInput : Type 0 where
  pub pos : Ptr
  pub atmnrs : Ptr
  pub box : Ptr
  pub input : ForceInput

unfoldable pub make_test_input : Cmd TestInput
make_test_input = do
  pos ← alloc (f64s (0 ∷ 0 ∷ 0 ∷ as_f64 1 ∷ 0 ∷ 0 ∷ []))
  atmnrs ← alloc (i32s (1 ∷ 1 ∷ []))
  box ← alloc (f64s cube)
  input ← rgpot_force_input_create 2 pos atmnrs box
  pure (record { pos = pos; atmnrs = atmnrs; box = box; input = input })

abbrev drop_test_input : TestInput → Cmd (Unit {0})
drop_test_input t = do dealloc t.box; dealloc t.atmnrs; dealloc t.pos

unfoldable pub cleanup : Foreign → (input output : Ptr) → Cmd (Unit {0})
cleanup c input output = do
  o ← read_out output
  rgpot_tensor_free c o.forces
  rgpot_force_input_free c input
  modify_out output λ o. record o { forces = null }

-- A body with a test input on the stack.
abbrev with_test_input : (Ptr → Cmd (Unit {0})) → Cmd (Unit {0})
with_test_input body = do
  t ← make_test_input
  with_local (force_input t.input) body
  drop_test_input t

-- A body with an empty output on the stack.
abbrev pub with_output : (Ptr → Cmd (Unit {0})) → Cmd (Unit {0})
with_output = with_local (force_out empty_out)

abbrev c : Foreign
c = functions null

abbrev pub new_returns_non_null : Cmd (Unit {0})
new_returns_non_null = do
  pot ← rgpot_potential_new sum_ptr null none
  assert (not (is_null pot))
  rgpot_potential_free c pot

abbrev pub free_null_is_noop : Cmd (Unit {0})
free_null_is_noop = rgpot_potential_free c null

abbrev pub calculate_null_pot_returns_invalid_parameter : Cmd (Unit {0})
calculate_null_pot_returns_invalid_parameter = with_test_input λ input. with_output λ output. do
  status ← rgpot_potential_calculate c null input output
  assert (same_status status invalid_parameter)
  rgpot_force_input_free c input

abbrev pub calculate_null_input_returns_invalid_parameter : Cmd (Unit {0})
calculate_null_input_returns_invalid_parameter = do
  pot ← rgpot_potential_new sum_ptr null none
  with_output λ output. do
    status ← rgpot_potential_calculate c pot null output
    assert (same_status status invalid_parameter)
    rgpot_potential_free c pot

abbrev pub calculate_null_output_returns_invalid_parameter : Cmd (Unit {0})
calculate_null_output_returns_invalid_parameter = do
  pot ← rgpot_potential_new sum_ptr null none
  with_test_input λ input. do
    status ← rgpot_potential_calculate c pot input null
    assert (same_status status invalid_parameter)
    rgpot_force_input_free c input
    rgpot_potential_free c pot

abbrev pub full_lifecycle_new_calculate_free : Cmd (Unit {0})
full_lifecycle_new_calculate_free = do
  pot ← rgpot_potential_new sum_ptr null none
  with_test_input λ input. with_output λ output. do
    status ← rgpot_potential_calculate c pot input output
    assert (same_status status success)
    o ← read_out output
    assert_eq o.energy (as_f64 2)
    assert (not (is_null o.forces))
    cleanup c input output
    rgpot_potential_free c pot

abbrev pub callback_error_propagates : Cmd (Unit {0})
callback_error_propagates = do
  pot ← rgpot_potential_new failing_ptr null none
  with_test_input λ input. with_output λ output. do
    status ← rgpot_potential_calculate c pot input output
    assert (same_status status internal_error)
    msg ← rgpot_last_error
    assert (same_numbers (from_c_chars msg) (codes "deliberately failed"))
    rgpot_force_input_free c input
    rgpot_potential_free c pot

abbrev pub user_data_is_forwarded_to_callback : Cmd (Unit {0})
user_data_is_forwarded_to_callback = with_local (object 0) λ counter. do
  pot ← rgpot_potential_new counting_ptr counter none
  with_test_input λ input. with_output λ output. do
    rgpot_potential_calculate c pot input output
    first ← read_object counter
    assert_eq first 1
    o ← read_out output
    assert_eq o.energy (as_f64 1)
    rgpot_potential_calculate c pot input output
    second ← read_object counter
    assert_eq second 2
    o' ← read_out output
    assert_eq o'.energy (as_f64 2)
    rgpot_force_input_free c input
    rgpot_potential_free c pot

-- `FREE_CALLED` is a static of its own.
abbrev pub free_fn_is_invoked_on_drop : Cmd (Unit {0})
free_fn_is_invoked_on_drop = with_local (object 0) λ free_called. do
  store free_called (object 0)
  with_local (object 42) λ dummy. do
    pot ← rgpot_potential_new sum_ptr dummy (some free_ptr)
    before ← read_object free_called
    assert_eq before 0
    rgpot_potential_free (functions free_called) pot
    after ← read_object free_called
    assert_eq after 1

-- One round of the loop over `n`.
unfoldable pub calculate_once : Ptr → Word → Cmd (Unit {0})
calculate_once pot n = do
  len ← mul_usize n 3
  elements ← zeros len
  with_local (f64s elements) λ pos. with_local (i32s (ones n)) λ atmnrs.
      with_local (f64s cube) λ box. do
        i ← rgpot_force_input_create n pos atmnrs box
        with_local (force_input i) λ input. with_output λ output. do
          status ← rgpot_potential_calculate c pot input output
          assert (same_status status success)
          o ← read_out output
          assert_eq o.energy (as_f64 n)
          cleanup c input output

abbrev pub for_each : List Word → (Word → Cmd (Unit {0})) → Cmd (Unit {0})
for_each [] body = pure tt
for_each (n ∷ ns) body = body n >> for_each ns body

abbrev pub multiple_calculations_same_handle : Cmd (Unit {0})
multiple_calculations_same_handle = do
  pot ← rgpot_potential_new sum_ptr null none
  for_each (1 ∷ 2 ∷ 3 ∷ 4 ∷ 5 ∷ []) (calculate_once pot)
  rgpot_potential_free c pot
