-- ===== src/Suite/Potential.antt =====
-- The tests in rgpot-core/src/potential.rs.
use rgpot.CApi.Types.{empty_out}
use rgpot.Tensor.CApi.{
  rgpot_tensor_cpu_f64_matrix3, rgpot_tensor_cpu_i32_1d, rgpot_tensor_cpu_f64_2d,
}
use rgpot.Tensor.{rgpot_tensor_free}
use rgpot.Layout.{
  is_null, i32s, f64s, force_out, force_input, ForceInput, object, PotentialImpl, null,
}
use rgpot.Foreign.{Foreign}
use rgpot.Prelude.{map, not, [], ◌∷◌, none, some}
use rgpot.Memory.{
  f64_slice, as_managed, load, pure, alloc, store, mul_usize, dealloc, ◌>>=◌, Cmd, ◌>>◌,
}
use rgpot.Suite.{
  same_numbers, cube, neg_f64, ones, invalid_parameter, success, same_status, zeros, Word, Ptr,
  assert_eq, as_f64, with_local, read_out, assert,
}
use rgpot.Suite.Callbacks.{
  one_half, read_object, drop_ptr, error_ptr, count_ptr, sentinel, mock_ptr, writing_ptr, functions,
}
use rgpot.Potential.{new, calculate, drop}

-- The vectors and the array of a test, by the addresses of their buffers.
pub record TestIo : Type 0 where
  pub pos : Ptr
  pub atmnrs : Ptr
  pub len : Word
  pub box : Ptr

-- `TestIO::new`
unfoldable pub new_io : Word → Cmd TestIo
new_io n = do
  len ← mul_usize n 3
  elements ← zeros len
  pos ← alloc (f64s elements)
  atmnrs ← alloc (i32s (ones n))
  box ← alloc (f64s cube)
  pure (record { pos = pos; atmnrs = atmnrs; len = n; box = box })

unfoldable pub make_input : TestIo → Cmd ForceInput
make_input io = do
  positions ← rgpot_tensor_cpu_f64_2d io.pos io.len 3
  atomic_numbers ← rgpot_tensor_cpu_i32_1d io.atmnrs io.len
  box_matrix ← rgpot_tensor_cpu_f64_matrix3 io.box
  pure (record { positions = positions; atomic_numbers = atomic_numbers; box_matrix = box_matrix })

-- `self` is not used.
unfoldable pub free_input : Foreign → ForceInput → Cmd (Unit {0})
free_input c input = do
  rgpot_tensor_free c input.positions
  rgpot_tensor_free c input.atomic_numbers
  rgpot_tensor_free c input.box_matrix

unfoldable pub drop_io : TestIo → Cmd (Unit {0})
drop_io io = do dealloc io.box; dealloc io.atmnrs; dealloc io.pos

-- What five tests share: an input of `n` atoms and an empty output on the stack, and the handle; the
-- locals are dropped in the opposite order.
unfoldable pub with_io :
    Foreign
    → PotentialImpl
    → Word
    → (ForceInput → (input output : Ptr) → Cmd (Unit {0}))
    → Cmd (Unit {0})
with_io c pot n body = do
  io ← new_io n
  i ← make_input io
  with_local (force_input i) λ input. with_local (force_out empty_out) λ output. body i input output
  drop_io io
  drop c pot

abbrev pub test_potential_callback : Cmd (Unit {0})
test_potential_callback =
    let c = functions null in
    let pot = new mock_ptr null none in
    with_io c pot 3 λ i input output. do
      status ← calculate c pot input output
      assert (same_status status success)
      o ← read_out output
      assert_eq o.energy (as_f64 3)
      rgpot_tensor_free c o.forces
      free_input c i

abbrev pub callback_error_status_is_returned : Cmd (Unit {0})
callback_error_status_is_returned =
    let c = functions null in
    let pot = new error_ptr null none in
    with_io c pot 1 λ i input output. do
      status ← calculate c pot input output
      assert (same_status status invalid_parameter)
      free_input c i

abbrev pub callback_writes_forces_energy_variance : Cmd (Unit {0})
callback_writes_forces_energy_variance =
    let c = functions null in
    let pot = new writing_ptr null none in
    with_io c pot 2 λ i input output. do
      status ← calculate c pot input output
      assert (same_status status success)
      o ← read_out output
      assert_eq o.energy (neg_f64 (as_f64 42))
      assert_eq o.variance one_half
      assert (not (is_null o.forces))
      m ← load o.forces >>= as_managed
      forces ← f64_slice m.dl_tensor.elements 6
      assert (same_numbers forces (map as_f64 (1 ∷ 2 ∷ 3 ∷ 4 ∷ 5 ∷ 6 ∷ [])))
      rgpot_tensor_free c o.forces
      free_input c i

-- `DROP_CALLED` is a static of its own.
abbrev pub drop_calls_free_fn_with_user_data : Cmd (Unit {0})
drop_calls_free_fn_with_user_data = with_local (object 0) λ drop_called. do
  store drop_called (object 0)
  with_local (object sentinel) λ user_data. do
    let pot = new mock_ptr user_data (some drop_ptr)
    before ← read_object drop_called
    assert_eq before 0
    drop (functions drop_called) pot
    after ← read_object drop_called
    assert_eq after 1

abbrev pub drop_skips_free_fn_when_user_data_is_null : Cmd (Unit {0})
drop_skips_free_fn_when_user_data_is_null =
    drop (functions null) (new mock_ptr null (some drop_ptr))

abbrev pub drop_without_free_fn_is_safe : Cmd (Unit {0})
drop_without_free_fn_is_safe = drop (functions null) (new mock_ptr null none)

-- `CALL_COUNT` is a static of its own.
abbrev pub user_data_is_passed_through : Cmd (Unit {0})
user_data_is_passed_through = with_local (object 0) λ call_count. do
  let c = functions null
  store call_count (object 0)
  let pot = new count_ptr call_count none
  with_io c pot 1 λ i input output. do
    calculate c pot input output
    first ← read_object call_count
    assert_eq first 1
    o ← read_out output
    assert_eq o.energy (as_f64 1)
    calculate c pot input output
    second ← read_object call_count
    assert_eq second 2
    o' ← read_out output
    assert_eq o'.energy (as_f64 2)
    free_input c i
