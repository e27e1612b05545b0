-- ===== src/Suite/Errors.antt =====
-- The tests in rgpot-core/src/status.rs.
use rgpot.Status.{
  internal_error, rpc_error, success, from_c_chars, rgpot_last_error, catch_unwind, set_last_error,
}
use rgpot.Prelude.Text.{codes, Text}
use rgpot.Prelude.{◌++◌, ◌∷◌}
use rgpot.Memory.{static_str, owned_string, panic, pure, ◌>>=◌, Cmd, ◌>>◌}
use rgpot.Suite.{same_status, same_numbers, assert}

abbrev last_error_is : Text → Cmd (Unit {0})
last_error_is expected = do
  msg ← rgpot_last_error
  assert (same_numbers (from_c_chars msg) expected)

abbrev pub test_set_and_get_last_error : Cmd (Unit {0})
test_set_and_get_last_error = do
  set_last_error (codes "test error")
  last_error_is (codes "test error")

abbrev pub test_catch_unwind_success : Cmd (Unit {0})
test_catch_unwind_success = do
  status ← catch_unwind (pure success)
  assert (same_status status success)

abbrev pub test_catch_unwind_panic : Cmd (Unit {0})
test_catch_unwind_panic = do
  status ← catch_unwind (panic (static_str (codes "boom")))
  assert (same_status status internal_error)
  last_error_is (codes "boom")

abbrev pub test_error_overwrite : Cmd (Unit {0})
test_error_overwrite = do
  set_last_error (codes "first")
  set_last_error (codes "second")
  last_error_is (codes "second")

abbrev pub test_interior_nul_is_handled : Cmd (Unit {0})
test_interior_nul_is_handled = do
  set_last_error (codes "has" ++ 0 ∷ codes "interior nul")
  last_error_is (codes "(error message contained interior NUL)")

abbrev pub test_catch_unwind_returns_callback_status : Cmd (Unit {0})
test_catch_unwind_returns_callback_status = do
  status ← catch_unwind (pure rpc_error)
  assert (same_status status rpc_error)

abbrev pub test_catch_unwind_string_panic : Cmd (Unit {0})
test_catch_unwind_string_panic = do
  status ← catch_unwind (panic (owned_string (codes "formatted panic")))
  assert (same_status status internal_error)
  last_error_is (codes "formatted panic")
