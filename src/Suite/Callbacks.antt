-- ===== src/Suite/Callbacks.antt =====
-- The callbacks and destructors of the tests in potential.rs and c_api/potential.rs.
use rgpot.Tensor.{create_owned_f64_tensor}
use rgpot.Types.{n_atoms}
use rgpot.Status.{internal_error, set_last_error, success, invalid_parameter}
use rgpot.Memory.{mul_usize, ◌>>◌, as_input, ◌>>=◌, pure, store, extern_c, ub}
use rgpot.Foreign.{Foreign}
use rgpot.Layout.{force_out, object, ForceOut, FnPtr}
use rgpot.Prelude.{◌==◌, if◌then◌else◌, get_or, ◌%◌, zero, ◌^◌, suc, ◌*◌, ℕ, ◌+◌, List, [], ◌∷◌}
use rgpot.Suite.{
  neg_f64, zeros, codes, or_zero, read_out, Status, load, Cmd, Ptr, Cell, Double, assert_eq, as_f64,
}

abbrev pub modify_out : Ptr → (ForceOut → ForceOut) → Cmd (Unit {0})
modify_out p f = do o ← read_out p; store p (force_out (f o))

-- What the two callbacks that count atoms do: the energy is the number of atoms, the forces are 0.
unfoldable pub count_atoms : (input output : Ptr) → Cmd Status
count_atoms input output = do
  inp ← load input >>= as_input
  read_out output
  n ← n_atoms inp >>= λ k. pure (or_zero k)
  modify_out output λ o. record o { energy = as_f64 n }
  modify_out output λ o. record o { variance = 0 }
  len ← mul_usize n 3
  elements ← zeros len
  t ← create_owned_f64_tensor elements (n ∷ 3 ∷ [])
  modify_out output λ o. record o { forces = t }
  pure success

abbrev pub mock_callback : (user_data input output : Ptr) → Cmd Status
mock_callback user_data input output = extern_c (count_atoms input output)

abbrev pub sum_callback : (user_data input output : Ptr) → Cmd Status
sum_callback user_data input output = extern_c (count_atoms input output)

abbrev pub error_callback : (user_data input output : Ptr) → Cmd Status
error_callback user_data input output = pure invalid_parameter

abbrev pub failing_callback : (user_data input output : Ptr) → Cmd Status
failing_callback user_data input output =
    extern_c do set_last_error (codes "deliberately failed"); pure internal_error

-- The numbers from `k` on, as doubles.
abbrev count_up : ℕ → ℕ → List Double
count_up k zero = []
count_up k (suc n) = as_f64 k ∷ count_up (k + 1) n

-- 0.5
abbrev pub one_half : Double
one_half = 1022 * 2 ^ 52

unfoldable pub write_all : (input output : Ptr) → Cmd Status
write_all input output = do
  inp ← load input >>= as_input
  read_out output
  n ← n_atoms inp >>= λ k. pure (or_zero k)
  len ← mul_usize n 3
  t ← create_owned_f64_tensor (count_up 1 len) (n ∷ 3 ∷ [])
  modify_out output λ o. record o { forces = t }
  modify_out output λ o. record o { energy = neg_f64 (as_f64 42) }
  modify_out output λ o. record o { variance = one_half }
  pure success

abbrev pub writing_callback : (user_data input output : Ptr) → Cmd Status
writing_callback user_data input output = extern_c (write_all input output)

-- An atomic or a plain integer in memory.
abbrev as_object : Cell → Cmd ℕ
as_object (object n) = pure n
as_object _ = ub

abbrev pub read_object : Ptr → Cmd ℕ
read_object p = load p >>= as_object

-- `fetch_add(1)` of an AtomicU32, which wraps.
unfoldable pub fetch_add_one : Ptr → Cmd (Unit {0})
fetch_add_one p = do n ← read_object p; store p (object ((n + 1) % 2 ^ 32))

-- What the two callbacks that count calls do with the counter behind the user data.
unfoldable pub count_calls : (user_data output : Ptr) → Cmd Status
count_calls user_data output = do
  fetch_add_one user_data
  read_out output
  n ← read_object user_data
  modify_out output λ o. record o { energy = as_f64 n }
  pure success

abbrev pub counting_callback : (user_data input output : Ptr) → Cmd Status
counting_callback user_data input output = extern_c (count_calls user_data output)

abbrev pub count_cb : (user_data input output : Ptr) → Cmd Status
count_cb user_data input output = extern_c (count_calls user_data output)

-- A static AtomicBool is an integer in memory; `flag` is its address.
abbrev pub track_free : (flag p : Ptr) → Cmd (Unit {0})
track_free flag p = extern_c (store flag (object 1))

abbrev pub sentinel : ℕ
sentinel = 3735928559

abbrev pub track_drop : (flag p : Ptr) → Cmd (Unit {0})
track_drop flag p =
    extern_c do store flag (object 1); value ← read_object p; assert_eq value sentinel

-- The functions by their addresses, which are arbitrary but for being different.
abbrev pub mock_ptr : FnPtr
mock_ptr = 1

abbrev pub sum_ptr : FnPtr
sum_ptr = 2

abbrev pub error_ptr : FnPtr
error_ptr = 3

abbrev pub failing_ptr : FnPtr
failing_ptr = 4

abbrev pub writing_ptr : FnPtr
writing_ptr = 5

abbrev pub counting_ptr : FnPtr
counting_ptr = 6

abbrev pub count_ptr : FnPtr
count_ptr = 7

abbrev pub free_ptr : FnPtr
free_ptr = 8

abbrev pub drop_ptr : FnPtr
drop_ptr = 9

-- At no other address is a function.
abbrev no_callback : (user_data input output : Ptr) → Cmd Status
no_callback user_data input output = ub

abbrev call_by : FnPtr → (user_data input output : Ptr) → Cmd Status
call_by f =
    get_or
      (no_callback ∷ mock_callback ∷ sum_callback ∷ error_callback ∷ failing_callback
        ∷ writing_callback ∷ counting_callback ∷ count_cb ∷ [])
      f no_callback

abbrev free_by : (flag : Ptr) → FnPtr → Ptr → Cmd (Unit {0})
free_by flag f =
    if f == free_ptr then track_free flag else if f == drop_ptr then track_drop flag else λ p. ub

abbrev pub functions : (flag : Ptr) → Foreign
functions flag = record { callback = call_by; free_fn = free_by flag; deleter = λ f p. ub }
