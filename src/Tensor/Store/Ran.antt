-- ===== src/Tensor/Store/Ran.antt =====
-- What it means that a call which the memory allows returns.
use rgpot.Status.{Status, rpc_error, invalid_parameter, success}
use rgpot.Rpc.Server.{is_success}
use rgpot.CApi.Rpc.{rgpot_rpc_client_new, rgpot_rpc_client_free, rgpot_rpc_calculate}
use rgpot.CApi.Potential.{rgpot_potential_free, rgpot_potential_calculate, rgpot_potential_new}
use rgpot.CApi.Types.{rgpot_force_input_free, rgpot_force_input_create}
use rgpot.Tensor.{rgpot_tensor_free}
use rgpot.Tensor.CApi.{
  rgpot_tensor_shape, rgpot_tensor_owned_cpu_f64_2d, rgpot_tensor_cpu_f64_matrix3,
  rgpot_tensor_cpu_i32_1d, rgpot_tensor_cpu_f64_2d,
}
use rgpot.Prelude.{false, ◌≡◌}
use rgpot.Prelude.Words.{Half, Double}
use rgpot.Layout.{Ptr, null, ForceInput}
use rgpot.Memory.{ok, World}
use rgpot.Foreign.{Foreign}
use rgpot.Rpc.Wire.{ListBuilder}
use rgpot.Tensor.Store.Allowed.{
  Allowed, may_borrow_2d, may_borrow_1d, may_borrow_matrix3, may_copy_2d, may_read_shape, may_free,
  may_create_input, may_free_input, may_new_potential, may_calculate, may_calculate_refused,
  may_calculate_null, may_free_potential, may_free_potential_data, may_new_client,
  may_make_no_client, may_rpc_calculate, may_rpc_calculate_null, may_rpc_unfit, may_rpc_unusable,
  may_rpc_fail, may_free_client,
}

-- The call returns, and leaves `w'`.
abbrev pub Ran :
    (F : ListBuilder Double) (I : ListBuilder Half) {c : Foreign} {w : World}
    → Allowed c w
    → World
    → Type 0
Ran F I {c} {w} (may_borrow_2d p rows cols small) w' =
    (t : Ptr) × (rgpot_tensor_cpu_f64_2d p rows cols w ≡ ok t w')
Ran F I {c} {w} (may_borrow_1d p len) w' = (t : Ptr) × (rgpot_tensor_cpu_i32_1d p len w ≡ ok t w')
Ran F I {c} {w} (may_borrow_matrix3 p) w' = (t : Ptr) × (rgpot_tensor_cpu_f64_matrix3 p w ≡ ok t w')
Ran F I {c} {w} (may_copy_2d p rows cols xs live found small small' fits enough) w' =
    (t : Ptr) × (rgpot_tensor_owned_cpu_f64_2d p rows cols w ≡ ok t w')
Ran F I {c} {w} (may_read_shape t out m old live found) w' =
    (shape : Ptr) × (rgpot_tensor_shape t out w ≡ ok shape w')
Ran F I {c} {w} (may_free t m live) w' = rgpot_tensor_free c t w ≡ ok tt w'
Ran F I {c} {w} (may_create_input n pos atm box) w' =
    (i : ForceInput) × (rgpot_force_input_create n pos atm box w ≡ ok i w')
Ran F I {c} {w} (may_free_input p i found freeable) w' = rgpot_force_input_free c p w ≡ ok tt w'
Ran F I {c} {w} (may_new_potential callback user_data free_fn) w' =
    (pot : Ptr) × (rgpot_potential_new callback user_data free_fn w ≡ ok pot w')
Ran F I {c} {w}
      (may_calculate impl energy forces pot at i o n pos atm box potential_ok live handle ready
        sized)
      w' =
    rgpot_potential_calculate c pot at.input at.output w ≡ ok success w'
Ran F I {c} {w} (may_calculate_refused impl pot at i o n pos atm box refusing live handle ready)
      w' =
    (s : Status) × (rgpot_potential_calculate c pot at.input at.output w ≡ ok s w')
    × (is_success s ≡ false)
Ran F I {c} {w} (may_calculate_null pot input output why) w' =
    rgpot_potential_calculate c pot input output w ≡ ok invalid_parameter w'
Ran F I {c} {w} (may_free_potential impl pot handle idle) w' =
    rgpot_potential_free c pot w ≡ ok tt w'
Ran F I {c} {w} (may_free_potential_data impl pot x handle apart is found gone) w' =
    rgpot_potential_free c pot w ≡ ok tt w'
Ran F I {c} {w} (may_new_client to_str runtime host port cs name live found ended utf8 started) w' =
    (p : Ptr) × (rgpot_rpc_client_new to_str runtime host port w ≡ ok p w')
Ran F I {c} {w} (may_make_no_client to_str runtime host port msg why) w' =
    rgpot_rpc_client_new to_str runtime host port w ≡ ok null w'
Ran F I {c} {w} (may_rpc_calculate net p self at i o n pos atm box fs e is answered) w' =
    rgpot_rpc_calculate F I net p at.input at.output w ≡ ok success w'
Ran F I {c} {w} (may_rpc_calculate_null net p input output why) w' =
    rgpot_rpc_calculate F I net p input output w ≡ ok invalid_parameter w'
Ran F I {c} {w} (may_rpc_unfit net self i p input output msg live live' live'' handle found unfit)
      w' =
    rgpot_rpc_calculate F I net p input output w ≡ ok rpc_error w'
Ran F I {c} {w}
      (may_rpc_unusable net p self at i o n pos atm box r msg is connected nodelay sent unusable)
      w' =
    rgpot_rpc_calculate F I net p at.input at.output w ≡ ok rpc_error w'
Ran F I {c} {w} (may_rpc_fail net p self at i o n pos atm box msg is failure) w' =
    rgpot_rpc_calculate F I net p at.input at.output w ≡ ok rpc_error w'
Ran F I {c} {w} (may_free_client p self handle) w' = rgpot_rpc_client_free p w ≡ ok tt w'
