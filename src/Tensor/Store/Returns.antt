-- ===== src/Tensor/Store/Returns.antt =====
-- Every call that the memory allows returns, whatever a C caller did before.
use rgpot.Tensor.Store.Ran.{Ran}
use rgpot.CApi.Rpc.Unfit.{rgpot_rpc_calculate-Unfit}
use rgpot.CApi.Rpc.Unusable.{rgpot_rpc_calculate-Unusable}
use rgpot.CApi.Potential.Refusing.{rgpot_potential_calculate-IsRefusing}
use rgpot.Layout.{potential}
use rgpot.CApi.Rpc.Handle.{
  rgpot_rpc_client_free-live, rgpot_rpc_client_free-new, rgpot_rpc_client_new-NoClient,
}
use rgpot.CApi.Rpc.Refused.{rgpot_rpc_calculate-null}
use rgpot.CApi.Rpc.Remote.{rgpot_rpc_calculate-Failure, rgpot_rpc_calculate-IsAnswered}
use rgpot.CApi.Potential.Lifecycle.{rgpot_potential_free-live, rgpot_potential_calculate-null}
use rgpot.CApi.Rpc.Local.{rgpot_potential_calculate-Computes}
use rgpot.Tensor.Store.Inputs.{rgpot_force_input_free-Refined, rgpot_force_input_create-Refined}
use rgpot.Tensor.Store.Kept.{rgpot_tensor_free-IsTensor}
use rgpot.Tensor.Accessors.{rgpot_tensor_shape-live}
use rgpot.Tensor.Made.{
  rgpot_tensor_owned_cpu_f64_2d-IsOwned, rgpot_tensor_cpu_f64_matrix3-IsBorrowed,
  rgpot_tensor_cpu_i32_1d-IsBorrowed, rgpot_tensor_cpu_f64_2d-IsBorrowed,
}
use rgpot.CApi.Potential.{rgpot_potential_new}
use rgpot.Prelude.{some, ◌≡◌, none, refl, arith, ◌≢◌}
use rgpot.Prelude.Words.{Half, Double}
use rgpot.Memory.{put, World}
use rgpot.Foreign.{Foreign}
use rgpot.Rpc.Wire.{ListBuilder, IsListBuilder}
use rgpot.Tensor.Store.{IsSound}
use rgpot.Tensor.Store.Allowed.{
  Allowed, may_borrow_2d, may_borrow_1d, may_borrow_matrix3, may_copy_2d, may_read_shape, may_free,
  may_create_input, may_free_input, may_new_potential, may_calculate, may_calculate_null,
  may_free_potential, may_free_potential_data, may_new_client, may_make_no_client,
  may_rpc_calculate, may_rpc_calculate_null, may_calculate_refused, may_rpc_unfit, may_rpc_unusable,
  may_rpc_fail, may_free_client,
}
use rgpot.Tensor.Store.Calls.{
  Step, borrow_2d, borrow_1d, borrow_matrix3, copy_2d, read_shape, free, create_input, free_input,
  new_potential, calculate, calculate_null, free_potential, free_potential_data, new_client,
  no_client, rpc_calculate, rpc_calculate_null, calculate_refused, rpc_unfit, rpc_unusable,
  rpc_fails, free_client,
}
use rgpot.Tensor.Store.Traces.{next, Reach}
use rgpot.Tensor.Store.Refine.{Reach-IsSound}

module _ (c : Foreign) (F : ListBuilder Double) (I : ListBuilder Half) (lawful : IsListBuilder F)
    (lawful' : IsListBuilder I) where
  -- The call is one of the steps.
  Allowed-Step :
      {w : World} (a : Allowed c w) → IsSound w → (w' : World) × Ran F I a w' × Step c F I w w'
  unfolding rgpot_potential_new
  Allowed-Step (may_borrow_2d p rows cols small) s =
      let (w', h, made, g) = rgpot_tensor_cpu_f64_2d-IsBorrowed s.world p rows cols small in
      (w', (_, h), borrow_2d p _ rows cols small h)
  Allowed-Step (may_borrow_1d p len) s =
      let (w', h, made, g) = rgpot_tensor_cpu_i32_1d-IsBorrowed s.world p len in
      (w', (_, h), borrow_1d p _ len h)
  Allowed-Step (may_borrow_matrix3 p) s =
      let (w', h, made, g) = rgpot_tensor_cpu_f64_matrix3-IsBorrowed s.world p in
      (w', (_, h), borrow_matrix3 p _ h)
  Allowed-Step (may_copy_2d p rows cols xs live found small small' fits enough) s =
      let (w', h, made, g) =
        rgpot_tensor_owned_cpu_f64_2d-IsOwned s.world live found small small' fits enough in
      (w', (_, h), copy_2d p _ rows cols (omega arith) h)
  Allowed-Step {w} (may_read_shape t out m old live found) s =
      let h = rgpot_tensor_shape-live w t out m old s.world live found in
      (_, (_, h), read_shape t out _ m old live found h)
  Allowed-Step {w} (may_free t m live) s =
      let (w', h, f) = rgpot_tensor_free-IsTensor c w t (s.store t m live) in
      (w', h, free t m live h)
  Allowed-Step {w} (may_create_input n pos atm box) s =
      let (i, w', h, refined) = rgpot_force_input_create-Refined w n pos atm box s in
      (w', (i, h), create_input n pos atm box i h)
  Allowed-Step {w} (may_free_input p i found freeable) s =
      let (w', h, refined) = rgpot_force_input_free-Refined c w p i s found freeable in
      (w', h, free_input p i found freeable h)
  Allowed-Step (may_new_potential callback user_data free_fn) s =
      (_, (_, refl), new_potential callback user_data _ free_fn refl)
  Allowed-Step {w}
        (may_calculate impl energy forces pot at i o n pos atm box potential_ok live handle ready
          sized)
        s =
      let (w', t, x, h, k) =
        rgpot_potential_calculate-Computes c impl pot energy forces w at i o n pos atm box live
          handle potential_ok ready sized in
      (
        w',
        h,
        calculate impl energy forces pot at i o _ n pos atm box potential_ok live handle ready sized
            h k.output_block,
      )
  Allowed-Step {w} (may_calculate_refused impl pot at i o n pos atm box refusing live handle ready)
        s =
      let (w', st, e, x, h, not_ok, k, rest) =
        rgpot_potential_calculate-IsRefusing c impl pot w at i o n pos atm box refusing live handle
          ready in
      (
        w',
        (st, h, not_ok),
        calculate_refused impl pot at i o n pos atm box st refusing live handle ready h,
      )
  Allowed-Step {w} (may_calculate_null pot input output why) s =
      let (w', h, text, others, kept) = rgpot_potential_calculate-null c w pot input output why in
      (w', h, calculate_null pot input output why h)
  Allowed-Step {w} (may_free_potential impl pot handle idle) s =
      let live : pot ≢ 0 = λ z. absurd (ground (arith, s.world.null_unused)) in
      let h = rgpot_potential_free-live c impl pot live w w handle idle handle in
      (_, h, free_potential impl pot handle idle h)
  Allowed-Step {w} (may_free_potential_data impl pot x handle apart is found gone) s =
      let live : pot ≢ 0 = λ z. absurd (ground (arith, s.world.null_unused)) in
      let kept : (put impl.user_data none w).cell pot ≡ some (potential impl) = ground arith in
      let h = rgpot_potential_free-live c impl pot live w _ handle gone kept in
      (_, h, free_potential_data impl pot x handle apart is found gone h)
  Allowed-Step {w} (may_new_client to_str runtime host port cs name live found ended utf8 started)
        s =
      let (w', h, freed, same, rest) =
        rgpot_rpc_client_free-new to_str runtime host port cs name w s.world live found ended utf8
          started in
      (_, (_, h), new_client to_str runtime host _ port cs name live found ended utf8 started h)
  Allowed-Step {w} (may_make_no_client to_str runtime host port msg why) s =
      let (w', h, text, others, kept) =
        rgpot_rpc_client_new-NoClient to_str runtime host port w msg why in
      (w', h, no_client to_str runtime host port msg why h)
  Allowed-Step {w} (may_rpc_calculate net p self at i o n pos atm box fs e is answered) s =
      let (w', h, k) =
        rgpot_rpc_calculate-IsAnswered F I net w p self at i o n pos atm box fs e lawful lawful' is
          answered in
      (w', h, rpc_calculate net p self at i o _ n pos atm box fs e is answered h k.output_block)
  Allowed-Step {w} (may_rpc_calculate_null net p input output why) s =
      let (w', h, text, others, told) = rgpot_rpc_calculate-null F I net w p input output why in
      (w', h, rpc_calculate_null net p input output why h)
  Allowed-Step {w}
        (may_rpc_unfit net self i p input output msg live live' live'' handle found unfit) s =
      let (w', h, text, others, told) =
        rgpot_rpc_calculate-Unfit F I net w self i p input output msg live live' live'' handle found
          unfit in
      (w', h, rpc_unfit net self i p input output msg live live' live'' handle found unfit h)
  Allowed-Step {w}
        (may_rpc_unusable net p self at i o n pos atm box r msg is connected nodelay sent unusable)
        s =
      let (w', h, text, written, others, end) =
        rgpot_rpc_calculate-Unusable F I net w p self at i o n pos atm box r msg lawful lawful' is
          connected nodelay sent unusable in
      (
        w',
        h,
        rpc_unusable net p self at i o n pos atm box r msg is connected nodelay sent unusable h,
      )
  Allowed-Step {w} (may_rpc_fail net p self at i o n pos atm box msg is failure) s =
      let (w', h, text, others, kept) =
        rgpot_rpc_calculate-Failure F I net w p self at i o n pos atm box msg lawful lawful' is
          failure in
      (w', h, rpc_fails net p self at i o n pos atm box msg is failure h)
  Allowed-Step {w} (may_free_client p self handle) s =
      let h = rgpot_rpc_client_free-live w p self s.world handle in
      (_, h, free_client p self handle h)

  -- Whatever a C caller did before, each call that the memory allows (live handles, buffers as large
  -- as their shapes, lists of the promised sizes, or one of the faults that the crate looks for)
  -- returns, and leaves the memory sound for the next: it neither panics nor ends the process, and
  -- nothing in it is undefined.
  pub Ran-Reach :
      (w₀ w : World) (a : Allowed c w)
      → IsSound w₀
      → Reach c F I w₀ w
      → (w' : World) × Ran F I a w' × IsSound w'
  Ran-Reach w₀ w a s₀ reached =
      let s = Reach-IsSound c F I lawful lawful' s₀ reached in
      let (w', ran, st) = Allowed-Step a s in
      (w', ran, Reach-IsSound c F I lawful lawful' s₀ (next reached st))
