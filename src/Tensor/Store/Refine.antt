-- ===== src/Tensor/Store/Refine.antt =====
-- What callers do with tensors, in any order, keeps the memory sound and is what the table of tensors
-- does.
use rgpot.CApi.Rpc.Unfit.{rgpot_rpc_calculate-Unfit}
use rgpot.CApi.Rpc.Unusable.{rgpot_rpc_calculate-Unusable}
use rgpot.CApi.Potential.Refusing.{rgpot_potential_calculate-IsRefusing}
use rgpot.Prelude.{◌≡◌, ◌≢◌, refl, sym, some, none, [], arith}
use rgpot.Prelude.Words.{Half, Double}
use rgpot.Layout.{f64s, i32s, potential, client, object}
use rgpot.Memory.{World, put}
use rgpot.Memory.Runs.{same_end}
use rgpot.Foreign.{Foreign}
use rgpot.Tensor.Accessors.{rgpot_tensor_shape-live}
use rgpot.Tensor.Made.{
  rgpot_tensor_cpu_f64_2d-IsBorrowed, rgpot_tensor_cpu_i32_1d-IsBorrowed,
  rgpot_tensor_cpu_f64_matrix3-IsBorrowed,
}
use rgpot.CApi.Potential.{rgpot_potential_new}
use rgpot.CApi.Potential.Lifecycle.{rgpot_potential_calculate-null, rgpot_potential_free-live}
use rgpot.Potential.{new}
use rgpot.CApi.Rpc.Handle.{
  rgpot_rpc_client_new-NoClient, rgpot_rpc_client_free-live, rgpot_rpc_client_free-new, address,
}
use rgpot.CApi.Rpc.Local.{rgpot_potential_calculate-Computes}
use rgpot.CApi.Rpc.Refused.{rgpot_rpc_calculate-null}
use rgpot.CApi.Rpc.Remote.{rgpot_rpc_calculate-IsAnswered, rgpot_rpc_calculate-Failure}
use rgpot.Rpc.Wire.{ListBuilder, IsListBuilder}
use rgpot.Tensor.Store.{IsSound}
use rgpot.Tensor.Store.Calls.{
  switch, free_buffer, give_back, Step, make_f64s, make_i32s, keep, write, borrow_2d, borrow_1d,
  borrow_matrix3, copy_2d, read_shape, free, create_input, free_input, new_potential, calculate,
  calculate_null, free_potential, free_potential_data, new_client, no_client, rpc_calculate,
  rpc_calculate_null, calculate_refused, rpc_unfit, rpc_unusable, rpc_fails, free_client,
}
use rgpot.Tensor.Store.Tidy.{same}
use rgpot.Tensor.Store.Added.{borrow-Refined, copy-Refined, computed}
use rgpot.Tensor.Store.Traces.{mine_after, mine_along, Reach, here, next, ops, trace}
use rgpot.Tensor.Store.Table.{run}
use rgpot.Tensor.Store.View.{view}
use rgpot.Tensor.Store.Kept.{rgpot_tensor_free-IsTensor}
use rgpot.Tensor.Store.Inputs.{rgpot_force_input_create-Refined, rgpot_force_input_free-Refined}
use rgpot.Tensor.Store.Refined.{
  output_written, Freed-Refined, buffer-Refined, Refined, buffer_freed, same_blocks, Refined-here,
  Refined-then, reported, struct-Refined, overwritten, given_back,
}

module _ (c : Foreign) (F : ListBuilder Double) (I : ListBuilder Half) (lawful : IsListBuilder F)
    (lawful' : IsListBuilder I) where
  Step-Refined :
      {w w' : World} (st : Step c F I w w') → IsSound w → Refined w w' (ops st) (mine_after st)
  unfolding rgpot_potential_new
  Step-Refined (make_f64s xs e) s = buffer-Refined s (f64s xs) refl e
  Step-Refined (make_i32s xs e) s = buffer-Refined s (i32s xs) refl e
  Step-Refined (keep x is e) s = struct-Refined s x is e
  Step-Refined (write p x y is is' found e) s = overwritten s p x y is is' found e
  Step-Refined (give_back p x is found e) s = given_back s p x is found e
  Step-Refined (free_buffer p x is found apart e) s = buffer_freed s p x is found apart e
  Step-Refined (switch t e) s = same_blocks s e refl (omega arith)
  Step-Refined (borrow_2d p t rows cols small h) s =
      let (w₁, e, made, g) = rgpot_tensor_cpu_f64_2d-IsBorrowed s.world p rows cols small in
      borrow-Refined s h e made g
  Step-Refined (borrow_1d p t len h) s =
      let (w₁, e, made, g) = rgpot_tensor_cpu_i32_1d-IsBorrowed s.world p len in
      borrow-Refined s h e made g
  Step-Refined (borrow_matrix3 p t h) s =
      let (w₁, e, made, g) = rgpot_tensor_cpu_f64_matrix3-IsBorrowed s.world p in
      borrow-Refined s h e made g
  Step-Refined (copy_2d p t rows cols small h) s = copy-Refined s p t rows cols small h
  Step-Refined {w} (read_shape t out shape m old live found h) s =
      overwritten s out (object old) (object m.dl_tensor.ndim) refl refl found
        (same_end h (rgpot_tensor_shape-live w t out m old s.world live found)).1
  Step-Refined {w} (free t m live h) s =
      let tensor = s.store t m live in
      let (w₁, e, f) = rgpot_tensor_free-IsTensor c w t tensor in
      rw (same_end h e).1 (Freed-Refined s t tensor f)
  Step-Refined {w} (create_input n pos atm box i h) s =
      let (i', w₁, e, refined) = rgpot_force_input_create-Refined w n pos atm box s in
      let (at, end) = same_end h e in rw (at, end) refined
  Step-Refined {w} (free_input p i found freeable h) s =
      let (w₁, e, refined) = rgpot_force_input_free-Refined c w p i s found freeable in
      rw (same_end h e).1 refined
  Step-Refined {w} (new_potential callback user_data pot free_fn h) s =
      struct-Refined s (potential (new callback user_data free_fn)) refl (sym (same_end refl h).1)
  Step-Refined {w}
        (calculate impl energy forces pot at i o o' n pos atm box potential_ok live handle ready
          sized h written)
        s =
      let (w₁, t, x, e, k) =
        rgpot_potential_calculate-Computes c impl pot energy forces w at i o n pos atm box live
          handle potential_ok ready sized in
      computed s (same_end h e).1 ready.output_block written k
  Step-Refined {w} (calculate_refused impl pot at i o n pos atm box st refusing live handle ready h)
        s =
      let (w₁, st', e, x, done, not_ok, k, rest) =
        rgpot_potential_calculate-IsRefusing c impl pot w at i o n pos atm box refusing live handle
          ready in
      output_written s at.output o _ (same_end h done).1 ready.output_block k.output_block k.others
        k.grows
  Step-Refined {w} (calculate_null pot input output why h) s =
      let (w₁, e, text, others, kept) = rgpot_potential_calculate-null c w pot input output why in
      reported s (same_end h e).1 kept
  Step-Refined {w} (free_potential impl pot handle idle h) s =
      let live : pot ≢ 0 = λ z. absurd (ground (arith, s.world.null_unused)) in
      given_back s pot (potential impl) refl handle
        (same_end h (rgpot_potential_free-live c impl pot live w w handle idle handle)).1
  Step-Refined {w} (free_potential_data impl pot x handle apart is found gone h) s =
      let live : pot ≢ 0 = λ z. absurd (ground (arith, s.world.null_unused)) in
      let kept : (put impl.user_data none w).cell pot ≡ some (potential impl) = ground arith in
      let first : Refined w (put impl.user_data none w) [] same =
        given_back s impl.user_data x is found refl in
      Refined-then [] [] first (
        given_back first.sound pot (potential impl) refl kept
          (same_end h (rgpot_potential_free-live c impl pot live w _ handle gone kept)).1)
  Step-Refined {w} (new_client to_str runtime host p port cs name live found ended utf8 started h)
        s =
      let (w₁, made, freed, same, rest) =
        rgpot_rpc_client_free-new to_str runtime host port cs name w s.world live found ended utf8
          started in
      struct-Refined s (client (record { addr = address name port })) refl (same_end h made).1
  Step-Refined {w} (no_client to_str runtime host port msg why h) s =
      let (w₁, e, text, others, kept) =
        rgpot_rpc_client_new-NoClient to_str runtime host port w msg why in
      reported s (same_end h e).1 kept
  Step-Refined {w} (rpc_calculate net p self at i o o' n pos atm box fs e is answered h written) s =
      let (w₁, done, k) =
        rgpot_rpc_calculate-IsAnswered F I net w p self at i o n pos atm box fs e lawful lawful' is
          answered in
      computed s (same_end h done).1 is.ready.output_block written k
  Step-Refined {w} (rpc_calculate_null net p input output why h) s =
      let (w₁, e, text, others, told) = rgpot_rpc_calculate-null F I net w p input output why in
      reported s (same_end h e).1 told
  Step-Refined {w} (rpc_unfit net self i p input output msg live live' live'' handle found unfit h)
        s =
      let (w₁, e, text, others, told) =
        rgpot_rpc_calculate-Unfit F I net w self i p input output msg live live' live'' handle found
          unfit in
      reported s (same_end h e).1 told
  Step-Refined {w}
        (rpc_unusable net p self at i o n pos atm box r msg is connected nodelay sent unusable h)
        s =
      let (w₁, e, text, written, others, end) =
        rgpot_rpc_calculate-Unusable F I net w p self at i o n pos atm box r msg lawful lawful' is
          connected nodelay sent unusable in
      output_written s at.output o _ (same_end h e).1 is.ready.output_block written others
        (omega (arith, end))
  Step-Refined {w} (rpc_fails net p self at i o n pos atm box msg is failure h) s =
      let (w₁, e, text, others, kept) =
        rgpot_rpc_calculate-Failure F I net w p self at i o n pos atm box msg lawful lawful' is
          failure in
      reported s (same_end h e).1 kept
  Step-Refined {w} (free_client p self handle h) s =
      given_back s p (client self) refl handle
        (same_end h (rgpot_rpc_client_free-live w p self s.world handle)).1

  pub Reach-Refined :
      {w₀ w : World} → IsSound w₀ → (r : Reach c F I w₀ w) → Refined w₀ w (trace r) (mine_along r)
  Reach-Refined s₀ here = Refined-here s₀
  Reach-Refined {w₀} s₀ (next r st) =
      let past = Reach-Refined s₀ r in
      Refined-then (trace r) (ops st) past (Step-Refined st past.sound)

  pub Reach-IsSound : {w₀ w : World} → IsSound w₀ → Reach c F I w₀ w → IsSound w
  Reach-IsSound s₀ r = (Reach-Refined s₀ r).sound

  -- Whatever a C caller does, in any order (buffers and structs of its own that come and go,
  -- threads in turn, tensors that are borrowed, copied, read and freed, inputs, handles of
  -- potentials and clients, calculations in the process and through the network, whether they
  -- succeed, are refused or fail): the table of tensors admits the operations that the calls stand
  -- for (a tensor is created only under a handle that is not NULL and not in use, and only a
  -- handle in use or NULL is released), and the table that they lead to is the view of the memory.
  pub view-Reach :
      {w₀ w : World}
      → IsSound w₀
      → (r : Reach c F I w₀ w) → run (trace r) (view w₀.cell) ≡ some (view w.cell)
  view-Reach s₀ r = (Reach-Refined s₀ r).table
