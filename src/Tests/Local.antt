-- ===== src/Tests/Local.antt =====
-- Handles, messages and inputs in the concrete memory.
use rgpot.Prelude.{
  ℕ, ◌≡◌, ◌≢◌, refl, ◌++◌, some, none, [], ◌∷◌, arith, good, bad, ◌==◌, if◌then◌else◌,
}
use rgpot.Prelude.Text.{codes, decimal}
use rgpot.Layout.{Ptr, null, c_chars, client, force_input, potential}
use rgpot.Memory.{World, SameRest, ok, ◌>>=◌, ◌>>◌, pure, store, put, with_block}
use rgpot.Memory.Slices.{with_block-IsWorld}
use rgpot.Status.{invalid_parameter, set_last_error, rgpot_last_error, from_c_chars}
use rgpot.Status.LastError.{error_text}
use rgpot.Types.{n_atoms}
use rgpot.Potential.{new}
use rgpot.Foreign.{Foreign}
use rgpot.CApi.Types.{rgpot_force_input_create, rgpot_force_input_free, null_input}
use rgpot.CApi.Types.Lifecycle.{rgpot_force_input_free-create}
use rgpot.CApi.Potential.{rgpot_potential_new, rgpot_potential_calculate, rgpot_potential_free}
use rgpot.CApi.Potential.Lifecycle.{rgpot_potential_free-calculate-new}
use rgpot.CApi.Rpc.{rgpot_rpc_client_new, rgpot_rpc_client_free}
use rgpot.CApi.Rpc.Handle.{rgpot_rpc_client_free-new, rgpot_rpc_client_new-NoClient, no_runtime}
use rgpot.Status.Threads.{on_thread, set_all, rgpot_last_error-set_all}
use rgpot.Tests.Data.{empty, empty-IsWorld}
use rgpot.Tests.Callbacks.{echo}

-- The host string at 1.
abbrev host_world : World
host_world = with_block (c_chars (codes "localhost" ++ 0 ∷ [])) empty

rgpot_rpc_client_free-new_example :
    (w' : World) × (rgpot_rpc_client_new good (good tt) 1 12345 host_world
      ≡ ok 2 (with_block (client (record { addr = codes "localhost:12345" })) host_world))
    × ((do p ← rgpot_rpc_client_new good (good tt) 1 12345; rgpot_rpc_client_free p) host_world
        ≡ ok tt w')
    × ((q : Ptr) → w'.cell q ≡ host_world.cell q)
    × SameRest host_world w'
unfolding decimal
rgpot_rpc_client_free-new_example =
    rgpot_rpc_client_free-new good (good tt) 1 12345 (codes "localhost" ++ 0 ∷ [])
      (codes "localhost") host_world (with_block-IsWorld _ empty-IsWorld) (omega arith) refl refl
      refl refl

rgpot_rpc_client_new-NoClient_example :
    (w' : World) × (rgpot_rpc_client_new good (bad (codes "no threads")) 1 12345 host_world
      ≡ ok null w')
    × (error_text w' ≡ codes "rgpot_rpc_client_new: failed to create tokio runtime: no threads")
    × ((t : ℕ) → t ≢ 0 → w'.last_error t ≡ 0 ∷ [])
    × (record w' { last_error = host_world.last_error } ≡ host_world)
rgpot_rpc_client_new-NoClient_example =
    rgpot_rpc_client_new-NoClient good (bad (codes "no threads")) 1 12345 host_world
      (codes "rgpot_rpc_client_new: failed to create tokio runtime: no threads")
      (no_runtime (codes "localhost" ++ 0 ∷ []) (codes "localhost") (codes "no threads")
        (omega arith) refl refl refl refl refl)

-- An input struct at 1, whose pointers are arbitrary.
abbrev input_world : World
input_world =
    with_block (force_input (record { positions = 7; atomic_numbers = 7; box_matrix = 7 })) empty

rgpot_force_input_free-create_example :
    (w' : World) × ((do
      i ← rgpot_force_input_create 4 100 200 300
      store 1 (force_input i)
      k ← n_atoms i
      rgpot_force_input_free echo 1
      rgpot_force_input_free echo 1
      pure k)
        input_world
      ≡ ok (some 4) w')
    × ((q : Ptr)
        → w'.cell q ≡ (if q == 1 then some (force_input null_input) else input_world.cell q))
    × SameRest input_world w'
rgpot_force_input_free-create_example =
    rgpot_force_input_free-create echo input_world 4 100 200 300 1
      (record { positions = 7; atomic_numbers = 7; box_matrix = 7 })
      (with_block-IsWorld _ empty-IsWorld) (omega arith) refl

-- A callback that refuses with a status of its own, and a destructor that is not silent.
abbrev noisy : Foreign
noisy = record {
  callback = λ f u input output. pure invalid_parameter;
  free_fn = λ f p. set_last_error (codes "released");
  deleter = λ f p. pure tt;
}

abbrev used : World
used = with_block (potential (new 5 6 (some 7))) empty

rgpot_potential_free-calculate-new_example :
    (do
      pot ← rgpot_potential_new 5 6 (some 7)
      status ← rgpot_potential_calculate noisy pot 10 20
      rgpot_potential_free noisy pot
      pure status)
      empty
    ≡ ok invalid_parameter (
        put 1 none
          (record used { last_error = λ t. if t == 0 then codes "released" ++ 0 ∷ [] else 0 ∷ [] }))
rgpot_potential_free-calculate-new_example =
    rgpot_potential_free-calculate-new noisy empty 5 6 10 20 (some 7) invalid_parameter used
      (record used { last_error = λ t. if t == 0 then codes "released" ++ 0 ∷ [] else 0 ∷ [] })
      empty-IsWorld (omega arith) (omega arith) refl refl (unfold set_last_error in refl) refl

-- Thread 1 fails twice, with a failure of thread 2 in between.
rgpot_last_error-set_all_example :
    (w' : World) × ((do
      set_all ((1, codes "a") ∷ (2, codes "b") ∷ (1, codes "c") ∷ [])
      on_thread 2 rgpot_last_error)
        empty
      ≡ ok (w'.last_error 2) w')
    × (from_c_chars (w'.last_error 2) ≡ codes "b")
rgpot_last_error-set_all_example =
    rgpot_last_error-set_all 2 ((1, codes "a") ∷ (2, codes "b") ∷ (1, codes "c") ∷ []) empty
