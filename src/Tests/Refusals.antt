-- ===== src/Tests/Refusals.antt =====
-- Calls that the client or the server refuses, and a server from its start to its end.
use rgpot.Rpc.Server.Contract.{IsSized}
use rgpot.Prelude.Words.{Double}
use rgpot.Prelude.{ℕ, ◌≡◌, ◌≢◌, refl, ◌++◌, some, none, List, [], ◌∷◌, arith, good, bad}
use rgpot.Prelude.Text.{codes, decimal}
use rgpot.Layout.{
  Ptr, null, ForceInput, PotentialImpl, client, force_input, force_out, potential, c_chars,
}
use rgpot.Memory.{static_str, World, IsWorld, ok, with_block}
use rgpot.Memory.Slices.{with_block-IsWorld}
use rgpot.Status.{rpc_error, internal_error}
use rgpot.Status.LastError.{error_text}
use rgpot.CApi.Types.{empty_out}
use rgpot.CApi.Rpc.{rgpot_rpc_calculate}
use rgpot.CApi.Rpc.Unusable.{rgpot_rpc_calculate-Unusable}
use rgpot.CApi.Rpc.Unfit.{rgpot_rpc_calculate-Unfit}
use rgpot.Rpc.Wire.{Network, ResultReader}
use rgpot.Rpc.Wire.Lists.{reader_of}
use rgpot.Rpc.Client.Remote.{message, params_of}
use rgpot.Rpc.Client.Unusable.{wrong_size}
use rgpot.Rpc.Client.Unfit.{no_positions}
use rgpot.Rpc.Server.{callback_error, read_params}
use rgpot.Rpc.Server.Start.{connection, call, Listener, Answer, accept_loop, rgpot_rpc_server_start}
use rgpot.Rpc.Server.Start.Answers.{
  computed, unreadable, quiet, connects, calls, rgpot_rpc_server_start-Log,
}
use rgpot.Rpc.Server.Start.Refused.{no_socket, rgpot_rpc_server_start-NoServer}
use rgpot.Tests.Data
use rgpot.CApi.Rpc.Panicked.{literal, rgpot_rpc_calculate-panicked}
use rgpot.Tests.Data.{
  builder_below, too_long, client_world-IsReady, empty, empty-IsWorld, list_builder,
  list_builder-IsListBuilder, atm, box, one_atom, self, client_world, client_world-IsCall, places,
  input, dead_network,
}
use rgpot.Tests.Callbacks.{echo, echo_energy}
use rgpot.Tests.Moody.{moody, moody-IsService}

-- A server that answers with one number too few.
abbrev two_forces : ResultReader
two_forces = record { get_energy = 99; get_forces = good (reader_of 0 (1 ∷ 2 ∷ [])) }

abbrev short_network : Network
short_network = record {
  connect = λ addr. good tt;
  set_nodelay = λ addr. good tt;
  send = λ addr m. good (good (good two_forces));
}

rgpot_rpc_calculate-Unusable_example :
    (w' : World) × (rgpot_rpc_calculate list_builder list_builder short_network 1 17 18 client_world
      ≡ ok rpc_error w')
    × (error_text w' ≡ codes "rgpot_rpc_calculate: force array size mismatch: expected 3, got 2")
    × (w'.cell 18 ≡ some (force_out (record empty_out { energy = 99 })))
    × ((q : Ptr) → q ≢ 18 → w'.cell q ≡ client_world.cell q)
    × (w'.next ≡ 19)
unfolding decimal
rgpot_rpc_calculate-Unusable_example =
    rgpot_rpc_calculate-Unusable list_builder list_builder short_network client_world 1 self places
      input empty_out 1 Data.pos atm box two_forces
      (codes "force array size mismatch: expected 3, got 2") list_builder-IsListBuilder
      list_builder-IsListBuilder client_world-IsCall refl refl refl
      (wrong_size (reader_of 0 (1 ∷ 2 ∷ [])) refl (omega arith) refl)

abbrev null_positions : ForceInput
null_positions = record { positions = null; atomic_numbers = 7; box_matrix = 7 }

abbrev unfit_world : World
unfit_world = with_block (force_input null_positions) (with_block (client self) empty)

rgpot_rpc_calculate-Unfit_example :
    (w' : World) × (rgpot_rpc_calculate list_builder list_builder dead_network 1 2 3 unfit_world
      ≡ ok rpc_error w')
    × (error_text w' ≡ codes "rgpot_rpc_calculate: cannot determine n_atoms from input tensors")
    × ((t : ℕ) → t ≢ 0 → w'.last_error t ≡ unfit_world.last_error t)
    × (record w' { last_error = unfit_world.last_error } ≡ unfit_world)
rgpot_rpc_calculate-Unfit_example =
    rgpot_rpc_calculate-Unfit list_builder list_builder dead_network unfit_world self null_positions
      1 2 3 (codes "cannot determine n_atoms from input tensors") (omega arith) (omega arith)
      (omega arith) refl refl (no_positions refl refl)

-- A server's potential at 1 and its host string at 2.
abbrev impl : PotentialImpl
impl = record { callback = 1; user_data = 2; free_fn = none }

abbrev server_world : World
server_world = with_block (c_chars (codes "::" ++ 0 ∷ [])) (with_block (potential impl) empty)

server_world-IsWorld : IsWorld server_world
server_world-IsWorld = with_block-IsWorld _ (with_block-IsWorld _ empty-IsWorld)

-- An atom where the callback refuses to compute.
abbrev far : List Double
far = 7 ∷ 12 ∷ 13 ∷ []

far_atom : IsSized 1 far atm box
far_atom = record { pos_size = refl; atm_size = refl; box_size = refl }

-- Two clients connect; the second calls first, the first sends a message that cannot be read and one
-- that the callback refuses, and then the second calls again.
abbrev listener : Listener
listener = record {
  bind = λ addr. good tt;
  events =
      connection (good tt)
      ∷ connection (bad (codes "no delay"))
      ∷ call 1 (params_of (message Data.pos atm box))
      ∷ call 0 (bad (codes "garbled"))
      ∷ call 0 (params_of (message far atm box))
      ∷ call 1 (params_of (message Data.pos atm box))
      ∷ [];
  failure = codes "too many files";
}

abbrev answers : List Answer
answers =
    good (record { energy = echo_energy; forces = Data.pos })
    ∷ bad (codes "garbled")
    ∷ bad callback_error
    ∷ good (record { energy = echo_energy; forces = Data.pos })
    ∷ []

rgpot_rpc_server_start-Log_example :
    (w' : World) × (rgpot_rpc_server_start list_builder moody 1 good
        (good tt)
        listener
        2
        9999
        server_world
      ≡ ok rpc_error w')
    × (accept_loop list_builder moody 1 [] listener.events (codes "too many files") server_world
        ≡ ok (rpc_error, answers) w')
    × (error_text w' ≡ codes "accept failed: too many files")
    × ((q : Ptr) → w'.cell q ≡ server_world.cell q)
    × ((t : ℕ) → t ≢ 0 → w'.last_error t ≡ server_world.last_error t)
unfolding read_params
rgpot_rpc_server_start-Log_example =
    rgpot_rpc_server_start-Log list_builder moody 1 impl list_builder-IsListBuilder moody-IsService
      (omega arith) good (good tt) listener 2 9999 (codes "::" ++ 0 ∷ []) (codes "::") server_world
      answers server_world-IsWorld refl (omega arith) refl refl refl refl refl
      (connects (good tt) (
        connects (bad (codes "no delay")) (
          calls 1 _ _ (omega arith) (computed Data.pos atm box refl one_atom (omega arith) refl) (
            calls 0 _ _ (omega arith) (unreadable (codes "garbled") refl refl) (
              calls 0 _ _ (omega arith) (computed far atm box refl far_atom (omega arith) refl) (
                calls 1 _ _ (omega arith)
                  (computed Data.pos atm box refl one_atom (omega arith) refl) quiet))))))

abbrev busy : Listener
busy = record { bind = λ addr. bad (codes "in use"); events = []; failure = [] }

rgpot_rpc_server_start-NoServer_example :
    (w' : World) × (rgpot_rpc_server_start list_builder echo 1 good
        (good tt)
        busy
        2
        9999
        server_world
      ≡ ok rpc_error w')
    × (error_text w' ≡ codes "failed to bind :::9999: in use")
    × ((t : ℕ) → t ≢ 0 → w'.last_error t ≡ server_world.last_error t)
    × (record w' { last_error = server_world.last_error } ≡ server_world)
unfolding decimal
rgpot_rpc_server_start-NoServer_example =
    rgpot_rpc_server_start-NoServer good (good tt) busy 9999 list_builder echo 1 2 server_world
      rpc_error (codes "failed to bind :::9999: in use")
      (no_socket impl (codes "::" ++ 0 ∷ []) (codes "::") (codes "in use") (omega arith)
        (omega arith) refl refl refl refl refl refl refl refl)

-- A message whose lists have fewer than three elements: the list of the positions is too long.
rgpot_rpc_calculate-panicked_example :
    (w' : World) × (rgpot_rpc_calculate
        (builder_below 3)
        list_builder
        short_network
        1
        17
        18
        client_world
      ≡ ok internal_error w')
    × (error_text w' ≡ too_long)
    × ((t : ℕ) → t ≢ 0 → w'.last_error t ≡ client_world.last_error t)
    × (record w' { last_error = client_world.last_error } ≡ client_world)
rgpot_rpc_calculate-panicked_example =
    rgpot_rpc_calculate-panicked (builder_below 3) list_builder short_network client_world 1 self
      places input empty_out 1 Data.pos atm box (static_str too_long) too_long (omega arith) refl
      client_world-IsReady one_atom (omega arith) refl refl refl literal
