-- ===== src/Tests/Near.antt =====
-- One memory that holds a client, a potential and an input.
use rgpot.Prelude.{some, ◌≡◌, refl, none, arith, ◌≢◌}
use rgpot.Prelude.Words.{Double}
use rgpot.Layout.{Ptr, PotentialImpl, potential, force_out}
use rgpot.Memory.{World, ok, with_block}
use rgpot.Memory.Slices.{with_block-IsWorld}
use rgpot.Status.{success, rpc_error}
use rgpot.CApi.Types.{empty_out}
use rgpot.CApi.Types.Input.{IsInput-frame}
use rgpot.CApi.Potential.{rgpot_potential_calculate}
use rgpot.CApi.Rpc.{rgpot_rpc_calculate}
use rgpot.CApi.Rpc.Remote.{IsCall}
use rgpot.CApi.Rpc.Local.{rgpot_rpc_calculate-potential_calculate}
use rgpot.Rpc.Server.Contract.{Computes, IsReady}
use rgpot.Prelude.Text.{codes, decimal}
use rgpot.Status.LastError.{error_text}
use rgpot.CApi.Rpc.Forceless.{rgpot_rpc_calculate-IsForceless}
use rgpot.Tests.Callbacks.{
  forceless, forceless-IsForceless, echo, echo_energy, echo-IsPotential, server,
}
use rgpot.Tests.Data
use rgpot.Tests.Data.{
  client_world, client_world-IsWorld, client_world-IsReady, list_builder,
  list_builder-IsListBuilder, atm, box, one_atom, self, places, input, network, network-Reaches,
  empty, empty-IsWorld, lost,
}

abbrev impl : PotentialImpl
impl = record { callback = 1; user_data = 2; free_fn = none }

-- The client's memory, with a potential's handle at 19.
abbrev both_world : World
both_world = with_block (potential impl) client_world

both_world-IsReady : IsReady both_world places input empty_out 1 Data.pos atm box
both_world-IsReady = record {
  input_live = omega arith;
  output_live = omega arith;
  apart = omega arith;
  output_behind = refl;
  pos_live = omega arith;
  atm_live = omega arith;
  box_live = omega arith;
  world = with_block-IsWorld _ client_world-IsWorld;
  input_block = refl;
  output_block = refl;
  input = IsInput-frame {g = both_world.cell} client_world-IsReady.input λ q h. ground arith;
  pos_block = refl;
  atm_block = refl;
  box_block = refl;
}

both_world-IsCall : IsCall both_world 1 self places input empty_out 1 Data.pos atm box
both_world-IsCall = record {
  live = omega arith;
  handle = refl;
  ready = both_world-IsReady;
  sized = one_atom;
  small = omega arith;
}

rgpot_rpc_calculate-potential_calculate_example :
    (w₁ : World) × (w₂ : World) × (t₁ : Ptr) × (t₂ : Ptr) × (x : Double)
    × (rgpot_potential_calculate echo 19 17 18 both_world ≡ ok success w₁)
    × (rgpot_rpc_calculate list_builder list_builder (network echo server) 1 17 18 both_world
        ≡ ok success w₂)
    × Computes both_world w₁ 18 t₁ 1 Data.pos echo_energy x
    × Computes both_world w₂ 18 t₂ 1 Data.pos echo_energy 0
rgpot_rpc_calculate-potential_calculate_example =
    rgpot_rpc_calculate-potential_calculate list_builder list_builder (network echo server) echo
      echo impl server empty lost (λ p a b. echo_energy) (λ p a b. p) both_world 1 19 self places
      input empty_out 1 Data.pos atm box list_builder-IsListBuilder list_builder-IsListBuilder
      (omega arith) refl echo-IsPotential echo-IsPotential empty-IsWorld
      (network-Reaches echo server) both_world-IsCall

rgpot_rpc_calculate-IsForceless_example :
    (w' : World) × (rgpot_rpc_calculate list_builder list_builder
        (network forceless server)
        1
        17
        18
        both_world
      ≡ ok rpc_error w')
    × (error_text w' ≡ codes "rgpot_rpc_calculate: force array size mismatch: expected 3, got 0")
    × (w'.cell 18 ≡ some (force_out (record empty_out { energy = echo_energy })))
    × ((q : Ptr) → q ≢ 18 → w'.cell q ≡ both_world.cell q)
unfolding decimal
rgpot_rpc_calculate-IsForceless_example =
    rgpot_rpc_calculate-IsForceless list_builder list_builder (network forceless server) forceless
      server (λ p a b. echo_energy) empty lost both_world 1 self places input empty_out 1 Data.pos
      atm box list_builder-IsListBuilder list_builder-IsListBuilder forceless-IsForceless
      empty-IsWorld (network-Reaches forceless server) both_world-IsCall (omega arith)
