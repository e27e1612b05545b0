-- ===== src/Tests/Remote.antt =====
-- Remote calls between the two concrete worlds.
use rgpot.Prelude.{ℕ, ◌≡◌, ◌≢◌, refl, List, [], ◌∷◌, arith, good, bad}
use rgpot.Prelude.Text.{codes}
use rgpot.Layout.{Ptr}
use rgpot.Memory.{IsWorld, World, SameRest, ok, undefined}
use rgpot.Status.{success, rpc_error}
use rgpot.Status.LastError.{error_text}
use rgpot.Rpc.Wire.{write_list}
use rgpot.Rpc.Wire.Lists.{write_list-contents}
use rgpot.Rpc.Client.Failure.{no_connection}
use rgpot.Rpc.Server.{serve, callback_error}
use rgpot.Rpc.Server.Contract.{Computes}
use rgpot.Rpc.Server.Serve.{serve-computes}
use rgpot.Rpc.Server.Refuse.{serve-refuses}
use rgpot.Rpc.Server.Malformed.{serve-malformed}
use rgpot.CApi.Rpc.{rgpot_rpc_calculate}
use rgpot.CApi.Rpc.Remote.{rgpot_rpc_calculate-Computes, rgpot_rpc_calculate-Failure}
use rgpot.CApi.Rpc.Reported.{rgpot_rpc_calculate-IsRefusing}
use rgpot.Tests.Data
use rgpot.Tests.Data.{
  empty, empty-IsWorld, list_builder, list_builder-IsListBuilder, atm, box, one_atom, self,
  client_world, client_world-IsCall, places, input, network, network-Reaches, dead_network, lost,
}
use rgpot.CApi.Types.{empty_out}
use rgpot.Tests.Callbacks.{
  echo, echo_energy, echo_later, echo-IsPotential, refusal, refusal-IsRefusing, server,
}

rgpot_rpc_calculate-Computes_example :
    (w' : World) × (rgpot_rpc_calculate list_builder list_builder
        (network echo server)
        1
        17
        18
        client_world
      ≡ ok success w')
    × Computes client_world w' 18 19 1 Data.pos echo_energy 0
rgpot_rpc_calculate-Computes_example =
    rgpot_rpc_calculate-Computes list_builder list_builder (network echo server) echo server empty
      lost (λ p a b. echo_energy) (λ p a b. p) client_world 1 self places input empty_out 1 Data.pos
      atm box list_builder-IsListBuilder list_builder-IsListBuilder echo-IsPotential empty-IsWorld
      (network-Reaches echo server) client_world-IsCall

rgpot_rpc_calculate-IsRefusing_example :
    (w' : World) × (rgpot_rpc_calculate list_builder list_builder
        (network refusal server)
        1
        17
        18
        client_world
      ≡ ok rpc_error w')
    × (error_text w'
        ≡ codes "rgpot_rpc_calculate: RPC call failed: potential callback returned an error")
    × (record w' { last_error = client_world.last_error } ≡ client_world)
rgpot_rpc_calculate-IsRefusing_example =
    rgpot_rpc_calculate-IsRefusing list_builder list_builder (network refusal server) refusal server
      empty lost client_world 1 self places input empty_out 1 Data.pos atm box
      list_builder-IsListBuilder list_builder-IsListBuilder refusal-IsRefusing empty-IsWorld
      (network-Reaches refusal server) client_world-IsCall

rgpot_rpc_calculate-Failure_example :
    (w' : World) × (rgpot_rpc_calculate list_builder list_builder dead_network 1 17 18 client_world
      ≡ ok rpc_error w')
    × (error_text w' ≡ codes "rgpot_rpc_calculate: connection failed: refused")
    × ((t : ℕ) → t ≢ 0 → w'.last_error t ≡ client_world.last_error t)
    × (record w' { last_error = client_world.last_error } ≡ client_world)
rgpot_rpc_calculate-Failure_example =
    rgpot_rpc_calculate-Failure list_builder list_builder dead_network client_world 1 self places
      input empty_out 1 Data.pos atm box (codes "connection failed: refused")
      list_builder-IsListBuilder list_builder-IsListBuilder client_world-IsCall
      (no_connection (codes "refused") refl refl)

serve-computes_example :
    (w' : World) × (serve list_builder echo server Data.pos atm box empty
      ≡ ok (good (record { energy = echo_energy; forces = Data.pos })) w')
    × ((q : Ptr) → w'.cell q ≡ empty.cell q)
    × IsWorld w'
    × SameRest empty w'
serve-computes_example =
    serve-computes list_builder echo server (λ p a b. echo_energy) (λ p a b. p) empty Data.pos atm
      box list_builder-IsListBuilder echo-IsPotential empty-IsWorld one_atom (omega arith)

serve-refuses_example :
    (w' : World) × (serve list_builder refusal server Data.pos atm box empty
      ≡ ok (bad callback_error) w')
    × ((q : Ptr) → w'.cell q ≡ empty.cell q)
    × IsWorld w'
    × SameRest empty w'
serve-refuses_example =
    serve-refuses list_builder refusal server empty Data.pos atm box refusal-IsRefusing
      empty-IsWorld

-- One coordinate for one atom.
serve-malformed_example : serve list_builder echo server (11 ∷ []) atm box empty ≡ undefined
serve-malformed_example =
    serve-malformed list_builder echo server echo_later empty (11 ∷ []) atm box (λ i o v. refl)
      empty-IsWorld (omega arith)

write_list-contents_example :
    (b : List ℕ) × (write_list list_builder 3 Data.pos empty ≡ ok b empty) × (b ≡ Data.pos)
write_list-contents_example =
    write_list-contents list_builder list_builder-IsListBuilder empty Data.pos 3 refl (omega arith)
