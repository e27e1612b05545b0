-- ===== src/Tests/Calculating.antt =====
-- A caller that calculates through the network and frees the forces.
use rgpot.Tensor.Store.Ran.{Ran}
use rgpot.Tests.Ends.{end_of, end_of-ok}
use rgpot.Tests.Data.{
  list_builder, list_builder-IsListBuilder, client_world, client_world-IsCall, client_world-IsWorld,
  client_world-IsInput, self, atm, box, places, input, debug, empty-IsWorld, empty,
}
use rgpot.Tensor.Store.Allowed.{Allowed, may_free}
use rgpot.Tensor.Store.Returns.{Ran-Reach}
use rgpot.Tensor.Blocks.{owned_managed}
use rgpot.Tests.Data
use rgpot.CApi.Types.{empty_out}
use rgpot.CApi.Rpc.{rgpot_rpc_calculate}
use rgpot.CApi.Rpc.Remote.{IsAnswered, rgpot_rpc_calculate-IsAnswered}
use rgpot.Rpc.Server.Contract.{Computes, filled}
use rgpot.Rpc.Wire.{Network}
use rgpot.Rpc.Wire.Lists.{reader_of}
use rgpot.Status.{success, Status}
use rgpot.Tensor.Store.{borrowed, IsSound}
use rgpot.Prelude.{good, Bool-cases, inl, inr, ◌==◌, ap, some, [], ◌≡◌, arith, ◌∷◌, refl}
use rgpot.Tensor.Store.Table.{run}
use rgpot.Tensor.Store.View.{view}
use rgpot.Tensor.Store.Refine.{view-Reach}
use rgpot.Memory.{ok, Run, World}
use rgpot.Tensor.Store.Calls.{rpc_calculate}
use rgpot.Tensor.Store.Traces.{here, next, Reach, trace}
use rgpot.Tests.Callbacks.{echo}

-- The three tensors of the client's input are all that its memory has.
client_world-IsSound : IsSound client_world
client_world-IsSound = record {
  world = client_world-IsWorld;
  store = λ t m h. elim (Bool-cases (t == 8)) [
    | inl e ↦ borrowed 5 2 _ _ _ (ground arith) client_world-IsInput.positions
    | inr away ↦ elim (Bool-cases (t == 12)) [
      | inl e ↦ borrowed 9 3 _ _ _ (ground arith) client_world-IsInput.atomic_numbers
      | inr away' ↦ elim (Bool-cases (t == 16)) [
        | inl e ↦ borrowed 13 4 _ _ _ (ground arith) client_world-IsInput.box_matrix
        | inr away'' ↦ absurd (ground arith)
      ]
    ]
  ];
}

-- A remote side that answers with 7 and the positions.
abbrev answering : Network
answering = record {
  connect = λ addr. good tt;
  set_nodelay = λ addr. good tt;
  send = λ addr m.
      good (good (good (record { get_energy = 7; get_forces = good (reader_of 0 m.pos) })));
}

answering-IsAnswered : IsAnswered answering self Data.pos atm box 1 Data.pos 7
answering-IsAnswered = record { connected = refl; nodelay = refl; answered = refl; size = refl }

abbrev remote_call : Run Status
remote_call = rgpot_rpc_calculate list_builder list_builder answering 1 17 18 client_world

abbrev calculated : World
calculated = end_of remote_call

computed :
    (w : World) × (remote_call ≡ ok success w)
    × Computes client_world w 18 client_world.next 1 Data.pos 7 0
computed =
    rgpot_rpc_calculate-IsAnswered list_builder list_builder answering client_world 1 self places
      input empty_out 1 Data.pos atm box Data.pos 7 list_builder-IsListBuilder
      list_builder-IsListBuilder client_world-IsCall answering-IsAnswered

calculated-Computes : Computes client_world calculated 18 19 1 Data.pos 7 0
calculated-Computes = let (w, done, k) = computed in rw (ap end_of done) k

calculating : Reach echo list_builder list_builder client_world calculated
calculating = next {v = client_world} here (
    rpc_calculate answering 1 self places input empty_out (filled 19 7 0) 1 Data.pos atm box
      Data.pos 7 client_world-IsCall answering-IsAnswered (end_of-ok computed.1)
      calculated-Computes.output_block)

view-Reach_example : run (trace calculating) (view client_world.cell) ≡ some (view calculated.cell)
view-Reach_example =
    view-Reach echo list_builder list_builder list_builder-IsListBuilder list_builder-IsListBuilder
      {w = calculated} client_world-IsSound calculating

abbrev freeing : Allowed echo calculated
freeing = may_free 23 (owned_managed 19 (1 ∷ 3 ∷ [])) calculated-Computes.tensor.managed_block

Ran-Reach_example : (w' : World) × Ran list_builder list_builder freeing w' × IsSound w'
Ran-Reach_example =
    Ran-Reach echo list_builder list_builder list_builder-IsListBuilder list_builder-IsListBuilder
      client_world calculated freeing client_world-IsSound calculating
