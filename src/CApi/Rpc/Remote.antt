-- ===== src/CApi/Rpc/Remote.antt =====
-- `rgpot_rpc_calculate` against the crate's own server, and when the call fails.
use rgpot.Rpc.Wire.Lists.{reader_of}
use rgpot.Prelude.{length, ℕ, ◌*◌, ◌^◌, ◌<◌, ◌≡◌, ◌≢◌, refl, ◌++◌, some, List, arith, good}
use rgpot.Prelude.Text.{Text, codes}
use rgpot.Prelude.Words.{Word, Half, Double}
use rgpot.Layout.{Ptr, null, ForceInput, ForceOut, RpcClient, client}
use rgpot.Memory.{World, IsWorld, ok}
use rgpot.Status.{success, rpc_error, with_error, error_c_string}
use rgpot.Status.LastError.{error_text, stored_text, error_text-with_error}
use rgpot.Foreign.{Foreign}
use rgpot.Rpc.Wire.{ListBuilder, IsListBuilder, Network}
use rgpot.Rpc.Client.Remote.{calculate-answered, message, params_of, deliver, calculate-Computes}
use rgpot.Rpc.Client.Failure.{Failure, calculate-Failure}
use rgpot.Rpc.Server
use rgpot.Rpc.Server.{PotentialServer}
use rgpot.Rpc.Server.Contract.{Places, IsReady, IsSized, Computes, IsPotential}
use rgpot.CApi.Rpc.{rgpot_rpc_calculate}
use rgpot.CApi.Rpc.Refused.{rgpot_rpc_calculate-good, rgpot_rpc_calculate-bad}

-- A client's call is ready: a live handle, and an input of the promised sizes for `n` atoms, whose
-- positions fit into one list of a message.
pub record IsCall (w : World) (p : Ptr) (self : RpcClient) (at : Places) (i : ForceInput)
    (o : ForceOut) (n : Word) (pos : List Double) (atm : List Half) (box : List Double)
    : Type 0 where
  pub live : p ≢ null
  pub handle : w.cell p ≡ some (client self)
  pub ready : IsReady w at i o n pos atm box
  pub sized : IsSized n pos atm box
  pub small : n * 3 < 2 ^ 29

-- The network connects to the address and passes whole messages to and from a server of this crate
-- whose memory is `v`.
pub record Reaches (net : Network) (self : RpcClient) (F : ListBuilder Double) (c : Foreign)
    (server : PotentialServer) (v : World) (lost : Text) (pos : List Double) (atm : List Half)
    (box : List Double) : Type 0 where
  pub connected : net.connect self.addr ≡ good tt
  pub nodelay : net.set_nodelay self.addr ≡ good tt
  pub sent :
      net.send self.addr (message pos atm box)
      ≡ deliver lost (Server.calculate F c server (params_of (message pos atm box)) v)

-- The network connects to the address and brings back an energy and three forces for each atom.
pub record IsAnswered (net : Network) (self : RpcClient) (pos : List Double) (atm : List Half)
    (box : List Double) (n : Word) (fs : List Double) (e : Double) : Type 0 where
  pub connected : net.connect self.addr ≡ good tt
  pub nodelay : net.set_nodelay self.addr ≡ good tt
  pub answered :
      net.send self.addr (message pos atm box)
      ≡ good (good (good (record { get_energy = e; get_forces = good (reader_of 0 fs) })))
  pub size : length fs ≡ n * 3

pub rgpot_rpc_calculate-IsAnswered :
    (F : ListBuilder Double) (I : ListBuilder Half) (net : Network) (w : World) (p : Ptr)
    (self : RpcClient) (at : Places) (i : ForceInput) (o : ForceOut) (n : Word) (pos : List Double)
    (atm : List Half) (box fs : List Double) (e : Double)
    → IsListBuilder F
    → IsListBuilder I
    → IsCall w p self at i o n pos atm box
    → IsAnswered net self pos atm box n fs e
    → (w' : World) × (rgpot_rpc_calculate F I net p at.input at.output w ≡ ok success w')
      × Computes w w' at.output w.next n fs e o.variance
rgpot_rpc_calculate-IsAnswered F I net w p self at i o n pos atm box fs e lawful lawful' call a =
    let ready = call.ready in
    let (w', done, k) =
      calculate-answered F I net self w at i o n pos atm box fs e lawful lawful' a.connected
        a.nodelay a.answered a.size ready call.sized call.small in
    (
      w',
      rgpot_rpc_calculate-good F I net self i w p at.input at.output call.live ready.input_live
          ready.output_live call.handle ready.input_block w' done,
      k,
    )

module _ (F : ListBuilder Double) (I : ListBuilder Half) (net : Network) (c : Foreign)
    (server : PotentialServer) (v : World) (lost : Text) where
  -- With a server whose callback computes energies and forces from the three lists of an input,
  -- `rgpot_rpc_calculate` returns RGPOT_SUCCESS and leaves exactly that energy and those forces in
  -- the caller's output, the forces in a new owned tensor of shape [n, 3]; the output's variance,
  -- all other blocks and the error messages stay. So a remote call meets the contract that a
  -- callback in the same process has to meet.
  pub rgpot_rpc_calculate-Computes :
      (energy : List Double → List Half → List Double → Double)
      (forces : List Double → List Half → List Double → List Double) (w : World) (p : Ptr)
      (self : RpcClient) (at : Places) (i : ForceInput) (o : ForceOut) (n : Word)
      (pos : List Double) (atm : List Half) (box : List Double)
      → IsListBuilder F
      → IsListBuilder I
      → IsPotential c server.callback server.user_data energy forces
      → IsWorld v
      → Reaches net self F c server v lost pos atm box
      → IsCall w p self at i o n pos atm box
      → (w' : World) × (rgpot_rpc_calculate F I net p at.input at.output w ≡ ok success w')
        × Computes w w' at.output w.next n (forces pos atm box) (energy pos atm box) o.variance
  rgpot_rpc_calculate-Computes energy forces w p self at i o n pos atm box lawful lawful' potential
        is reaches call =
      let ready = call.ready in
      let (w', done, k) =
        calculate-Computes F I net self c server v lost energy forces w at i o n pos atm box lawful
          lawful' potential is reaches.connected reaches.nodelay reaches.sent ready call.sized
          call.small in
      (
        w',
        rgpot_rpc_calculate-good F I net self i w p at.input at.output call.live ready.input_live
            ready.output_live call.handle ready.input_block w' done,
        k,
      )

module _ (F : ListBuilder Double) (I : ListBuilder Half) (net : Network) where
  -- Where, for a ready call, the connection, its setup, the call or the reading of the result fails,
  -- it returns
  -- RGPOT_RPC_ERROR, the thread's last error says which step failed and why, and the memory, the
  -- output and the other threads' messages stay.
  pub rgpot_rpc_calculate-Failure :
      (w : World) (p : Ptr) (self : RpcClient) (at : Places) (i : ForceInput) (o : ForceOut)
      (n : Word) (pos : List Double) (atm : List Half) (box : List Double) (msg : Text)
      → IsListBuilder F
      → IsListBuilder I
      → IsCall w p self at i o n pos atm box
      → Failure net self.addr (message pos atm box) msg
      → (w' : World) × (rgpot_rpc_calculate F I net p at.input at.output w ≡ ok rpc_error w')
        × (error_text w' ≡ stored_text (codes "rgpot_rpc_calculate: " ++ msg))
        × ((t : ℕ) → t ≢ w.thread → w'.last_error t ≡ w.last_error t)
        × (record w' { last_error = w.last_error } ≡ w)
  rgpot_rpc_calculate-Failure w p self at i o n pos atm box msg lawful lawful' call f =
      let ready = call.ready in
      let stored : Text = codes "rgpot_rpc_calculate: " ++ msg in
      (
        with_error (error_c_string stored) w,
        rgpot_rpc_calculate-bad F I net self i w p at.input at.output call.live ready.input_live
            ready.output_live call.handle ready.input_block msg w
            (calculate-Failure F I lawful lawful' net self w at ready call.sized call.small f),
        error_text-with_error stored w,
        λ t ne. ground arith,
        refl,
      )
