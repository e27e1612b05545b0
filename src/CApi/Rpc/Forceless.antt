-- ===== src/CApi/Rpc/Forceless.antt =====
-- A server's callback that reports success but leaves no forces, seen from the client.
use rgpot.Prelude.{◌*◌, ◌<◌, ◌≡◌, ◌≢◌, refl, ap, ◌∙◌, ◌++◌, some, List, [], arith, good}
use rgpot.Prelude.Text.{Text, codes, decimal}
use rgpot.Prelude.Words.{Word, Half, Double}
use rgpot.Layout.{Ptr, ForceInput, ForceOut, RpcClient, force_out}
use rgpot.Memory.{World, IsWorld, ok}
use rgpot.Status.{rpc_error}
use rgpot.Status.LastError.{error_text, stored_text}
use rgpot.Foreign.{Foreign}
use rgpot.Rpc.Wire.{ListBuilder, IsListBuilder, Network, ResultReader}
use rgpot.Rpc.Wire.Lists.{reader_of}
use rgpot.Rpc.Client.Remote.{message, deliver, calculate-params_of}
use rgpot.Rpc.Client.Unusable.{wrong_size}
use rgpot.Rpc.Server.{PotentialServer}
use rgpot.Rpc.Server.Contract.{Places}
use rgpot.Rpc.Server.Forceless.{IsForceless, serve-IsForceless}
use rgpot.CApi.Rpc.{rgpot_rpc_calculate}
use rgpot.CApi.Rpc.Remote.{IsCall, Reaches}
use rgpot.CApi.Rpc.Unusable.{rgpot_rpc_calculate-Unusable}

-- A callback behind a server that returns RGPOT_SUCCESS and leaves its forces NULL: for one atom
-- or more the remote caller gets RGPOT_RPC_ERROR, and the last error says that 0 numbers came in
-- place of three for each atom. The output keeps its forces and takes the callback's energy, and
-- no other block changes.
pub rgpot_rpc_calculate-IsForceless :
    (F : ListBuilder Double) (I : ListBuilder Half) (net : Network) (c : Foreign)
    (server : PotentialServer) (energy : List Double → List Half → List Double → Double) (v : World)
    (lost : Text) (w : World) (p : Ptr) (self : RpcClient) (at : Places) (i : ForceInput)
    (o : ForceOut) (n : Word) (pos : List Double) (atm : List Half) (box : List Double)
    → IsListBuilder F
    → IsListBuilder I
    → IsForceless c server energy
    → IsWorld v
    → Reaches net self F c server v lost pos atm box
    → IsCall w p self at i o n pos atm box
    → 0 < n
    → (w' : World) × (rgpot_rpc_calculate F I net p at.input at.output w ≡ ok rpc_error w')
      × (error_text w'
          ≡ stored_text (
              codes "rgpot_rpc_calculate: force array size mismatch: expected "
              ++ decimal (n * 3)
              ++ codes ", got "
              ++ decimal 0))
      × (w'.cell at.output ≡ some (force_out (record o { energy = energy pos atm box })))
      × ((q : Ptr) → q ≢ at.output → w'.cell q ≡ w.cell q)
rgpot_rpc_calculate-IsForceless F I net c server energy v lost w p self at i o n pos atm box lawful
      lawful' lazy is reaches call some_atom =
    let (v', served, kept) = serve-IsForceless F c server energy v pos atm box lawful lazy is in
    let r : ResultReader = record {
      get_energy = energy pos atm box;
      get_forces = good (reader_of 0 []);
    } in
    let answered : net.send self.addr (message pos atm box) ≡ good (good (good r)) =
      reaches.sent
      ∙ ap (deliver lost) (calculate-params_of F c server (message pos atm box) v ∙ served) in
    let (w', done, text, out, others, next) =
      rgpot_rpc_calculate-Unusable F I net w p self at i o n pos atm box r _ lawful lawful' call
        reaches.connected reaches.nodelay answered
        (wrong_size (reader_of 0 []) refl (omega arith) refl) in
    (w', done, text, out, others)
