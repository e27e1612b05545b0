-- ===== src/CApi/Rpc/Reported.antt =====
-- How a failure on the server reaches the client's caller.
use rgpot.Prelude.{◌≡◌, refl, ap, ◌∙◌, List, bad}
use rgpot.Prelude.Text.{Text, codes}
use rgpot.Prelude.Words.{Word, Half, Double}
use rgpot.Layout.{Ptr, ForceInput, ForceOut, RpcClient}
use rgpot.Memory.{World, IsWorld, ok}
use rgpot.Status.{rpc_error}
use rgpot.Status.LastError.{error_text}
use rgpot.Foreign.{Foreign}
use rgpot.Rpc.Wire.{ListBuilder, IsListBuilder, Network}
use rgpot.Rpc.Client.Remote.{message, deliver, calculate-params_of}
use rgpot.Rpc.Client.Failure.{no_call}
use rgpot.Rpc.Server.{PotentialServer, callback_error}
use rgpot.Rpc.Server.Contract.{Places}
use rgpot.Rpc.Server.Refuse.{IsRefusing, serve-refuses}
use rgpot.CApi.Rpc.{rgpot_rpc_calculate}
use rgpot.CApi.Rpc.Remote.{IsCall, Reaches, rgpot_rpc_calculate-Failure}

-- A server whose callback refuses: the remote caller gets RGPOT_RPC_ERROR, whatever the callback's
-- status was, and the last error is a fixed text that names neither the status nor the callback's own
-- message. The client's memory and output stay.
pub rgpot_rpc_calculate-IsRefusing :
    (F : ListBuilder Double) (I : ListBuilder Half) (net : Network) (c : Foreign)
    (server : PotentialServer) (v : World) (lost : Text) (w : World) (p : Ptr) (self : RpcClient)
    (at : Places) (i : ForceInput) (o : ForceOut) (n : Word) (pos : List Double) (atm : List Half)
    (box : List Double)
    → IsListBuilder F
    → IsListBuilder I
    → IsRefusing c server
    → IsWorld v
    → Reaches net self F c server v lost pos atm box
    → IsCall w p self at i o n pos atm box
    → (w' : World) × (rgpot_rpc_calculate F I net p at.input at.output w ≡ ok rpc_error w')
      × (error_text w'
          ≡ codes "rgpot_rpc_calculate: RPC call failed: potential callback returned an error")
      × (record w' { last_error = w.last_error } ≡ w)
rgpot_rpc_calculate-IsRefusing F I net c server v lost w p self at i o n pos atm box lawful lawful'
      refusing is reaches call =
    let (v', served, same, world, rest) = serve-refuses F c server v pos atm box refusing is in
    let answered : net.send self.addr (message pos atm box) ≡ bad callback_error =
      reaches.sent
      ∙ ap (deliver lost) (calculate-params_of F c server (message pos atm box) v ∙ served) in
    let (w', done, text, others, kept) =
      rgpot_rpc_calculate-Failure F I net w p self at i o n pos atm box _ lawful lawful' call
        (no_call callback_error reaches.connected reaches.nodelay answered refl) in
    (w', done, text, kept)
