-- ===== src/CApi/Rpc/Unusable.antt =====
-- `rgpot_rpc_calculate` when the result's forces cannot be used.
use rgpot.Prelude.{◌≡◌, ◌≢◌, refl, ◌++◌, some, List, arith, good}
use rgpot.Prelude.Text.{Text, codes}
use rgpot.Prelude.Words.{Word, Half, Double}
use rgpot.Layout.{Ptr, ForceInput, ForceOut, RpcClient, force_out}
use rgpot.Memory.{World, ok, put}
use rgpot.Status.{rpc_error, with_error, error_c_string}
use rgpot.Status.LastError.{error_text, stored_text, error_text-with_error}
use rgpot.Rpc.Wire.{ListBuilder, IsListBuilder, Network, ResultReader}
use rgpot.Rpc.Client.Remote.{message}
use rgpot.Rpc.Client.Unusable.{Unusable, calculate-Unusable}
use rgpot.Rpc.Server.Contract.{Places}
use rgpot.CApi.Rpc.{rgpot_rpc_calculate}
use rgpot.CApi.Rpc.Refused.{rgpot_rpc_calculate-bad}
use rgpot.CApi.Rpc.Remote.{IsCall}

-- A result whose forces cannot be read or are not `n * 3` in number: the call returns
-- RGPOT_RPC_ERROR and the thread's last error says what is wrong. No tensor is made, and the output's
-- forces and variance stay, but its energy is already the new one.
pub rgpot_rpc_calculate-Unusable :
    (F : ListBuilder Double) (I : ListBuilder Half) (net : Network) (w : World) (p : Ptr)
    (self : RpcClient) (at : Places) (i : ForceInput) (o : ForceOut) (n : Word) (pos : List Double)
    (atm : List Half) (box : List Double) (r : ResultReader) (msg : Text)
    → IsListBuilder F
    → IsListBuilder I
    → IsCall w p self at i o n pos atm box
    → net.connect self.addr ≡ good tt
    → net.set_nodelay self.addr ≡ good tt
    → net.send self.addr (message pos atm box) ≡ good (good (good r))
    → Unusable n r msg
    → (w' : World) × (rgpot_rpc_calculate F I net p at.input at.output w ≡ ok rpc_error w')
      × (error_text w' ≡ stored_text (codes "rgpot_rpc_calculate: " ++ msg))
      × (w'.cell at.output ≡ some (force_out (record o { energy = r.get_energy })))
      × ((q : Ptr) → q ≢ at.output → w'.cell q ≡ w.cell q)
      × (w'.next ≡ w.next)
rgpot_rpc_calculate-Unusable F I net w p self at i o n pos atm box r msg lawful lawful' call
      connected nodelay sent why =
    let ready = call.ready in
    let w₁ : World = put at.output (some (force_out (record o { energy = r.get_energy }))) w in
    let stored : Text = codes "rgpot_rpc_calculate: " ++ msg in
    (
      with_error (error_c_string stored) w₁,
      rgpot_rpc_calculate-bad F I net self i w p at.input at.output call.live ready.input_live
          ready.output_live call.handle ready.input_block msg w₁
          (calculate-Unusable F I net self w at i o n pos atm box r msg lawful lawful' ready
            call.sized call.small connected nodelay sent why),
      error_text-with_error stored w₁,
      ground arith,
      λ q h. ground arith,
      refl,
    )
