-- ===== src/CApi/Rpc/Unfit.antt =====
-- Inputs that `rgpot_rpc_calculate` refuses before a connection is made.
use rgpot.Prelude.{ℕ, ◌≡◌, ◌≢◌, refl, ◌++◌, some, arith}
use rgpot.Prelude.Text.{Text, codes}
use rgpot.Prelude.Words.{Half, Double}
use rgpot.Layout.{Ptr, null, ForceInput, RpcClient, client, force_input}
use rgpot.Memory.{World, ok}
use rgpot.Status.{rpc_error, with_error, error_c_string}
use rgpot.Status.LastError.{error_text, stored_text, error_text-with_error}
use rgpot.Rpc.Wire.{ListBuilder, Network}
use rgpot.Rpc.Client.Unfit.{Unfit, calculate-Unfit}
use rgpot.CApi.Rpc.{rgpot_rpc_calculate}
use rgpot.CApi.Rpc.Refused.{rgpot_rpc_calculate-bad}

-- An input with a tensor that is missing or not on the CPU: whatever the network would do, the call
-- returns RGPOT_RPC_ERROR, the thread's last error says what is wrong (with NULL positions, that the
-- number of atoms cannot be determined; else it names the first tensor that is NULL or not on the
-- CPU), and the memory, the output and the other threads' messages stay.
pub rgpot_rpc_calculate-Unfit :
    (F : ListBuilder Double) (I : ListBuilder Half) (net : Network) (w : World) (self : RpcClient)
    (i : ForceInput) (p input output : Ptr) (msg : Text)
    → p ≢ null
    → input ≢ null
    → output ≢ null
    → w.cell p ≡ some (client self)
    → w.cell input ≡ some (force_input i)
    → Unfit w i msg
    → (w' : World) × (rgpot_rpc_calculate F I net p input output w ≡ ok rpc_error w')
      × (error_text w' ≡ stored_text (codes "rgpot_rpc_calculate: " ++ msg))
      × ((t : ℕ) → t ≢ w.thread → w'.last_error t ≡ w.last_error t)
      × (record w' { last_error = w.last_error } ≡ w)
rgpot_rpc_calculate-Unfit F I net w self i p input output msg live live_in live_out handle block
      why =
    let stored : Text = codes "rgpot_rpc_calculate: " ++ msg in
    (
      with_error (error_c_string stored) w,
      rgpot_rpc_calculate-bad F I net self i w p input output live live_in live_out handle block msg
          w (calculate-Unfit F I net self i output w msg why),
      error_text-with_error stored w,
      λ t ne. ground arith,
      refl,
    )
