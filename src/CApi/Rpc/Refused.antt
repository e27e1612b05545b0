-- ===== src/CApi/Rpc/Refused.antt =====
-- `rgpot_rpc_calculate`: calls that are refused, that fail, and that succeed.
use rgpot.Prelude.{ℕ, ◌≡◌, ◌≢◌, refl, ◌∙◌, ◌⊎◌, ◌++◌, some, arith, if◌then◌else◌, good, bad}
use rgpot.Prelude.Text.{Text, codes}
use rgpot.Prelude.Words.{Half, Double}
use rgpot.Layout.{Ptr, null, is_null, ForceInput, RpcClient, client, force_input}
use rgpot.Memory.{World, ok, load}
use rgpot.Status.{
  success, invalid_parameter, rpc_error, catch_unwind, set_last_error, with_error, error_c_string,
}
use rgpot.Status.LastError.{error_text, error_text-with_error}
use rgpot.Rpc.Wire.{ListBuilder, Network}
use rgpot.Rpc.Client.{calculate}
use rgpot.CApi.Rpc.{rgpot_rpc_calculate}

-- The message for the first pointer that is NULL.
abbrev pub null_message : Ptr → Ptr → Text
null_message p input =
    if is_null p
    then codes "rgpot_rpc_calculate: client is NULL"
    else if is_null input
    then codes "rgpot_rpc_calculate: input is NULL"
    else codes "rgpot_rpc_calculate: output is NULL"

module _ (F : ListBuilder Double) (I : ListBuilder Half) (net : Network) where
  -- A call with a NULL among its three pointers returns RGPOT_INVALID_PARAMETER whatever the network
  -- would do; the thread's last error names the first NULL, and the memory and the other threads'
  -- messages stay.
  pub rgpot_rpc_calculate-null :
      (w : World) (p input output : Ptr)
      → (p ≡ null) ⊎ (input ≡ null) ⊎ (output ≡ null)
      → (w' : World) × (rgpot_rpc_calculate F I net p input output w ≡ ok invalid_parameter w')
        × (error_text w' ≡ null_message p input)
        × ((t : ℕ) → t ≢ w.thread → w'.last_error t ≡ w.last_error t)
        × (record w' { last_error = w.last_error } ≡ w)
  unfolding rgpot_rpc_calculate catch_unwind set_last_error
  rgpot_rpc_calculate-null w p input output h = (
    with_error (error_c_string (null_message p input)) w,
    ground arith,
    error_text-with_error (null_message p input) w ∙ ground arith,
    λ t ne. ground arith,
    refl,
  )

  module _ (self : RpcClient) (i : ForceInput) (w : World) (p input output : Ptr) (live : p ≢ null)
      (live_in : input ≢ null) (live_out : output ≢ null) (handle : w.cell p ≡ some (client self))
      (input_block : w.cell input ≡ some (force_input i)) where
    pub rgpot_rpc_calculate-good :
        (w' : World)
        → calculate F I net self i output w ≡ ok (good tt) w'
        → rgpot_rpc_calculate F I net p input output w ≡ ok success w'
    unfolding rgpot_rpc_calculate catch_unwind load
    rgpot_rpc_calculate-good w' h = ground (arith, h)

    pub rgpot_rpc_calculate-bad :
        (e : Text) (w' : World)
        → calculate F I net self i output w ≡ ok (bad e) w'
        → rgpot_rpc_calculate F I net p input output w
          ≡ ok rpc_error (with_error (error_c_string (codes "rgpot_rpc_calculate: " ++ e)) w')
    unfolding rgpot_rpc_calculate catch_unwind load set_last_error
    rgpot_rpc_calculate-bad e w' h = ground (arith, h)
