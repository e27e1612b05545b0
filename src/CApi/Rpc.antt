-- ===== src/CApi/Rpc.antt =====
-- rgpot-core/src/c_api/rpc.rs: the RPC client for C callers.
pub mod Refused
pub mod Remote
pub mod Reported
pub mod Unusable
pub mod Unfit
pub mod Local
pub mod Forceless
pub mod Handle
pub mod Panicked
pub mod System
use rgpot.Prelude.{ℕ, List, Result, good, bad, ◌++◌, if◌then◌else◌}
use rgpot.Prelude.Text.{Text, codes, has_nul}
use rgpot.Prelude.Words.{Word, Half, Double}
use rgpot.Layout.{Ptr, null, is_null, ForceInput, client}
use rgpot.Memory.{
  Cmd, pure, ub, ◌>>=◌, ◌>>◌, alloc, load, dealloc, as_client, as_input, as_out, as_c_chars,
  extern_c,
}
use rgpot.Status.{
  read_c_str, Status, success, rpc_error, invalid_parameter, set_last_error, catch_unwind,
  from_c_chars,
}
use rgpot.Rpc.Wire.{ListBuilder, Network, Wire}
use rgpot.Rpc.Client.{new, calculate}

-- Store the message and return a null handle.
abbrev pub no_client : Text → Cmd Ptr
no_client msg = set_last_error msg >> pure null

-- `to_str` is the UTF-8 check of `CStr::to_str`, `runtime` the outcome of `Runtime::new()`.
unfoldable pub rgpot_rpc_client_new : (Text → Wire Text) → Wire (Unit {0}) → Ptr → Word → Cmd Ptr
rgpot_rpc_client_new to_str runtime host port =
    if is_null host
    then no_client (codes "rgpot_rpc_client_new: host is NULL")
    else extern_c do
      chars ← read_c_str host
      elim (to_str chars) [
        | bad e ↦ no_client (codes "rgpot_rpc_client_new: invalid host string: " ++ e)
        | good host_str ↦ elim (new runtime host_str port) [
          | good c ↦ alloc (client c)
          | bad e ↦ no_client (codes "rgpot_rpc_client_new: " ++ e)
        ]
      ]

-- `set_last_error(msg); return RGPOT_INVALID_PARAMETER`
abbrev pub invalid : Text → Cmd Status
invalid msg = set_last_error msg >> pure invalid_parameter

abbrev pub report : Result (Unit {0}) Text → Cmd Status
report (good _) = pure success
report (bad e) = set_last_error (codes "rgpot_rpc_calculate: " ++ e) >> pure rpc_error

unfoldable pub rgpot_rpc_calculate :
    ListBuilder Double → ListBuilder Half → Network → (client input output : Ptr) → Cmd Status
rgpot_rpc_calculate F I net p input output = catch_unwind (
    if is_null p
    then invalid (codes "rgpot_rpc_calculate: client is NULL")
    else if is_null input
    then invalid (codes "rgpot_rpc_calculate: input is NULL")
    else if is_null output
    then invalid (codes "rgpot_rpc_calculate: output is NULL")
    else do
      client_ref ← load p >>= as_client
      inp ← load input >>= as_input
      calculate F I net client_ref inp output >>= report)

unfoldable pub rgpot_rpc_client_free : Ptr → Cmd (Unit {0})
rgpot_rpc_client_free p = if is_null p then pure tt else extern_c do load p >>= as_client; dealloc p
