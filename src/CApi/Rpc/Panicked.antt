-- ===== src/CApi/Rpc/Panicked.antt =====
-- A panic inside `rgpot_rpc_calculate`: capnp refuses a list that is too long for a message.
use rgpot.Prelude.{sym, ℕ, ◌≡◌, ◌≢◌, refl, some, arith, good, bad, ◌<◌, ◌*◌, ◌^◌, List, length}
use rgpot.Prelude.Text.{Text, codes}
use rgpot.Prelude.Words.{Word, Half, Double, to_half}
use rgpot.Layout.{Ptr, null, ForceInput, ForceOut, RpcClient, client, force_input}
use rgpot.Memory.{World, Payload, static_str, owned_string, other_payload, ok, panicked, load}
use rgpot.Status.{internal_error, with_error, error_c_string, payload_message, catch_unwind}
use rgpot.Status.LastError.{error_text, stored_text, error_text-with_error}
use rgpot.Types.{n_atoms}
use rgpot.CApi.Types.Lifecycle.{n_atoms-IsInput}
use rgpot.Rpc.Wire.{ListBuilder, Network, write_list}
use rgpot.Rpc.Client.{calculate, build_request, extract_cpu_input}
use rgpot.Rpc.Client.Extract.{extract_cpu_input-IsReady}
use rgpot.Rpc.Server.Contract.{Places, IsReady, IsSized}
use rgpot.CApi.Rpc.{rgpot_rpc_calculate}

-- The text that a panic leaves: a message keeps its text, whether it is a literal or was formatted;
-- any other payload has no text.
pub data Says : Payload → Text → Type 0 where
  literal : {s : Text} → Says (static_str s) s
  formatted : {s : Text} → Says (owned_string s) s
  silent : Says other_payload (codes "unknown panic")

payload_message-Says : {e : Payload} {msg : Text} → Says e msg → payload_message e ≡ msg
unfolding payload_message
payload_message-Says literal = refl
payload_message-Says formatted = refl
payload_message-Says silent = refl

module _ (F : ListBuilder Double) (I : ListBuilder Half) (net : Network) where
  build_request-panicked :
      (pos : List Double) (atm : List Half) (box : List Double) (e : Payload) (w : World)
      → F.init (to_half (length pos)) ≡ bad e
      → build_request F I pos atm box w ≡ panicked e w
  unfolding build_request write_list
  build_request-panicked pos atm box e w h = rw h refl

  calculate-panicked :
      (self : RpcClient) (i : ForceInput) (output : Ptr) (n : Word) (pos : List Double)
      (atm : List Half) (box : List Double) (e : Payload) (w : World)
      → n_atoms i w ≡ ok (some n) w
      → extract_cpu_input i n w ≡ ok (good (pos, atm, box)) w
      → net.connect self.addr ≡ good tt
      → net.set_nodelay self.addr ≡ good tt
      → build_request F I pos atm box w ≡ panicked e w
      → calculate F I net self i output w ≡ panicked e w
  unfolding calculate
  calculate-panicked self i output n pos atm box e w e₁ e₂ e₃ e₄ e₅ = rw (e₁, e₂, e₃, e₄, e₅) refl

  rgpot_rpc_calculate-caught :
      (self : RpcClient) (i : ForceInput) (w : World) (p input output : Ptr) (e : Payload)
      → p ≢ null
      → input ≢ null
      → output ≢ null
      → w.cell p ≡ some (client self)
      → w.cell input ≡ some (force_input i)
      → calculate F I net self i output w ≡ panicked e w
      → rgpot_rpc_calculate F I net p input output w
        ≡ ok internal_error (with_error (error_c_string (payload_message e)) w)
  unfolding rgpot_rpc_calculate catch_unwind load
  rgpot_rpc_calculate-caught self i w p input output e live live_in live_out handle block h =
      ground (arith, h)

  -- A call with a live client and an input of the promised sizes, over a connection that is made and
  -- set up, where capnp refuses the list of the positions with a panic: the call returns
  -- RGPOT_INTERNAL_ERROR in place of unwinding into the caller. The thread's last error is the text
  -- of the panic, be it a literal or formatted, and "unknown panic" where the panic has none; the
  -- fixed text stands for one that holds a NUL. The memory, the output and the other threads'
  -- messages stay.
  pub rgpot_rpc_calculate-panicked :
      (w : World) (p : Ptr) (self : RpcClient) (at : Places) (i : ForceInput) (o : ForceOut)
      (n : Word) (pos : List Double) (atm : List Half) (box : List Double) (e : Payload)
      (msg : Text)
      → p ≢ null
      → w.cell p ≡ some (client self)
      → IsReady w at i o n pos atm box
      → IsSized n pos atm box
      → n * 3 < 2 ^ 64
      → net.connect self.addr ≡ good tt
      → net.set_nodelay self.addr ≡ good tt
      → F.init (to_half (length pos)) ≡ bad e
      → Says e msg
      → (w' : World) × (rgpot_rpc_calculate F I net p at.input at.output w ≡ ok internal_error w')
        × (error_text w' ≡ stored_text msg)
        × ((t : ℕ) → t ≢ w.thread → w'.last_error t ≡ w.last_error t)
        × (record w' { last_error = w.last_error } ≡ w)
  rgpot_rpc_calculate-panicked w p self at i o n pos atm box e msg live handle ready sized small
        connected nodelay refused says =
      let left =
        calculate-panicked self i at.output n pos atm box e w (n_atoms-IsInput w i ready.input)
          (extract_cpu_input-IsReady w at ready sized small) connected nodelay
          (build_request-panicked pos atm box e w refused) in
      (
        with_error (error_c_string msg) w,
        rw (sym (payload_message-Says says)) (
            rgpot_rpc_calculate-caught self i w p at.input at.output e live ready.input_live
              ready.output_live handle ready.input_block left),
        error_text-with_error msg w,
        λ t ne. ground arith,
        refl,
      )
