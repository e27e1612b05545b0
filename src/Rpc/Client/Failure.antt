-- ===== src/Rpc/Client/Failure.antt =====
-- The ways in which a call on a good input fails.
use rgpot.Prelude.{◌*◌, ◌^◌, ◌<◌, ◌≡◌, refl, ◌++◌, List, arith, good, bad, some}
use rgpot.Prelude.Text.{Text, codes}
use rgpot.Prelude.Words.{Word, Half, Double}
use rgpot.Layout.{Ptr, ForceInput, ForceOut, RpcClient}
use rgpot.Memory.{World, ok}
use rgpot.Types.{n_atoms}
use rgpot.CApi.Types.Lifecycle.{n_atoms-IsInput}
use rgpot.Rpc.Wire.{ListBuilder, IsListBuilder, InputMessage, Network}
use rgpot.Rpc.Client.{calculate, build_request, exchange, extract_cpu_input}
use rgpot.Rpc.Client.Extract.{extract_cpu_input-IsReady}
use rgpot.Rpc.Client.Remote.{message, build_request-contents}
use rgpot.Rpc.Server.Contract.{Places, IsReady, IsSized}

-- What goes wrong between the request and the result, and the client's message for it.
pub data Failure (net : Network) (addr : Text) (m : InputMessage) (msg : Text) : Type 0 where
  no_connection :
      (e : Text)
      → net.connect addr ≡ bad e
      → msg ≡ codes "connection failed: " ++ e
      → Failure net addr m msg
  no_delay :
      (e : Text)
      → net.connect addr ≡ good tt
      → net.set_nodelay addr ≡ bad e
      → msg ≡ codes "set_nodelay failed: " ++ e
      → Failure net addr m msg
  no_call :
      (e : Text)
      → net.connect addr ≡ good tt
      → net.set_nodelay addr ≡ good tt
      → net.send addr m ≡ bad e
      → msg ≡ codes "RPC call failed: " ++ e
      → Failure net addr m msg
  no_response :
      (e : Text)
      → net.connect addr ≡ good tt
      → net.set_nodelay addr ≡ good tt
      → net.send addr m ≡ good (bad e)
      → msg ≡ codes "failed to read response: " ++ e
      → Failure net addr m msg
  no_result :
      (e : Text)
      → net.connect addr ≡ good tt
      → net.set_nodelay addr ≡ good tt
      → net.send addr m ≡ good (good (bad e))
      → msg ≡ codes "failed to get result: " ++ e
      → Failure net addr m msg

calculate-Failure_from :
    (F : ListBuilder Double) (I : ListBuilder Half) (net : Network) (self : RpcClient)
    (i : ForceInput) (output : Ptr) (n : Word) (pos : List Double) (atm : List Half)
    (box : List Double) (w : World) (msg : Text)
    → n_atoms i w ≡ ok (some n) w
    → extract_cpu_input i n w ≡ ok (good (pos, atm, box)) w
    → build_request F I pos atm box w ≡ ok (message pos atm box) w
    → Failure net self.addr (message pos atm box) msg
    → calculate F I net self i output w ≡ ok (bad msg) w
unfolding calculate exchange
calculate-Failure_from F I net self i output n pos atm box w msg e₁ e₂ e₃ (no_connection e h eq) =
    rw (e₁, e₂, h, eq) refl
calculate-Failure_from F I net self i output n pos atm box w msg e₁ e₂ e₃ (no_delay e c h eq) =
    rw (e₁, e₂, c, h, eq) refl
calculate-Failure_from F I net self i output n pos atm box w msg e₁ e₂ e₃ (no_call e c d h eq) =
    rw (e₁, e₂, c, d, e₃, h, eq) refl
calculate-Failure_from F I net self i output n pos atm box w msg e₁ e₂ e₃ (no_response e c d h eq) =
    rw (e₁, e₂, c, d, e₃, h, eq) refl
calculate-Failure_from F I net self i output n pos atm box w msg e₁ e₂ e₃ (no_result e c d h eq) =
    rw (e₁, e₂, c, d, e₃, h, eq) refl

module _ (F : ListBuilder Double) (I : ListBuilder Half) (lawful : IsListBuilder F)
    (lawful' : IsListBuilder I) (net : Network) (self : RpcClient) (w : World) (at : Places)
    {i : ForceInput} {o : ForceOut} {n : Word} {pos : List Double} {atm : List Half}
    {box : List Double} (ready : IsReady w at i o n pos atm box) (sized : IsSized n pos atm box)
    (small : n * 3 < 2 ^ 29) where
  pub calculate-Failure :
      {msg : Text}
      → Failure net self.addr (message pos atm box) msg
      → calculate F I net self i at.output w ≡ ok (bad msg) w
  calculate-Failure {msg} f =
      calculate-Failure_from F I net self i at.output n pos atm box w msg
        (n_atoms-IsInput w i ready.input) (extract_cpu_input-IsReady w at ready sized (omega arith))
        (build_request-contents F I pos atm box n w lawful lawful' sized small) f
