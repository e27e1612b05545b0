-- ===== src/CApi/Rpc/Local.antt =====
-- A potential in the process and the same potential behind a server.
use rgpot.Prelude.{◌≡◌, ◌≢◌, some, List}
use rgpot.Prelude.Text.{Text}
use rgpot.Prelude.Words.{Word, Half, Double}
use rgpot.Layout.{Ptr, null, PotentialImpl, ForceInput, ForceOut, RpcClient, potential}
use rgpot.Memory.{World, IsWorld, ok}
use rgpot.Status.{success}
use rgpot.Foreign.{Foreign}
use rgpot.Potential.{calculate}
use rgpot.Rpc.Wire.{ListBuilder, IsListBuilder, Network}
use rgpot.Rpc.Server.{PotentialServer}
use rgpot.Rpc.Server.Contract.{Places, IsReady, IsSized, Computes, IsPotential}
use rgpot.CApi.Potential.{rgpot_potential_calculate}
use rgpot.CApi.Potential.Lifecycle.{rgpot_potential_calculate-live}
use rgpot.CApi.Rpc.{rgpot_rpc_calculate}
use rgpot.CApi.Rpc.Remote.{IsCall, Reaches, rgpot_rpc_calculate-Computes}

pub rgpot_potential_calculate-Computes :
    (c : Foreign) (impl : PotentialImpl) (pot : Ptr)
    (energy : List Double → List Half → List Double → Double)
    (forces : List Double → List Half → List Double → List Double) (w : World) (at : Places)
    (i : ForceInput) (o : ForceOut) (n : Word) (pos : List Double) (atm : List Half)
    (box : List Double)
    → pot ≢ null
    → w.cell pot ≡ some (potential impl)
    → IsPotential c impl.callback impl.user_data energy forces
    → IsReady w at i o n pos atm box
    → IsSized n pos atm box
    → (w' : World) × (t : Ptr) × (x : Double) × (rgpot_potential_calculate c pot at.input at.output
          w
        ≡ ok success w')
      × Computes w w' at.output t n (forces pos atm box) (energy pos atm box) x
unfolding calculate
rgpot_potential_calculate-Computes c impl pot energy forces w at i o n pos atm box live handle
      potential_ok ready sized =
    let (w', t, x, called, k) = potential_ok.computes w at i o n pos atm box ready sized in
    (
      w',
      t,
      x,
      rgpot_potential_calculate-live c impl pot live at.input at.output w w' success
          ready.input_live ready.output_live handle called,
      k,
    )

-- A potential that the process can call, and the same functions computed by a potential behind a
-- server: on the same ready input, `rgpot_potential_calculate` and `rgpot_rpc_calculate` both
-- return RGPOT_SUCCESS, and leave the same energy and a forces tensor of the same shape with the
-- same numbers in the output. Either changes nothing else of what was in use.
pub rgpot_rpc_calculate-potential_calculate :
    (F : ListBuilder Double) (I : ListBuilder Half) (net : Network) (c c' : Foreign)
    (impl : PotentialImpl) (server : PotentialServer) (v : World) (lost : Text)
    (energy : List Double → List Half → List Double → Double)
    (forces : List Double → List Half → List Double → List Double) (w : World) (p pot : Ptr)
    (self : RpcClient) (at : Places) (i : ForceInput) (o : ForceOut) (n : Word) (pos : List Double)
    (atm : List Half) (box : List Double)
    → IsListBuilder F
    → IsListBuilder I
    → pot ≢ null
    → w.cell pot ≡ some (potential impl)
    → IsPotential c impl.callback impl.user_data energy forces
    → IsPotential c' server.callback server.user_data energy forces
    → IsWorld v
    → Reaches net self F c' server v lost pos atm box
    → IsCall w p self at i o n pos atm box
    → (w₁ : World) × (w₂ : World) × (t₁ : Ptr) × (t₂ : Ptr) × (x : Double)
      × (rgpot_potential_calculate c pot at.input at.output w ≡ ok success w₁)
      × (rgpot_rpc_calculate F I net p at.input at.output w ≡ ok success w₂)
      × Computes w w₁ at.output t₁ n (forces pos atm box) (energy pos atm box) x
      × Computes w w₂ at.output t₂ n (forces pos atm box) (energy pos atm box) o.variance
rgpot_rpc_calculate-potential_calculate F I net c c' impl server v lost energy forces w p pot self
      at i o n pos atm box lawful lawful' live handle local remote is reaches call =
    let (w₁, t₁, x, done, k) =
      rgpot_potential_calculate-Computes c impl pot energy forces w at i o n pos atm box live handle
        local call.ready call.sized in
    let (w₂, done', k') =
      rgpot_rpc_calculate-Computes F I net c' server v lost energy forces w p self at i o n pos atm
        box lawful lawful' remote is reaches call in
    (w₁, w₂, t₁, w.next, x, done, done', k, k')
