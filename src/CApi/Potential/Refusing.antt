-- ===== src/CApi/Potential/Refusing.antt =====
-- A call of a potential whose callback refuses.
use rgpot.Prelude.{◌≡◌, ◌≢◌, false, some, List}
use rgpot.Prelude.Words.{Word, Half, Double}
use rgpot.Layout.{Ptr, null, PotentialImpl, ForceInput, ForceOut, potential}
use rgpot.Memory.{World, SameRest, ok}
use rgpot.Status.{Status}
use rgpot.Foreign.{Foreign}
use rgpot.Potential.{calculate}
use rgpot.Rpc.Server.{is_success}
use rgpot.Rpc.Server.Contract.{Places, IsReady}
use rgpot.Rpc.Server.Refuse.{IsRefusing, NoForces}
use rgpot.Rpc.Server.Start.Answers.{server_of}
use rgpot.CApi.Potential.{rgpot_potential_calculate}
use rgpot.CApi.Potential.Lifecycle.{rgpot_potential_calculate-live}

-- The callback's status is returned as it is, and the output's forces are NULL.
pub rgpot_potential_calculate-IsRefusing :
    (c : Foreign) (impl : PotentialImpl) (pot : Ptr) (w : World) (at : Places) (i : ForceInput)
    (o : ForceOut) (n : Word) (pos : List Double) (atm : List Half) (box : List Double)
    → IsRefusing c (server_of impl)
    → pot ≢ null
    → w.cell pot ≡ some (potential impl)
    → IsReady w at i o n pos atm box
    → (w' : World) × (s : Status) × (e : Double) × (x : Double) × (rgpot_potential_calculate c pot
          at.input at.output w
        ≡ ok s w')
      × (is_success s ≡ false)
      × NoForces w w' at.output e x
      × SameRest w w'
unfolding calculate
rgpot_potential_calculate-IsRefusing c impl pot w at i o n pos atm box refusing live handle ready =
    let (w', s, e, x, called, not_ok, k, rest) = refusing.refuses w at i o n pos atm box ready in
    (
      w',
      s,
      e,
      x,
      rgpot_potential_calculate-live c impl pot live at.input at.output w w' s ready.input_live
          ready.output_live handle called,
      not_ok,
      k,
      rest,
    )
