-- ===== src/Rpc/Server/Forceless.antt =====
-- A callback that reports success but leaves no forces.
use rgpot.Prelude.{◌≡◌, List, [], arith, length, good}
use rgpot.Prelude.Words.{Word, Half, Double}
use rgpot.Layout.{Ptr, ForceInput, ForceOut}
use rgpot.Memory.{SameRest, World, IsWorld, ok}
use rgpot.Foreign.{Foreign}
use rgpot.Status.{success}
use rgpot.CApi.Types.{empty_out}
use rgpot.Rpc.Wire.{ListBuilder, IsListBuilder}
use rgpot.Rpc.Server.{PotentialServer, serve}
use rgpot.Rpc.Server.Contract.{Places, IsReady}
use rgpot.Rpc.Server.Refuse.{NoForces, serve-LeavesNone}
use rgpot.Rpc.Server.Serve.{respond-success}

-- On every ready call the callback returns RGPOT_SUCCESS, writes the energy and leaves the forces
-- NULL.
pub record IsForceless (c : Foreign) (self : PotentialServer)
    (energy : List Double → List Half → List Double → Double) : Type 0 where
  pub forceless :
      (v : World) (at : Places) (i : ForceInput) (o : ForceOut) (n : Word) (pos : List Double)
      (atm : List Half) (box : List Double)
      → IsReady v at i o n pos atm box
      → (v' : World) × (x : Double) × (c.callback self.callback self.user_data at.input at.output v
          ≡ ok success v')
        × NoForces v v' at.output (energy pos atm box) x
        × SameRest v v'

-- Such a call is answered with the energy that the callback left and with no forces at all.
pub serve-IsForceless :
    (F : ListBuilder Double) (c : Foreign) (self : PotentialServer)
    (energy : List Double → List Half → List Double → Double) (w : World) (pos : List Double)
    (atm : List Half) (box : List Double)
    → IsListBuilder F
    → IsForceless c self energy
    → IsWorld w
    → (w' : World) × (serve F c self pos atm box w
        ≡ ok (good (record { energy = energy pos atm box; forces = [] })) w')
      × ((q : Ptr) → w'.cell q ≡ w.cell q)
serve-IsForceless F c self energy w pos atm box lawful lazy is =
    let (v, v₁, w', served, cells, world, r₁, r₂, r₃) =
      serve-LeavesNone F c self w pos atm box
        (good (record { energy = energy pos atm box; forces = [] })) SameRest is
        λ v at i ready.
          let (v₁, x, called, k, rest) =
            lazy.forceless v at i empty_out (length atm) pos atm box ready in
          record {
            after = v₁;
            status = success;
            energy = energy pos atm box;
            variance = x;
            called = called;
            left = k;
            besides = rest;
            said = λ u. respond-success F lawful _ [] u (omega arith);
          } in
    (w', served, cells)
