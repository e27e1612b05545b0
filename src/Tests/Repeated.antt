-- ===== src/Tests/Repeated.antt =====
-- A handle at 1 that counts atoms, and calculations of several sizes on it, one of them of no atoms.
use rgpot.Tests.Data.{empty-IsWorld, empty}
use rgpot.Suite.Callbacks.{sum_ptr}
use rgpot.Layout.{Ptr, null, potential}
use rgpot.Memory.{SameRest, IsWorld, ok, with_block, World}
use rgpot.Suite.CPotential.Repeated.{for_each-calculate_once}
use rgpot.Suite.CPotential.{for_each, calculate_once}
use rgpot.Potential.{new}
use rgpot.Memory.Slices.{with_block-IsWorld}
use rgpot.Prelude.{none, ◌≡◌, [], ◌∷◌, arith, refl}

abbrev handle_world : World
handle_world = with_block (potential (new sum_ptr null none)) empty

for_each-calculate_once_example :
    (w' : World) × (for_each (1 ∷ 5 ∷ 0 ∷ 5 ∷ []) (calculate_once 1) handle_world ≡ ok tt w')
    × ((q : Ptr) → w'.cell q ≡ handle_world.cell q)
    × IsWorld w'
    × SameRest handle_world w'
for_each-calculate_once_example =
    for_each-calculate_once (1 ∷ 5 ∷ 0 ∷ 5 ∷ []) handle_world 1 null none
      (with_block-IsWorld _ empty-IsWorld) (omega arith) refl
      (omega arith, (omega arith, (omega arith, (omega arith, tt))))
