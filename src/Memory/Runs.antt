-- ===== src/Memory/Runs.antt =====
-- What is known of a run that returns.
use rgpot.Prelude.{◌≡◌}
use rgpot.Memory.{World, Run, ok}

-- A run that returns has one result and one end.
pub same_end {ℓ} :
    {A : Type ℓ} {m : Run A} {a b : A} {w w' : World}
    → m ≡ ok a w
    → m ≡ ok b w'
    → (a ≡ b) × (w ≡ w')
same_end h h' = (cc (h, h'), cc (h, h'))
