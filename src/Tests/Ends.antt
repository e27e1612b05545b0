-- ===== src/Tests/Ends.antt =====
-- Where a run on a concrete world ends.
use rgpot.Prelude.{◌≡◌, refl}
use rgpot.Memory.{World, Run, ok}
use rgpot.Tests.Data.{empty}

abbrev pub end_of {ℓ} : {A : Type ℓ} → Run A → World
end_of (ok a w) = w
end_of _ = empty

pub end_of-ok {ℓ} : {A : Type ℓ} {m : Run A} {a : A} {w : World} → m ≡ ok a w → m ≡ ok a (end_of m)
end_of-ok {m} {a} h = rw h refl
