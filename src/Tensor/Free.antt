-- ===== src/Tensor/Free.antt =====
-- `rgpot_tensor_free` gives back exactly the blocks of a tensor.
use rgpot.Prelude.{◌+◌, ◌≡◌, refl, none, List, arith}
use rgpot.Prelude.Words.{Word, Double}
use rgpot.Layout.{Ptr, DlDataType}
use rgpot.Memory.{World, ok, load, dealloc, put}
use rgpot.Foreign.{Foreign}
use rgpot.Tensor.{rgpot_tensor_free}
use rgpot.Tensor.Blocks.{IsBorrowed, IsOwned, Freed}

module _ (c : Foreign) {w : World} {b : Ptr} {shape strides : List Word} where
  pub rgpot_tensor_free-IsBorrowed :
      {p : Ptr} {dtype : DlDataType}
      → IsBorrowed w.cell b p dtype shape strides
      → (w' : World) × (rgpot_tensor_free c (b + 1 + 1 + 1) w ≡ ok tt w') × Freed b 4 w w'
  unfolding rgpot_tensor_free load dealloc
  rgpot_tensor_free-IsBorrowed t = (
    put (b + 1 + 1 + 1) none (put (b + 1 + 1) none (put (b + 1) none (put b none w))),
    ground arith,
    record { cells = λ q. ground arith; next = refl; rest = ground arith },
  )

  pub rgpot_tensor_free-IsOwned :
      {elements : List Double}
      → IsOwned w.cell b elements shape strides
      → (w' : World) × (rgpot_tensor_free c (b + 1 + 1 + 1 + 1) w ≡ ok tt w') × Freed b 5 w w'
  unfolding rgpot_tensor_free load dealloc
  rgpot_tensor_free-IsOwned t = (
    put (b + 1 + 1 + 1 + 1) none
        (put (b + 1 + 1 + 1) none (put (b + 1 + 1) none (put (b + 1) none (put b none w)))),
    ground arith,
    record { cells = λ q. ground arith; next = refl; rest = ground arith },
  )
