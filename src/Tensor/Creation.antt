-- ===== src/Tensor/Creation.antt =====
-- What the creating functions leave in memory.
use rgpot.Prelude.{◌+◌, ◌≡◌, refl, List, arith}
use rgpot.Prelude.Words.{Word, Double}
use rgpot.Layout.{Ptr, DlDataType, i64s, f64s, managed, borrowed_ctx, owned_f64_ctx}
use rgpot.Memory.{World, ok, IsWorld, with_block}
use rgpot.Tensor.{compute_row_major_strides, create_borrowed_tensor, create_owned_f64_tensor}
use rgpot.Tensor.Blocks.{IsBorrowed, IsOwned, Grown, borrowed_managed, owned_managed}

module _ {w : World} (is : IsWorld w) {shape strides : List Word}
    (strided : compute_row_major_strides shape w ≡ ok strides w) where
  pub create_borrowed_tensor-IsBorrowed :
      (p : Ptr) (dtype : DlDataType)
      → (w' : World) × (create_borrowed_tensor p dtype shape w ≡ ok (w.next + 1 + 1 + 1) w')
        × IsBorrowed w'.cell w.next p dtype shape strides
        × Grown 4 w w'
  unfolding create_borrowed_tensor
  create_borrowed_tensor-IsBorrowed p dtype = (
    with_block (managed (borrowed_managed w.next p dtype shape)) (
        with_block (borrowed_ctx (record { shape = w.next; strides = w.next + 1 }))
          (with_block (i64s strides) (with_block (i64s shape) w))),
    rw strided refl,
    record {
      positive = is.positive;
      shape_block = ground arith;
      strides_block = ground arith;
      ctx_block = ground arith;
      managed_block = ground arith;
    },
    record { next = omega arith; cells = λ q h. ground arith; rest = ground arith },
  )

  pub create_owned_f64_tensor-IsOwned :
      (elements : List Double)
      → (w' : World) × (create_owned_f64_tensor elements shape w ≡ ok (w.next + 1 + 1 + 1 + 1) w')
        × IsOwned w'.cell w.next elements shape strides
        × Grown 5 w w'
  unfolding create_owned_f64_tensor
  create_owned_f64_tensor-IsOwned elements = (
    with_block (managed (owned_managed w.next shape)) (
        with_block
          (owned_f64_ctx (record { kept = w.next; shape = w.next + 1; strides = w.next + 1 + 1 }))
          (with_block (i64s strides) (with_block (i64s shape) (with_block (f64s elements) w)))),
    rw strided refl,
    record {
      positive = is.positive;
      data_block = ground arith;
      shape_block = ground arith;
      strides_block = ground arith;
      ctx_block = ground arith;
      managed_block = ground arith;
    },
    record { next = omega arith; cells = λ q h. ground arith; rest = ground arith },
  )
