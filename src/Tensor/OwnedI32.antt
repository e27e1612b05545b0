-- ===== src/Tensor/OwnedI32.antt =====
-- Owned tensors of i32, which the crate makes for its own use.
use rgpot.Prelude.{◌+◌, ◌≡◌, refl, some, none, List, arith, length}
use rgpot.Prelude.Words.{Word, Half}
use rgpot.Layout.{Managed, i32s, i64s, managed, owned_i32_ctx, owned_i32_deleter}
use rgpot.Memory.{World, IsWorld, ok, ◌>>=◌, ◌>>◌, pure, load, dealloc, put, with_block, i32_slice}
use rgpot.Memory.Slices.{i32_slice-all}
use rgpot.Foreign.{Foreign}
use rgpot.Tensor.{
  compute_row_major_strides, create_owned_i32_tensor, rgpot_tensor_free, cpu_tensor, dlpack_version,
  dtype_i32, flag_is_copied,
}
use rgpot.Tensor.CApi.{rgpot_tensor_data}
use rgpot.Tensor.Blocks.{Grown, Freed}
use rgpot.Tensor.Lifetime.{SameBlocks, SameBlocks-Freed}

module _ (w : World) (elements : List Half) (shape strides : List Word) where
  abbrev handle : Managed
  handle = record {
    version = dlpack_version;
    manager_ctx = w.next + 1 + 1 + 1;
    deleter = some owned_i32_deleter;
    flags = flag_is_copied;
    dl_tensor = cpu_tensor w.next dtype_i32 (length shape) (w.next + 1) (w.next + 1 + 1);
  }

  abbrev made : World
  made = with_block (managed handle) (
      with_block
        (owned_i32_ctx (record { kept = w.next; shape = w.next + 1; strides = w.next + 1 + 1 }))
        (with_block (i64s strides) (with_block (i64s shape) (with_block (i32s elements) w))))

  abbrev freed : World
  freed = put (w.next + 1 + 1 + 1 + 1) none (
      put (w.next + 1 + 1 + 1) none
        (put (w.next + 1 + 1) none (put (w.next + 1) none (put w.next none made))))

  create_owned_i32_tensor-made :
      compute_row_major_strides shape w ≡ ok strides w
      → create_owned_i32_tensor elements shape w ≡ ok (w.next + 1 + 1 + 1 + 1) made
  unfolding create_owned_i32_tensor
  create_owned_i32_tensor-made strided = rw strided refl

  made-Grown : Grown 5 w made
  made-Grown = record { next = omega arith; cells = λ q h. ground arith; rest = ground arith }

  rgpot_tensor_data-made :
      IsWorld w → rgpot_tensor_data (w.next + 1 + 1 + 1 + 1) made ≡ ok w.next made
  unfolding rgpot_tensor_data load
  rgpot_tensor_data-made is = ground (arith, is.positive)

  rgpot_tensor_free-made :
      (c : Foreign) → IsWorld w → rgpot_tensor_free c (w.next + 1 + 1 + 1 + 1) made ≡ ok tt freed
  unfolding rgpot_tensor_free load dealloc
  rgpot_tensor_free-made c is = ground (arith, is.positive)

  freed-Freed : Freed w.next 5 made freed
  freed-Freed = record { cells = λ q. ground arith; next = refl; rest = ground arith }

-- An owned tensor of i32 that can be given strides: its data are the numbers that it was made
-- from, and freeing it leaves every block as it was before it was made.
pub rgpot_tensor_free-create_owned_i32_tensor :
    (c : Foreign) (w : World) (elements : List Half) (shape strides : List Word)
    → IsWorld w
    → compute_row_major_strides shape w ≡ ok strides w
    → (w' : World) × ((do
      t ← create_owned_i32_tensor elements shape
      p ← rgpot_tensor_data t
      copy ← i32_slice p (length elements)
      rgpot_tensor_free c t
      pure copy)
          w
        ≡ ok elements w')
      × SameBlocks w w'
rgpot_tensor_free-create_owned_i32_tensor c w elements shape strides is strided =
    let w₁ : World = made w elements shape strides in
    let read =
      i32_slice-all w₁ w.next elements (length elements) (omega (arith, is.positive)) (ground arith)
        refl in
    (
      freed w elements shape strides,
      rw
          (
            create_owned_i32_tensor-made w elements shape strides strided,
            rgpot_tensor_data-made w elements shape strides is,
            read,
            rgpot_tensor_free-made w elements shape strides c is,
          )
          refl,
      SameBlocks-Freed 5 is (made-Grown w elements shape strides)
          (freed-Freed w elements shape strides),
    )
