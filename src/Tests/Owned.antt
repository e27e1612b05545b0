-- ===== src/Tests/Owned.antt =====
-- An owned tensor of atomic numbers.
use rgpot.Prelude.{◌≡◌, [], ◌∷◌}
use rgpot.Memory.{World, ok, ◌>>=◌, ◌>>◌, pure, i32_slice}
use rgpot.Tensor.{create_owned_i32_tensor, rgpot_tensor_free}
use rgpot.Tensor.CApi.{rgpot_tensor_data}
use rgpot.Tensor.Lifetime.{SameBlocks}
use rgpot.Tensor.OwnedI32.{rgpot_tensor_free-create_owned_i32_tensor}
use rgpot.Tensor.Strides.{compute_row_major_strides-row_major}
use rgpot.Tests.Data.{empty, empty-IsWorld}
use rgpot.Tests.Callbacks.{echo}

rgpot_tensor_free-create_owned_i32_tensor_example :
    (w' : World) × ((do
      t ← create_owned_i32_tensor (8 ∷ 1 ∷ 1 ∷ []) (3 ∷ [])
      p ← rgpot_tensor_data t
      copy ← i32_slice p 3
      rgpot_tensor_free echo t
      pure copy)
        empty
      ≡ ok (8 ∷ 1 ∷ 1 ∷ []) w')
    × SameBlocks empty w'
rgpot_tensor_free-create_owned_i32_tensor_example =
    rgpot_tensor_free-create_owned_i32_tensor echo empty (8 ∷ 1 ∷ 1 ∷ []) (3 ∷ []) (1 ∷ [])
      empty-IsWorld (compute_row_major_strides-row_major empty 3 [] tt)
