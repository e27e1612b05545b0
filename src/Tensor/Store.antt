-- ===== src/Tensor/Store.antt =====
-- The tensors in the memory: each handle's blocks lie in front of it and belong to it alone.
pub mod Extent
pub mod Kept
pub mod Tidy
pub mod Inputs
pub mod Sessions
pub mod Table
pub mod View
pub mod Changes
pub mod Structs
pub mod Computed
pub mod Calls
pub mod Traces
pub mod Refined
pub mod Added
pub mod Refine
pub mod Allowed
pub mod Ran
pub mod Returns
pub mod Leaks
pub mod Observed
use rgpot.Prelude.{ℕ, ◌+◌, ◌≤◌, ◌<◌, ◌≡◌, ◌≢◌, some, List, length, refl}
use rgpot.Prelude.Words.{Word, Half, Double}
use rgpot.Layout.{Ptr, Managed, DlDataType, managed, i32s, i64s, owned_i32_ctx, owned_i32_deleter}
use rgpot.Memory.{World, IsWorld}
use rgpot.Tensor.{cpu_tensor, dlpack_version, dtype_i32, flag_is_copied}
use rgpot.Tensor.Blocks.{Cells, IsBorrowed, IsOwned}

-- A borrowed tensor of either type or an owned one of doubles, by the address of its handle.
pub data IsTensor (f : Cells) (t : Ptr) : Type 0 where
  borrowed :
      (b p : Ptr) (dtype : DlDataType) (shape strides : List Word)
      → t ≡ b + 1 + 1 + 1
      → IsBorrowed f b p dtype shape strides
      → IsTensor f t
  owned :
      (b : Ptr) (elements : List Double) (shape strides : List Word)
      → t ≡ b + 1 + 1 + 1 + 1
      → IsOwned f b elements shape strides
      → IsTensor f t

-- Every handle is the handle of a whole tensor.
abbrev pub IsStore : World → Type 0
IsStore w = (t : Ptr) (m : Managed) → w.cell t ≡ some (managed m) → IsTensor w.cell t

-- What holds of the memory between two calls.
pub record IsSound (w : World) : Type 0 where
  pub world : IsWorld w
  pub store : IsStore w
