-- ===== src/Layout.antt =====
-- The structs of rgpot-core/src: types.rs, potential.rs, the contexts of tensor.rs, and the
-- DLPack structs that they point to, with the fields of the DLPack standard.
use rgpot.Prelude.{ℕ, List, Option, Bool, ◌==◌}
use rgpot.Prelude.Text.{Text}
use rgpot.Prelude.Words.{Word, Half, Double}

abbrev pub Ptr : Type 0
Ptr = ℕ

abbrev pub null : Ptr
null = 0

abbrev pub is_null : Ptr → Bool
is_null p = p == null

-- The address of a C function.
abbrev pub FnPtr : Type 0
FnPtr = ℕ

-- DLPack: `DLDeviceType` and `DLDataTypeCode` are C enums, so numbers.
pub record DlDevice : Type 0 where
  pub device_type : ℕ
  pub device_id : Half

pub record DlDataType : Type 0 where
  pub code : ℕ
  pub bits : ℕ
  pub lanes : ℕ

pub record DlPackVersion : Type 0 where
  pub major : ℕ
  pub minor : ℕ

pub record DlTensor : Type 0 where
  pub elements : Ptr
  pub device : DlDevice
  pub ndim : Half
  pub dtype : DlDataType
  pub shape : Ptr
  pub strides : Ptr
  pub byte_offset : Word

-- The three deleters of tensor.rs, or one of another library.
pub data Deleter : Type 0 where
  borrowed_deleter owned_f64_deleter owned_i32_deleter : Deleter
  foreign_deleter : FnPtr → Deleter

-- `DLManagedTensorVersioned`
pub record Managed : Type 0 where
  pub version : DlPackVersion
  pub manager_ctx : Ptr
  pub deleter : Option Deleter
  pub flags : Word
  pub dl_tensor : DlTensor

pub record BorrowedTensorContext : Type 0 where
  pub shape : Ptr
  pub strides : Ptr

-- `_data` is the vector that the context keeps alive.
pub record OwnedF64TensorContext : Type 0 where
  pub kept : Ptr
  pub shape : Ptr
  pub strides : Ptr

pub record OwnedI32TensorContext : Type 0 where
  pub kept : Ptr
  pub shape : Ptr
  pub strides : Ptr

pub record ForceInput : Type 0 where
  pub positions : Ptr
  pub atomic_numbers : Ptr
  pub box_matrix : Ptr

pub record ForceOut : Type 0 where
  pub forces : Ptr
  pub energy : Double
  pub variance : Double

pub record PotentialImpl : Type 0 where
  pub callback : FnPtr
  pub user_data : Ptr
  pub free_fn : Option FnPtr

-- The runtime of a client is tokio's and has no state that the crate reads.
pub record RpcClient : Type 0 where
  pub addr : Text

-- What an address can hold: a buffer, a struct, a string, or a caller's own object.
pub data Cell : Type 0 where
  f64s : List Double → Cell
  i32s : List Half → Cell
  i64s : List Word → Cell
  c_chars : List ℕ → Cell
  managed : Managed → Cell
  borrowed_ctx : BorrowedTensorContext → Cell
  owned_f64_ctx : OwnedF64TensorContext → Cell
  owned_i32_ctx : OwnedI32TensorContext → Cell
  force_input : ForceInput → Cell
  force_out : ForceOut → Cell
  potential : PotentialImpl → Cell
  client : RpcClient → Cell
  object : ℕ → Cell
