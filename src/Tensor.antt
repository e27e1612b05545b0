-- ===== src/Tensor.antt =====
-- rgpot-core/src/tensor.rs: how DLPack tensors over borrowed and owned buffers are made, freed and
-- read. `Vec` arguments are lists until they move into a context, where their buffers get an
-- address.
pub mod Strides
pub mod Blocks
pub mod Creation
pub mod Free
pub mod CApi
pub mod Made
pub mod Lifetime
pub mod Overflow
pub mod Accessors
pub mod OwnedI32
pub mod Store
pub mod Validate
use rgpot.Prelude.{
  ℕ, zero, suc, ◌-◌, ◌==◌, Bool, ◌&&◌, Option, none, some, List, [], ◌∷◌, length, get_or, set,
  replicate, if◌then◌else◌,
}
use rgpot.Prelude.Words.{Word, Half, Double, to_half}
use rgpot.Layout.{
  Ptr, null, is_null, DlDevice, DlDataType, DlPackVersion, DlTensor, Deleter, borrowed_deleter,
  owned_f64_deleter, owned_i32_deleter, foreign_deleter, Managed, BorrowedTensorContext,
  OwnedF64TensorContext, OwnedI32TensorContext, Cell, f64s, i32s, i64s, managed, borrowed_ctx,
  owned_f64_ctx, owned_i32_ctx,
}
use rgpot.Memory.{
  Cmd, pure, ub, ◌>>=◌, ◌>>◌, alloc, load, dealloc, as_managed, mul_i64, f64_slice, extern_c,
}
use rgpot.Foreign.{Foreign}

-- The rounds of the loop of `compute_row_major_strides` for `i` from `k - 1` down to 0. The two
-- vectors have the same length, so no index is out of range.
pub strides_loop : ℕ → List Word → List Word → Cmd (List Word)
strides_loop zero shape strides = pure strides
strides_loop (suc i) shape strides = do
  stride ← mul_i64 (get_or strides (suc i) 0) (get_or shape (suc i) 0)
  strides_loop i shape (set strides i stride)

unfoldable pub compute_row_major_strides : List Word → Cmd (List Word)
unfolding strides_loop mul_i64
compute_row_major_strides shape =
    let ndim = length shape in
    if ndim == 0 then pure [] else strides_loop (ndim - 1) shape (replicate ndim 1)

-- The numbers are those of dlpack.h: kDLInt is 0, kDLFloat 2, kDLCPU 1.
abbrev pub dtype_f64 : DlDataType
dtype_f64 = record { code = 2; bits = 64; lanes = 1 }

abbrev pub dtype_i32 : DlDataType
dtype_i32 = record { code = 0; bits = 32; lanes = 1 }

abbrev pub cpu : ℕ
cpu = 1

abbrev pub cpu_device : DlDevice
cpu_device = record { device_type = cpu; device_id = 0 }

abbrev pub dlpack_version : DlPackVersion
dlpack_version = record { major = 1; minor = 0 }

-- DLPACK_FLAG_BITMASK_IS_COPIED
abbrev pub flag_is_copied : Word
flag_is_copied = 2

abbrev pub cpu_tensor : Ptr → DlDataType → ℕ → (shape strides : Ptr) → DlTensor
cpu_tensor p dtype ndim shape strides = record {
  elements = p;
  device = cpu_device;
  ndim = to_half ndim;
  dtype = dtype;
  shape = shape;
  strides = strides;
  byte_offset = 0;
}

unfoldable pub create_borrowed_tensor : Ptr → DlDataType → List Word → Cmd Ptr
create_borrowed_tensor p dtype shape_vec = do
  strides_vec ← compute_row_major_strides shape_vec
  shape ← alloc (i64s shape_vec)
  strides ← alloc (i64s strides_vec)
  ctx ← alloc (borrowed_ctx (record { shape = shape; strides = strides }))
  alloc (
      managed (record {
        version = dlpack_version;
        manager_ctx = ctx;
        deleter = some borrowed_deleter;
        flags = 0;
        dl_tensor = cpu_tensor p dtype (length shape_vec) shape strides;
      }))

unfoldable pub create_owned_f64_tensor : List Double → List Word → Cmd Ptr
create_owned_f64_tensor elements shape_vec = do
  strides_vec ← compute_row_major_strides shape_vec
  data_ptr ← alloc (f64s elements)
  shape ← alloc (i64s shape_vec)
  strides ← alloc (i64s strides_vec)
  ctx ← alloc (owned_f64_ctx (record { kept = data_ptr; shape = shape; strides = strides }))
  alloc (
      managed (record {
        version = dlpack_version;
        manager_ctx = ctx;
        deleter = some owned_f64_deleter;
        flags = flag_is_copied;
        dl_tensor = cpu_tensor data_ptr dtype_f64 (length shape_vec) shape strides;
      }))

unfoldable pub create_owned_i32_tensor : List Half → List Word → Cmd Ptr
create_owned_i32_tensor elements shape_vec = do
  strides_vec ← compute_row_major_strides shape_vec
  data_ptr ← alloc (i32s elements)
  shape ← alloc (i64s shape_vec)
  strides ← alloc (i64s strides_vec)
  ctx ← alloc (owned_i32_ctx (record { kept = data_ptr; shape = shape; strides = strides }))
  alloc (
      managed (record {
        version = dlpack_version;
        manager_ctx = ctx;
        deleter = some owned_i32_deleter;
        flags = flag_is_copied;
        dl_tensor = cpu_tensor data_ptr dtype_i32 (length shape_vec) shape strides;
      }))

-- Dropping a `Box` of each context: its vectors' buffers, then its own block.
drop_borrowed : Cell → Cmd (Unit {0})
drop_borrowed (borrowed_ctx c) = dealloc c.shape >> dealloc c.strides
drop_borrowed _ = ub

drop_owned_f64 : Cell → Cmd (Unit {0})
drop_owned_f64 (owned_f64_ctx c) = dealloc c.kept >> (dealloc c.shape >> dealloc c.strides)
drop_owned_f64 _ = ub

drop_owned_i32 : Cell → Cmd (Unit {0})
drop_owned_i32 (owned_i32_ctx c) = dealloc c.kept >> (dealloc c.shape >> dealloc c.strides)
drop_owned_i32 _ = ub

abbrev free_context : (Cell → Cmd (Unit {0})) → Ptr → Cmd (Unit {0})
free_context drop_fields ctx =
    if is_null ctx then pure tt else do c ← load ctx; drop_fields c; dealloc ctx

-- The three deleters differ in the type that they cast the context to.
abbrev deleter_body : (Cell → Cmd (Unit {0})) → Ptr → Cmd (Unit {0})
deleter_body drop_fields p =
    if is_null p
    then pure tt
    else do m ← load p >>= as_managed; free_context drop_fields m.manager_ctx; dealloc p

run_borrowed_deleter : Ptr → Cmd (Unit {0})
unfolding drop_borrowed
run_borrowed_deleter = deleter_body drop_borrowed

run_owned_f64_deleter : Ptr → Cmd (Unit {0})
unfolding drop_owned_f64
run_owned_f64_deleter = deleter_body drop_owned_f64

run_owned_i32_deleter : Ptr → Cmd (Unit {0})
unfolding drop_owned_i32
run_owned_i32_deleter = deleter_body drop_owned_i32

pub run_deleter : Foreign → Deleter → Ptr → Cmd (Unit {0})
run_deleter c borrowed_deleter p = run_borrowed_deleter p
run_deleter c owned_f64_deleter p = run_owned_f64_deleter p
run_deleter c owned_i32_deleter p = run_owned_i32_deleter p
run_deleter c (foreign_deleter f) p = c.deleter f p

abbrev pub free_with : Foreign → Ptr → Option Deleter → Cmd (Unit {0})
free_with c p none = pure tt
free_with c p (some d) = extern_c (run_deleter c d p)

unfoldable pub rgpot_tensor_free : Foreign → Ptr → Cmd (Unit {0})
unfolding run_deleter run_borrowed_deleter run_owned_f64_deleter run_owned_i32_deleter
rgpot_tensor_free c p =
    if is_null p then pure tt else do m ← load p >>= as_managed; free_with c p m.deleter
