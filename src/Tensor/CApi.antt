-- ===== src/Tensor/CApi.antt =====
-- The exported functions of tensor.rs that create and read tensors. None of them is wrapped in
-- `catch_unwind`, so a panic in one ends the process.
use rgpot.Prelude.{[], ◌∷◌}
use rgpot.Prelude.Words.{Word}
use rgpot.Layout.{Ptr, DlDevice, object}
use rgpot.Memory.{Cmd, pure, ◌>>=◌, ◌>>◌, load, store, as_managed, mul_i64, f64_slice, extern_c}
use rgpot.Tensor.{dtype_f64, dtype_i32, create_borrowed_tensor, create_owned_f64_tensor}

unfoldable pub rgpot_tensor_cpu_f64_2d : Ptr → Word → Word → Cmd Ptr
rgpot_tensor_cpu_f64_2d p rows cols =
    extern_c (create_borrowed_tensor p dtype_f64 (rows ∷ cols ∷ []))

unfoldable pub rgpot_tensor_cpu_i32_1d : Ptr → Word → Cmd Ptr
rgpot_tensor_cpu_i32_1d p len = extern_c (create_borrowed_tensor p dtype_i32 (len ∷ []))

unfoldable pub rgpot_tensor_cpu_f64_matrix3 : Ptr → Cmd Ptr
rgpot_tensor_cpu_f64_matrix3 p = extern_c (create_borrowed_tensor p dtype_f64 (3 ∷ 3 ∷ []))

unfoldable pub rgpot_tensor_owned_cpu_f64_2d : Ptr → Word → Word → Cmd Ptr
rgpot_tensor_owned_cpu_f64_2d p rows cols = extern_c do
  len ← mul_i64 rows cols
  vec ← f64_slice p len
  create_owned_f64_tensor vec (rows ∷ cols ∷ [])

-- The accessors, for a handle that is not null.
unfoldable pub rgpot_tensor_device : Ptr → Cmd DlDevice
rgpot_tensor_device p = do m ← load p >>= as_managed; pure m.dl_tensor.device

unfoldable pub rgpot_tensor_data : Ptr → Cmd Ptr
rgpot_tensor_data p = do m ← load p >>= as_managed; pure m.dl_tensor.elements

-- `*ndim_out` is the caller's `int32_t`, an object of its own.
unfoldable pub rgpot_tensor_shape : Ptr → Ptr → Cmd Ptr
rgpot_tensor_shape p ndim_out = do
  m ← load p >>= as_managed
  store ndim_out (object m.dl_tensor.ndim)
  pure m.dl_tensor.shape
