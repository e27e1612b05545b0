-- ===== src/Tensor/Accessors.antt =====
-- What the accessors of a new tensor give.
use rgpot.Prelude.{ℕ, ◌+◌, ◌^◌, ◌<◌, ◌≡◌, ◌≢◌, ◌∙◌, some, List, [], ◌∷◌, arith}
use rgpot.Prelude.Words.{Word}
use rgpot.Layout.{Managed, managed, Ptr, null, DlDevice, object}
use rgpot.Memory.{World, IsWorld, ok, Cmd, ◌>>=◌, pure, load, store, put, i64_slice}
use rgpot.Tensor.{cpu_device, dtype_f64}
use rgpot.Tensor.Blocks.{IsBorrowed, Grown-below, lt-next}
use rgpot.Tensor.CApi.{
  rgpot_tensor_cpu_f64_2d, rgpot_tensor_device, rgpot_tensor_data, rgpot_tensor_shape,
}
use rgpot.Tensor.Made.{rgpot_tensor_cpu_f64_2d-IsBorrowed}

-- The device, the data pointer and the shape pointer of a tensor, and the numbers of its shape.
abbrev pub described : Ptr → Ptr → Cmd (DlDevice × Ptr × List Word)
described t ndim_out = do
  device ← rgpot_tensor_device t
  elements ← rgpot_tensor_data t
  shape ← rgpot_tensor_shape t ndim_out
  extents ← i64_slice shape 2
  pure (device, elements, extents)

-- The shape of a live handle: the number of its dimensions is written to `out`.
pub rgpot_tensor_shape-live :
    (w : World) (t out : Ptr) (m : Managed) (old : ℕ)
    → IsWorld w
    → w.cell t ≡ some (managed m)
    → w.cell out ≡ some (object old)
    → rgpot_tensor_shape t out w ≡ ok m.dl_tensor.shape (put out (some (object m.dl_tensor.ndim)) w)
unfolding rgpot_tensor_shape store load
rgpot_tensor_shape-live w t out m old is live found = ground (arith, is.null_unused)

described-IsBorrowed :
    (w : World) {b p : Ptr} {rows cols : Word} {strides : List Word} (out : Ptr) {old : ℕ}
    → IsBorrowed w.cell b p dtype_f64 (rows ∷ cols ∷ []) strides
    → out ≢ null
    → out < b
    → w.cell out ≡ some (object old)
    → described (b + 1 + 1 + 1) out w
      ≡ ok (cpu_device, p, rows ∷ cols ∷ []) (put out (some (object 2)) w)
unfolding rgpot_tensor_device rgpot_tensor_data rgpot_tensor_shape store load i64_slice
described-IsBorrowed w out t live older e =
    ground (arith, t.positive, t.managed_block, t.shape_block)

-- A new matrix over a caller's buffer is on the CPU, its data pointer is the caller's, its shape
-- pointer reads [rows, cols], and `*ndim_out` becomes 2.
rgpot_tensor_shape-cpu_f64_2d :
    (w : World) (p : Ptr) (rows cols : Word) (out : Ptr) (old : ℕ)
    → IsWorld w
    → cols < 2 ^ 64
    → out ≢ null
    → w.cell out ≡ some (object old)
    → (w' : World) × ((do t ← rgpot_tensor_cpu_f64_2d p rows cols; described t out) w
        ≡ ok (cpu_device, p, rows ∷ cols ∷ []) w')
      × (w'.cell out ≡ some (object 2))
rgpot_tensor_shape-cpu_f64_2d w p rows cols out old is small live e =
    let (w₁, made, t, g) = rgpot_tensor_cpu_f64_2d-IsBorrowed is p rows cols small in
    let older = lt-next out is e in
    let read = described-IsBorrowed w₁ out t live older (Grown-below out g older ∙ e) in
    (put out (some (object 2)) w₁, rw made read, ground arith)
