-- ===== src/Tensor/Store/Observed.antt =====
-- What the accessors and the validation helpers give of a tensor is what its view says.
use rgpot.Tensor.Blocks.{owned_managed, borrowed_managed}
use rgpot.Prelude.{
  subst, ◌^◌, ◌<◌, sym, ℕ, ◌+◌, ◌≡◌, ◌≢◌, ◌↔◌, refl, ◌∙◌, some, [], ◌∷◌, arith, length, good, inl,
  inr,
}
use rgpot.Prelude.Text.{Text}
use rgpot.Prelude.Words.{Half, Double, Word}
use rgpot.Layout.{Managed, Ptr, DlDataType, f64s, i64s, object}
use rgpot.Memory.{World, ok, put, load, store}
use rgpot.Foreign.{Foreign}
use rgpot.Tensor.{cpu_device, dtype_f64, dtype_i32}
use rgpot.Tensor.CApi.{rgpot_tensor_device, rgpot_tensor_data, rgpot_tensor_shape}
use rgpot.Tensor.Validate.{validate_positions, validate_atomic_numbers, validate_box_matrix}
use rgpot.Tensor.Validate.Accepts.{
  Readable, validate_positions_iff, validate_atomic_numbers_iff, validate_box_matrix_iff,
}
use rgpot.Tensor.Store.{IsTensor, borrowed, owned, IsSound}
use rgpot.Rpc.Wire.{ListBuilder, IsListBuilder}
use rgpot.Tensor.Store.Traces.{Reach, trace}
use rgpot.Tensor.Store.Table.{Numbers, of_caller, own, View, Table, run}
use rgpot.Tensor.Store.View.{view, view_of, view-IsTensor, view-unmanaged, managed-cases}
use rgpot.Tensor.Store.Refine.{Reach-IsSound, view-Reach}

-- The data pointer leads to these numbers.
abbrev pub Shows : World → Ptr → Numbers → Type 0
Shows w q (of_caller p) = q ≡ p
Shows w q (own xs) = w.cell q ≡ some (f64s xs)

-- What the accessors give at a handle whose view is `v`, with `out` for the number of dimensions.
pub record Read (w : World) (t out : Ptr) (v : View) : Type 0 where
  pub elements : Ptr
  pub shape : Ptr
  pub on_cpu : rgpot_tensor_device t w ≡ ok cpu_device w
  pub pointed : rgpot_tensor_data t w ≡ ok elements w
  pub shown : Shows w elements v.numbers
  pub shaped : rgpot_tensor_shape t out w ≡ ok shape (put out (some (object (length v.shape))) w)
  pub extents : (put out (some (object (length v.shape))) w).cell shape ≡ some (i64s v.shape)

-- Exactly which views the validation helpers accept.
pub record Checked (debug : DlDataType → Text) (w : World) (t : Ptr) (v : View) : Type 0 where
  pub positions :
      (n : Word)
      → (validate_positions debug t w ≡ ok (good n) w)
        ↔ ((v.dtype ≡ dtype_f64) × (v.shape ≡ n ∷ 3 ∷ []))
  pub atomic_numbers :
      (n : Word)
      → (validate_atomic_numbers debug t n w ≡ ok (good tt) w)
        ↔ ((v.dtype ≡ dtype_i32) × (v.shape ≡ n ∷ []))
  pub box_matrix :
      (validate_box_matrix debug t w ≡ ok (good tt) w)
      ↔ ((v.dtype ≡ dtype_f64) × (v.shape ≡ 3 ∷ 3 ∷ []))

Read-IsTensor :
    (w : World) (t out : Ptr) (old : ℕ) (h : IsTensor w.cell t)
    → out ≢ 0
    → w.cell out ≡ some (object old)
    → length (view_of {f = w.cell} h).shape < 2 ^ 32
    → Read w t out (view_of h)
unfolding rgpot_tensor_device rgpot_tensor_data rgpot_tensor_shape store load
Read-IsTensor w t out old (borrowed b p dtype shape strides at h) live e small = record {
  elements = p;
  shape = b;
  on_cpu = ground (arith, h.managed_block);
  pointed = ground (arith, h.managed_block);
  shown = refl;
  shaped = ground (arith, h.managed_block);
  extents = ground (arith, h.shape_block);
}
Read-IsTensor w t out old (owned b xs shape strides at h) live e small = record {
  elements = b;
  shape = b + 1;
  on_cpu = ground (arith, h.managed_block);
  pointed = ground (arith, h.managed_block);
  shown = h.data_block;
  shaped = ground (arith, h.managed_block);
  extents = ground (arith, h.shape_block);
}

Checked-Readable :
    (debug : DlDataType → Text) {w : World} {t : Ptr} {m : Managed} (v : View)
    → Readable w t m v.shape
    → m.dl_tensor.dtype ≡ v.dtype
    → Checked debug w t v
Checked-Readable debug {w} {t} {m} v r same = record {
  positions = λ n. rw same at (validate_positions_iff debug n r);
  atomic_numbers = λ n. rw same at (validate_atomic_numbers_iff debug n r);
  box_matrix = rw same at (validate_box_matrix_iff debug r);
}

Checked-IsTensor :
    (debug : DlDataType → Text) (w : World) (t : Ptr) (h : IsTensor w.cell t)
    → length (view_of {f = w.cell} h).shape < 2 ^ 32
    → Checked debug w t (view_of h)
Checked-IsTensor debug w t (borrowed b p dtype shape strides at h) small =
    let r : Readable w t (borrowed_managed b p dtype shape) shape = record {
      live = omega (arith, at);
      handle = rw at h.managed_block;
      shape_live = omega (arith, h.positive);
      shape_block = h.shape_block;
      dimensions = omega arith;
    } in
    Checked-Readable debug (view_of {f = w.cell} (borrowed b p dtype shape strides at h)) r refl
Checked-IsTensor debug w t (owned b xs shape strides at h) small =
    let r : Readable w t (owned_managed b shape) shape = record {
      live = omega (arith, at);
      handle = rw at h.managed_block;
      shape_live = omega arith;
      shape_block = h.shape_block;
      dimensions = omega arith;
    } in
    Checked-Readable debug (view_of {f = w.cell} (owned b xs shape strides at h)) r refl

-- After any sequence of a C caller's calls, for a handle to which the table assigns a view of fewer
-- than 2 ^ 32 dimensions: the accessors give the device CPU, a data pointer to the view's numbers
-- (the caller's buffer, or a block with the copied numbers), a shape pointer to the view's shape and
-- the number of its dimensions; and each validation helper accepts the handle exactly when the view
-- has the type and the shape that the helper wants.
pub observed-Reach :
    (debug : DlDataType → Text) (c : Foreign) (F : ListBuilder Double) (I : ListBuilder Half)
    (w₀ w : World) (r : Reach c F I w₀ w) (T : Table) (t out : Ptr) (v : View) (old : ℕ)
    → IsListBuilder F
    → IsListBuilder I
    → IsSound w₀
    → run (trace r) (view w₀.cell) ≡ some T
    → T t ≡ some v
    → length v.shape < 2 ^ 32
    → w.cell out ≡ some (object old)
    → Read w t out v × Checked debug w t v
observed-Reach debug c F I w₀ w r T t out v old lawful lawful' s₀ ran seen small e =
    let s = Reach-IsSound c F I lawful lawful' s₀ r in
    let both : some T ≡ some (view w.cell) = sym ran ∙ view-Reach c F I lawful lawful' s₀ r in
    let same : T ≡ view w.cell = cc both in
    let viewed : view w.cell t ≡ some v = rw same at seen in
    elim (managed-cases (w.cell t)) [
      | inr other ↦ absurd (ground (arith, viewed, view-unmanaged w.cell t other))
      | inl (m, live) ↦
          let h = s.store t m live in
          let shown : view_of {f = w.cell} h ≡ v =
            ground (arith, viewed, view-IsTensor {f = w.cell} h) in
          let fits : length (view_of {f = w.cell} h).shape < 2 ^ 32 = rw shown small in
          let read : Read w t out (view_of {f = w.cell} h)
              × Checked debug w t (view_of {f = w.cell} h) =
            (
              Read-IsTensor w t out old h (λ z. absurd (ground (arith, s.world.null_unused))) e
                  fits,
              Checked-IsTensor debug w t h fits,
            ) in
          subst (λ x. Read w t out x × Checked debug w t x) shown read
    ]
