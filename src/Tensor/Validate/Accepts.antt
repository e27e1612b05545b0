-- ===== src/Tensor/Validate/Accepts.antt =====
-- Exactly which tensors the validation helpers accept.
use rgpot.Prelude.{ℕ, ◌≡◌, ◌≢◌, ◌↔◌, some, List, [], ◌∷◌, arith, length, good, take_all, ap, ◌∙◌}
use rgpot.Prelude.Text.{Text}
use rgpot.Prelude.Words.{Word}
use rgpot.Layout.{Ptr, null, DlDataType, Managed, i64s, managed}
use rgpot.Memory.{World, ok, load, i64_slice}
use rgpot.Memory.Slices.{i64_slice-i64s}
use rgpot.Tensor.{dtype_f64, dtype_i32}
use rgpot.Tensor.Validate.{validate_positions, validate_atomic_numbers, validate_box_matrix}

-- A live tensor whose shape array has `ndim` entries.
pub record Readable (w : World) (p : Ptr) (m : Managed) (shape : List Word) : Type 0 where
  pub live : p ≢ null
  pub handle : w.cell p ≡ some (managed m)
  pub shape_live : m.dl_tensor.shape ≢ null
  pub shape_block : w.cell m.dl_tensor.shape ≡ some (i64s shape)
  pub dimensions : length shape ≡ m.dl_tensor.ndim

pub i64_slice-Readable :
    {w : World} {p : Ptr} {m : Managed} {shape : List Word} (n : ℕ)
    → Readable w p m shape
    → m.dl_tensor.ndim ≡ n
    → i64_slice m.dl_tensor.shape n w ≡ ok shape w
i64_slice-Readable {w} {shape} n r h =
    i64_slice-i64s n r.shape_live r.shape_block (omega (arith, r.dimensions))
    ∙ ap (λ xs. ok xs w) (take_all n shape (r.dimensions ∙ h))

module _ (debug : DlDataType → Text) {w : World} {p : Ptr} {m : Managed} where
  -- `validate_positions` accepts a live tensor exactly when its type is f64 and its shape is
  -- [n, 3], and then returns that n; n is not looked at.
  pub validate_positions_iff :
      (n : Word) {shape : List Word}
      → Readable w p m shape
      → (validate_positions debug p w ≡ ok (good n) w)
        ↔ ((m.dl_tensor.dtype ≡ dtype_f64) × (shape ≡ n ∷ 3 ∷ []))
  unfolding validate_positions load
  validate_positions_iff n {shape = a ∷ b ∷ []} r =
      (ground (arith, i64_slice-Readable 2 r), ground (arith, i64_slice-Readable 2 r))
  validate_positions_iff n {shape = []} r = (ground arith, ground arith)
  validate_positions_iff n {shape = a ∷ []} r = (ground arith, ground arith)
  validate_positions_iff n {shape = a ∷ b ∷ x ∷ xs} r = (ground arith, ground arith)

  -- `validate_atomic_numbers` accepts exactly the i32 tensors of shape [n], for the n expected.
  pub validate_atomic_numbers_iff :
      (n : Word) {shape : List Word}
      → Readable w p m shape
      → (validate_atomic_numbers debug p n w ≡ ok (good tt) w)
        ↔ ((m.dl_tensor.dtype ≡ dtype_i32) × (shape ≡ n ∷ []))
  unfolding validate_atomic_numbers load
  validate_atomic_numbers_iff n {shape = a ∷ []} r =
      (ground (arith, i64_slice-Readable 1 r), ground (arith, i64_slice-Readable 1 r))
  validate_atomic_numbers_iff n {shape = []} r = (ground arith, ground arith)
  validate_atomic_numbers_iff n {shape = a ∷ b ∷ xs} r = (ground arith, ground arith)

  -- `validate_box_matrix` accepts exactly the f64 tensors of shape [3, 3].
  pub validate_box_matrix_iff :
      {shape : List Word}
      → Readable w p m shape
      → (validate_box_matrix debug p w ≡ ok (good tt) w)
        ↔ ((m.dl_tensor.dtype ≡ dtype_f64) × (shape ≡ 3 ∷ 3 ∷ []))
  unfolding validate_box_matrix load
  validate_box_matrix_iff {shape = a ∷ b ∷ []} r =
      (ground (arith, i64_slice-Readable 2 r), ground (arith, i64_slice-Readable 2 r))
  validate_box_matrix_iff {shape = []} r = (ground arith, ground arith)
  validate_box_matrix_iff {shape = a ∷ []} r = (ground arith, ground arith)
  validate_box_matrix_iff {shape = a ∷ b ∷ x ∷ xs} r = (ground arith, ground arith)
