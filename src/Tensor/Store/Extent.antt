-- ===== src/Tensor/Store/Extent.antt =====
-- The blocks of each tensor, and that no two tensors share one.
use rgpot.Prelude.{Bool, ℕ, ◌+◌, ◌≤◌, ◌<◌, ◌≡◌, ◌≢◌, ap, ◌∙◌, true, false, some, none, arith}
use rgpot.Layout.{
  Ptr, Managed, managed, Cell, f64s, i32s, c_chars, force_input, force_out, potential, client,
  object,
}
use rgpot.Tensor.Blocks.{Cells, IsBorrowed-frame, IsOwned-frame, within}
use rgpot.Tensor.Store.{IsTensor, borrowed, owned}

-- What a caller keeps in a block of its own, and what the handles of potentials and clients lead to.
-- No tensor has these among its blocks.
abbrev pub is_struct : Cell → Bool
is_struct (c_chars s) = true
is_struct (force_input i) = true
is_struct (force_out o) = true
is_struct (potential p) = true
is_struct (client c) = true
is_struct (object n) = true
is_struct _ = false

-- A caller's buffer, or the data of a copy.
abbrev pub is_buffer : Cell → Bool
is_buffer (f64s xs) = true
is_buffer (i32s xs) = true
is_buffer _ = false

-- The blocks of the tensor with the handle `t`: a run of blocks in use that ends with the handle, and
-- with no other handle and no such struct among them. What keeps these keeps the tensor.
pub record Extent (f : Cells) (t base : Ptr) (size : ℕ) : Type 0 where
  pub some_block : 0 < size
  pub ends : t + 1 ≡ base + size
  pub used : (q : Ptr) → within base size q ≡ true → f q ≢ none
  pub inner : (q : Ptr) (m : Managed) → base ≤ q → q < t → f q ≢ some (managed m)
  pub no_struct :
      (q : Ptr) (x : Cell) → is_struct x ≡ true → within base size q ≡ true → f q ≢ some x
  pub handle : (m : Managed) × (f t ≡ some (managed m))
  pub frame : (g : Cells) → ((q : Ptr) → within base size q ≡ true → g q ≡ f q) → IsTensor g t

abbrev pub base_of : {f : Cells} {t : Ptr} → IsTensor f t → Ptr
base_of (borrowed b p dtype shape strides at h) = b
base_of (owned b elements shape strides at h) = b

abbrev pub size_of : {f : Cells} {t : Ptr} → IsTensor f t → ℕ
size_of (borrowed b p dtype shape strides at h) = 4
size_of (owned b elements shape strides at h) = 5

pub extent : {f : Cells} (t : Ptr) (h : IsTensor f t) → Extent f t (base_of h) (size_of h)
extent {f} t (borrowed b p dtype shape strides at h) = record {
  some_block = omega arith;
  ends = omega arith;
  used = λ q inside e. ground (arith, h.shape_block, h.strides_block, h.ctx_block, h.managed_block);
  inner = λ q m below above e. ground (arith, h.shape_block, h.strides_block, h.ctx_block);
  no_struct = λ q x other inside e.
      ground (arith, h.shape_block, h.strides_block, h.ctx_block, h.managed_block);
  handle = (_, ap f at ∙ h.managed_block);
  frame = λ g same. borrowed b p dtype shape strides at (IsBorrowed-frame {f = f} {g = g} h same);
}
extent {f} t (owned b elements shape strides at h) = record {
  some_block = omega arith;
  ends = omega arith;
  used = λ q inside e.
      ground (arith, h.data_block, h.shape_block, h.strides_block, h.ctx_block, h.managed_block);
  inner = λ q m below above e.
      ground (arith, h.data_block, h.shape_block, h.strides_block, h.ctx_block);
  no_struct = λ q x other inside e.
      ground (arith, h.data_block, h.shape_block, h.strides_block, h.ctx_block, h.managed_block);
  handle = (_, ap f at ∙ h.managed_block);
  frame = λ g same. owned b elements shape strides at (IsOwned-frame {f = f} {g = g} h same);
}

-- Two handles never share a block.
pub extents-apart :
    {f : Cells} {t u a b : Ptr} {j k : ℕ} (x : Extent f t a j) (y : Extent f u b k)
    → t ≢ u
    → (q : Ptr) → within b k q ≡ true
    → within a j q ≡ false
extents-apart {t} {u} x y apart q inside =
    ground
      (arith, x.ends, y.ends, x.inner u y.handle.0, y.inner t x.handle.0, x.handle.1, y.handle.1)
