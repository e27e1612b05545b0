-- ===== src/Tensor/Store/View.antt =====
-- The view of a tensor in memory: what its blocks show of it.
use rgpot.Tensor.Store.Extent.{size_of, base_of}
use rgpot.Prelude.{
  [], ◌≡◌, ◌≢◌, refl, sym, ◌∙◌, true, Option, none, some, List, arith, inl, inr, ◌⊎◌,
}
use rgpot.Prelude.Words.{Word, Double}
use rgpot.Layout.{Ptr, Cell, Managed, DlDataType, managed, i64s, f64s, owned_f64_deleter}
use rgpot.Tensor.{dtype_f64}
use rgpot.Tensor.Blocks.{Cells, IsBorrowed-frame, IsOwned-frame, within}
use rgpot.Tensor.Store.{IsTensor, borrowed, owned}
use rgpot.Tensor.Store.Table.{Numbers, of_caller, own, View, Table}

abbrev pub words : Option Cell → Option (List Word)
words (some (i64s xs)) = some xs
words _ = none

abbrev pub doubles : Option Cell → List Double
doubles (some (f64s xs)) = xs
doubles _ = []

-- The deleter tells whose the numbers are.
abbrev pub numbers_of : Cells → Managed → Numbers
numbers_of f m = elim m.deleter [
  | some owned_f64_deleter ↦ own (doubles (f m.dl_tensor.elements))
  | _ ↦ of_caller m.dl_tensor.elements
]

abbrev pub assemble : Numbers → DlDataType → Option (List Word) → Option (List Word) → Option View
assemble n dtype (some shape) (some strides) =
    some (record { numbers = n; dtype = dtype; shape = shape; strides = strides })
assemble n dtype _ _ = none

-- The tensor whose `DLManagedTensorVersioned` is in a block.
abbrev pub of_managed : Cells → Option Cell → Option View
of_managed f (some (managed m)) =
    assemble (numbers_of f m) m.dl_tensor.dtype (words (f m.dl_tensor.shape))
      (words (f m.dl_tensor.strides))
of_managed f _ = none

unfoldable pub view : Cells → Table
view f t = of_managed f (f t)

abbrev pub view_of : {f : Cells} {t : Ptr} → IsTensor f t → View
view_of (borrowed b p dtype shape strides at h) = record {
  numbers = of_caller p;
  dtype = dtype;
  shape = shape;
  strides = strides;
}
view_of (owned b elements shape strides at h) = record {
  numbers = own elements;
  dtype = dtype_f64;
  shape = shape;
  strides = strides;
}

-- The view of a whole tensor is that of what it was made from.
pub view-IsTensor : {f : Cells} {t : Ptr} (h : IsTensor f t) → view f t ≡ some (view_of h)
unfolding view
view-IsTensor {f} {t} (borrowed b p dtype shape strides at h) =
    rw (at, h.managed_block, h.shape_block, h.strides_block) refl
view-IsTensor {f} {t} (owned b elements shape strides at h) =
    rw (at, h.managed_block, h.data_block, h.shape_block, h.strides_block) refl

of_managed-other :
    (f : Cells) (o : Option Cell) → ((m : Managed) → o ≢ some (managed m)) → of_managed f o ≡ none
of_managed-other f none other = refl
of_managed-other f (some (managed m)) other = absurd (other m refl)
of_managed-other f (some _) other = refl

-- What is no handle has no view.
pub view-unmanaged :
    (f : Cells) (t : Ptr) → ((m : Managed) → f t ≢ some (managed m)) → view f t ≡ none
unfolding view
view-unmanaged f t other = of_managed-other f (f t) other

-- A handle, or none.
pub managed-cases :
    (o : Option Cell)
    → ((m : Managed) × (o ≡ some (managed m))) ⊎ ((m : Managed) → o ≢ some (managed m))
managed-cases (some (managed m)) = inl (m, refl)
managed-cases none = inr λ m e. ground arith
managed-cases (some _) = inr λ m e. ground arith

-- What keeps the blocks of a tensor keeps its view.
pub view-frame :
    {f : Cells} {g : Cells} {t : Ptr} (h : IsTensor f t)
    → ((q : Ptr) → within (base_of h) (size_of h) q ≡ true → g q ≡ f q)
    → view g t ≡ view f t
view-frame {f} {g} {t} (borrowed b p dtype shape strides at h) same =
    view-IsTensor (borrowed b p dtype shape strides at (IsBorrowed-frame {f = f} {g = g} h same))
    ∙ sym (view-IsTensor (borrowed b p dtype shape strides at h))
view-frame {f} {g} {t} (owned b elements shape strides at h) same =
    view-IsTensor (owned b elements shape strides at (IsOwned-frame {f = f} {g = g} h same))
    ∙ sym (view-IsTensor (owned b elements shape strides at h))
