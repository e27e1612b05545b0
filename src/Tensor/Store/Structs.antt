-- ===== src/Tensor/Store/Structs.antt =====
-- Structs that a caller keeps in blocks of their own, as they come, change and go.
use rgpot.Prelude.{
  ◌≡◌, ◌≢◌, sym, ◌∙◌, ◌==◌, true, false, Option, some, arith, inl, inr, Bool-cases, fun_ext,
}
use rgpot.Layout.{Ptr, Cell, Managed, managed}
use rgpot.Memory.{World, IsWorld, put, with_block}
use rgpot.Tensor.Blocks.{within}
use rgpot.Tensor.Store.{IsTensor, IsSound}
use rgpot.Tensor.Store.Extent.{is_struct, base_of, size_of, extent}
use rgpot.Tensor.Store.View.{view, view-unmanaged}
use rgpot.Tensor.Store.Changes.{view-same, view-with_block}
use rgpot.Tensor.Store.Kept.{with_block-IsSound}

struct-ne-managed : (x : Cell) → is_struct x ≡ true → (m : Managed) → x ≢ managed m
struct-ne-managed x h m e = ground (arith, rw e at h)

module _ {w : World} (x : Cell) (s : IsSound w) (is : is_struct x ≡ true) where
  pub struct-IsSound : IsSound (with_block x w)
  struct-IsSound = with_block-IsSound x (struct-ne-managed x is) s

  pub view-struct : view (with_block x w).cell ≡ view w.cell
  view-struct = view-with_block x (struct-ne-managed x is) s

-- A block that is no handle and belongs to no tensor is overwritten or given back: `o` is what is
-- there then, and no handle.
module _ (w : World) (p : Ptr) (x : Cell) (o : Option Cell) (s : IsSound w) (e : w.cell p ≡ some x)
    (plain : (m : Managed) → x ≢ managed m)
    (apart : (u : Ptr) (h : IsTensor w.cell u) → within (base_of h) (size_of h) p ≡ false)
    (other : (m : Managed) → o ≢ some (managed m)) where
  put-IsWorld : IsWorld (put p o w)
  put-IsWorld = record {
    positive = s.world.positive;
    fresh = λ q h. ground (arith, s.world.fresh q);
    null_unused = ground (arith, s.world.null_unused);
  }

  pub change-IsSound : IsSound (put p o w)
  change-IsSound = record {
    world = put-IsWorld;
    store = λ u m h. elim (Bool-cases (u == p)) [
      | inl here ↦ absurd (ground (arith, other m))
      | inr away ↦
          let z = s.store u m (ground arith) in
          (extent {f = w.cell} u z).frame (put p o w).cell λ q inside. ground (arith, apart u z)
    ];
  }

  pub view-change : view (put p o w).cell ≡ view w.cell
  view-change = fun_ext (λ u. elim (Bool-cases (u == p)) [
    | inl here ↦
        view-unmanaged (put p o w).cell u (λ m h. ground (arith, other m))
        ∙ sym (view-unmanaged w.cell u (λ m h. ground (arith, plain m)))
    | inr away ↦
        view-same w.cell (put p o w).cell s.store u (ground arith)
          λ z q inside. ground (arith, apart u z)
  ])

-- A struct belongs to no tensor.
pub struct-apart :
    (w : World) (p : Ptr) (x : Cell)
    → is_struct x ≡ true
    → w.cell p ≡ some x
    → (u : Ptr) (h : IsTensor w.cell u) → within (base_of h) (size_of h) p ≡ false
struct-apart w p x is e u h = elim (Bool-cases (within (base_of h) (size_of h) p)) [
  | inl inside ↦ absurd ((extent {f = w.cell} u h).no_struct p x is inside e)
  | inr outside ↦ outside
]

module _ (w : World) (p : Ptr) (x : Cell) (o : Option Cell) (s : IsSound w)
    (is : is_struct x ≡ true) (e : w.cell p ≡ some x)
    (other : (m : Managed) → o ≢ some (managed m)) where
  pub replace-IsSound : IsSound (put p o w)
  replace-IsSound =
      change-IsSound w p x o s e (struct-ne-managed x is) (struct-apart w p x is e) other

  pub view-replace : view (put p o w).cell ≡ view w.cell
  view-replace = view-change w p x o s e (struct-ne-managed x is) (struct-apart w p x is e) other
