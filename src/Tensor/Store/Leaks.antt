-- ===== src/Tensor/Store/Leaks.antt =====
-- The crate leaks no block, whatever a C caller does.
use rgpot.Prelude.{◌≡◌, ◌⊎◌, inl, inr, sym, ap, ◌∙◌, true, some, arith}
use rgpot.Prelude.Words.{Half, Double}
use rgpot.Layout.{Ptr, Cell}
use rgpot.Memory.{World}
use rgpot.Foreign.{Foreign}
use rgpot.Rpc.Wire.{ListBuilder, IsListBuilder}
use rgpot.Tensor.Blocks.{within}
use rgpot.Tensor.Store.{IsTensor, IsSound}
use rgpot.Tensor.Store.Extent.{is_struct, base_of, size_of}
use rgpot.Tensor.Store.Table.{Table, run}
use rgpot.Tensor.Store.Tidy.{Mine, IsTidy, kept, buffer, part}
use rgpot.Tensor.Store.Traces.{Reach, trace, mine_along}
use rgpot.Tensor.Store.View.{view, view_of, view-IsTensor}
use rgpot.Tensor.Store.Refine.{Reach-Refined}

module _ (c : Foreign) (F : ListBuilder Double) (I : ListBuilder Half) (lawful : IsListBuilder F)
    (lawful' : IsListBuilder I) where
  -- Whatever a C caller does from a memory in which every block is accounted for, in any order:
  -- each block in use is then a string, an integer, an input or an output that the caller keeps,
  -- or the block of a potential's or a client's handle, or a buffer that the caller made and has
  -- not freed, or one of the blocks of a tensor that the table of tensors has under a handle. So
  -- when the table is empty, no block of the crate's tensors is left.
  pub Accounted-Reach :
      (w₀ w : World) (r : Reach c F I w₀ w) (mine : Mine) (T : Table) (q : Ptr) (x : Cell)
      → IsSound w₀
      → IsTidy mine w₀
      → run (trace r) (view w₀.cell) ≡ some T
      → w.cell q ≡ some x
      → (is_struct x ≡ true)
        ⊎ (mine_along r mine q ≡ true)
        ⊎ ((u : Ptr) × (h : IsTensor w.cell u) × (within (base_of h) (size_of h) q ≡ true)
            × (T u ≡ some (view_of h)))
  Accounted-Reach w₀ w r mine T q x s₀ tidy ran used =
      let k = Reach-Refined c F I lawful lawful' s₀ r in
      let both : some (view w.cell) ≡ some T = sym k.table ∙ ran in
      let table : view w.cell ≡ T = cc both in
      elim (k.tidy mine tidy q x used) [
        | kept y is e ↦ inl (ground arith)
        | buffer own ↦ inr (inl own)
        | part u h inside ↦
            inr (inr (u, h, inside, sym (ap (λ t. t u) table) ∙ view-IsTensor {f = w.cell} h))
      ]
