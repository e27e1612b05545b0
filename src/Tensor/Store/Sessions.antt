-- ===== src/Tensor/Store/Sessions.antt =====
-- Whatever C callers did before, a live handle can be freed.
use rgpot.Prelude.{◌≡◌, ◌≢◌, sym, ◌∙◌, some, none, arith, true}
use rgpot.Prelude.Words.{Half, Double}
use rgpot.Layout.{Ptr, Managed, managed}
use rgpot.Memory.{World, ok}
use rgpot.Foreign.{Foreign}
use rgpot.Rpc.Wire.{ListBuilder, IsListBuilder}
use rgpot.Tensor.{rgpot_tensor_free}
use rgpot.Tensor.Blocks.{within}
use rgpot.Tensor.Store.{IsTensor, IsSound}
use rgpot.Tensor.Store.Extent.{base_of, size_of, extent, extents-apart}
use rgpot.Tensor.Store.Kept.{Freed-IsSound, rgpot_tensor_free-IsTensor}
use rgpot.Tensor.Store.Traces.{Reach}
use rgpot.Tensor.Store.Refine.{Reach-IsSound}

-- Whatever a C caller did before, in any order (buffers and structs of its own that come and go,
-- threads in turn, tensors that are borrowed, copied, read and freed, inputs, handles of
-- potentials and clients, calculations in the process and through the network, whether they
-- succeed, are refused or fail), a live handle can be freed without undefined behaviour: it is
-- gone then, while every other handle stays, with all the blocks of its tensor as they were, and
-- the memory is sound again.
pub rgpot_tensor_free-Reach :
    (c : Foreign) (F : ListBuilder Double) (I : ListBuilder Half) (w₀ w : World) (t : Ptr)
    (m : Managed)
    → IsListBuilder F
    → IsListBuilder I
    → IsSound w₀
    → Reach c F I w₀ w
    → w.cell t ≡ some (managed m)
    → (w' : World) × (rgpot_tensor_free c t w ≡ ok tt w')
      × (w'.cell t ≡ none)
      × ((u : Ptr) (h : IsTensor w.cell u)
          → u ≢ t
          → (q : Ptr) → within (base_of h) (size_of h) q ≡ true
          → w'.cell q ≡ w.cell q)
      × IsSound w'
rgpot_tensor_free-Reach c F I w₀ w t m lawful lawful' s₀ reached live =
    let s = Reach-IsSound c F I lawful lawful' s₀ reached in
    let tensor = s.store t m live in
    let x = extent {f = w.cell} t tensor in
    let (w', e, f) = rgpot_tensor_free-IsTensor c w t tensor in
    (
      w',
      e,
      f.cells t ∙ ground (arith, x.ends, x.some_block),
      λ u h apart q inside.
          f.cells q
          ∙ ground (
            arith,
            extents-apart x (extent {f = w.cell} u h) (λ same. apart (sym same)) q inside,
          ),
      Freed-IsSound t s tensor f,
    )
