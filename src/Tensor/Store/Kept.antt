-- ===== src/Tensor/Store/Kept.antt =====
-- Making a tensor and freeing a tensor keep the memory sound.
use rgpot.Prelude.{
  ℕ, ◌≡◌, ◌≢◌, sym, ◌∙◌, true, false, some, arith, inl, inr, Bool-cases, ◌==◌, subst,
}
use rgpot.Layout.{Ptr, Managed, Cell, managed}
use rgpot.Memory.{World, ok, with_block}
use rgpot.Memory.Slices.{with_block-IsWorld}
use rgpot.Foreign.{Foreign}
use rgpot.Tensor.{rgpot_tensor_free}
use rgpot.Tensor.Blocks.{Grown, Grown-IsWorld, Freed, Freed-IsWorld, within}
use rgpot.Tensor.Free.{rgpot_tensor_free-IsBorrowed, rgpot_tensor_free-IsOwned}
use rgpot.Tensor.Store.{IsTensor, borrowed, owned, IsSound}
use rgpot.Tensor.Store.Extent.{base_of, size_of, extent, extents-apart}

-- New blocks with a tensor among them: an older tensor's blocks were in use and stay, and the only
-- new handle is the new tensor's.
pub Grown-IsSound :
    {k : ℕ} {w w' : World} (t : Ptr)
    → IsSound w
    → Grown k w w'
    → (h : IsTensor w'.cell t) → base_of h ≡ w.next
    → size_of h ≡ k
    → IsSound w'
Grown-IsSound {k} {w} {w'} t s g h at size = record {
  world = Grown-IsWorld s.world g;
  store = λ u m e. elim (Bool-cases (within w.next k u)) [
    | inl inside ↦ new u m e inside
    | inr outside ↦
        let x = extent {f = w.cell} u (s.store u m (sym (g.cells u outside) ∙ e)) in
        x.frame w'.cell λ q inside. ground (arith, x.used q inside, s.world.fresh q, g.cells q)
  ];
}
  where
    new :
        (u : Ptr) (m : Managed)
        → w'.cell u ≡ some (managed m)
        → within w.next k u ≡ true
        → IsTensor w'.cell u
    new u m e inside =
        let same : u ≡ t = ground (arith, at, size, (extent t h).ends, (extent t h).inner u m) in
        subst (λ v. IsTensor w'.cell v) (sym same) h

-- A block that is no handle.
pub with_block-IsSound :
    {w : World} (c : Cell) → ((m : Managed) → c ≢ managed m) → IsSound w → IsSound (with_block c w)
with_block-IsSound {w} c other s = record {
  world = with_block-IsWorld c s.world;
  store = λ u m e. elim (Bool-cases (u == w.next)) [
    | inl here ↦ absurd (ground (arith, other m))
    | inr away ↦
        let x = extent {f = w.cell} u (s.store u m (ground arith)) in
        x.frame (with_block c w).cell λ q inside. ground (arith, x.used q inside, s.world.fresh q)
  ];
}

-- A tensor's blocks, without those of another.
pub Freed-IsSound :
    {w w' : World} (t : Ptr)
    → IsSound w
    → (h : IsTensor w.cell t) → Freed (base_of h) (size_of h) w w'
    → IsSound w'
Freed-IsSound {w} {w'} t s h f = record {
  world = Freed-IsWorld s.world f;
  store = λ u m e.
      let x = extent {f = w.cell} t h in
      let gone : within (base_of h) (size_of h) u ≡ false = ground (arith, f.cells u) in
      let apart : t ≢ u = ground (arith, x.ends, x.some_block) in
      let y = extent {f = w.cell} u (s.store u m (ground (arith, f.cells u))) in
      y.frame w'.cell λ q inside. ground (arith, f.cells q, extents-apart x y apart q inside);
}

-- Freeing a whole tensor gives back its blocks.
pub rgpot_tensor_free-IsTensor :
    (c : Foreign) (w : World) (t : Ptr) (h : IsTensor w.cell t)
    → (w' : World) × (rgpot_tensor_free c t w ≡ ok tt w') × Freed (base_of h) (size_of h) w w'
rgpot_tensor_free-IsTensor c w t (borrowed b p dtype shape strides at h) =
    let (w', freed, f) = rgpot_tensor_free-IsBorrowed c {w = w} h in (w', rw at freed, f)
rgpot_tensor_free-IsTensor c w t (owned b elements shape strides at h) =
    let (w', freed, f) = rgpot_tensor_free-IsOwned c {w = w} h in (w', rw at freed, f)
