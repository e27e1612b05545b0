-- ===== src/Tensor/Store/Changes.antt =====
-- What new blocks and freed blocks do to the table of tensors.
use rgpot.Prelude.{
  ℕ, ◌≡◌, ◌≢◌, refl, ap, sym, ◌∙◌, ◌==◌, true, none, some, arith, inl, inr, Bool-cases, fun_ext,
}
use rgpot.Layout.{Ptr, Cell, Managed, managed}
use rgpot.Memory.{World, with_block}
use rgpot.Tensor.Blocks.{Cells, Grown, Freed, within}
use rgpot.Tensor.Store.{IsTensor, IsSound}
use rgpot.Tensor.Store.Extent.{base_of, size_of, extent, extents-apart}
use rgpot.Tensor.Store.Table.{View, Table, create, release, assign, apply}
use rgpot.Tensor.Store.View.{
  view, view_of, view-IsTensor, view-unmanaged, view-frame, managed-cases,
}

pub apply-create :
    (t : Ptr) (v : View) (T : Table)
    → t ≢ 0
    → T t ≡ none
    → apply (create t v) T ≡ some (assign t (some v) T)
unfolding apply
apply-create t v T live free = ground (arith, free)

pub apply-release :
    (t : Ptr) (v : View) (T : Table)
    → t ≢ 0
    → T t ≡ some v
    → apply (release t) T ≡ some (assign t none T)
unfolding apply
apply-release t v T live used = ground (arith, used)

pub apply-release_null : (T : Table) → apply (release 0) T ≡ some T
unfolding apply
apply-release_null T = refl

-- The view of a handle whose block and whose tensor stay.
pub view-same :
    (f g : Cells) (store : (u : Ptr) (m : Managed) → f u ≡ some (managed m) → IsTensor f u)
    (u : Ptr)
    → g u ≡ f u
    → ((h : IsTensor f u) (q : Ptr) → within (base_of h) (size_of h) q ≡ true → g q ≡ f q)
    → view g u ≡ view f u
view-same f g store u same kept = elim (managed-cases (f u)) [
  | inl (m, e) ↦ view-frame {f = f} {g = g} (store u m e) (kept (store u m e))
  | inr other ↦ view-unmanaged g u (λ m e. other m (sym same ∙ e)) ∙ sym (view-unmanaged f u other)
]

-- A new tensor enters the table and nothing else in it changes.
pub view-Grown :
    {k : ℕ} {w w' : World} (t : Ptr) (s : IsSound w) (g : Grown k w w') (h : IsTensor w'.cell t)
    → base_of h ≡ w.next
    → size_of h ≡ k
    → apply (create t (view_of h)) (view w.cell) ≡ some (view w'.cell)
view-Grown {k} {w} {w'} t s g h at size =
    let x = extent {f = w'.cell} t h in
    let free : (u : Ptr) → within w.next k u ≡ true → view w.cell u ≡ none =
      λ u inside. view-unmanaged w.cell u (λ m e. ground (arith, s.world.fresh u)) in
    apply-create t (view_of h) (view w.cell)
      (ground (arith, x.ends, x.some_block, s.world.positive))
      (free t (ground (arith, x.ends, x.some_block)))
    ∙ ap some (
        fun_ext (λ u. elim (Bool-cases (u == t)) [
          | inl here ↦
              let same : u ≡ t = ground arith in
              rw here (rw same (sym (view-IsTensor {f = w'.cell} h)))
          | inr away ↦ rw away (elim (Bool-cases (within w.next k u)) [
            | inl inside ↦
                free u inside
                ∙ sym (view-unmanaged w'.cell u (λ m e. ground (arith, x.ends, x.inner u m)))
            | inr outside ↦ sym (
                view-same w.cell w'.cell s.store u (g.cells u outside) λ y q inside.
                  let z = extent {f = w.cell} u y in
                  ground (arith, z.used q inside, s.world.fresh q, g.cells q))
          ])
        ]))

-- A freed tensor leaves the table and nothing else in it changes.
pub view-Freed :
    {w w' : World} (t : Ptr) (s : IsSound w) (h : IsTensor w.cell t)
    → Freed (base_of h) (size_of h) w w'
    → apply (release t) (view w.cell) ≡ some (view w'.cell)
view-Freed {w} {w'} t s h f =
    let x = extent {f = w.cell} t h in
    let gone : (u : Ptr) → within (base_of h) (size_of h) u ≡ true → view w'.cell u ≡ none =
      λ u inside. view-unmanaged w'.cell u (λ m e. ground (arith, f.cells u)) in
    apply-release t (view_of h) (view w.cell)
      (λ z. absurd (ground (arith, s.world.null_unused, x.handle.1))) (view-IsTensor {f = w.cell} h)
    ∙ ap some (
        fun_ext (λ u. elim (Bool-cases (u == t)) [
          | inl here ↦ rw here (sym (gone u (ground (arith, x.ends, x.some_block))))
          | inr away ↦ rw away (elim (Bool-cases (within (base_of h) (size_of h) u)) [
            | inl inside ↦
                view-unmanaged w.cell u (λ m e. ground (arith, x.ends, x.inner u m))
                ∙ sym (gone u inside)
            | inr outside ↦ sym (
                view-same w.cell w'.cell s.store u (ground (arith, f.cells u)) λ y q inside.
                  let z = extent {f = w.cell} u y in
                  let apart : t ≢ u = ground arith in
                  ground (arith, f.cells q, extents-apart x z apart q inside))
          ])
        ]))

-- A block that is no handle changes no view.
pub view-with_block :
    {w : World} (c : Cell)
    → ((m : Managed) → c ≢ managed m)
    → IsSound w
    → view (with_block c w).cell ≡ view w.cell
view-with_block {w} c other s = fun_ext (λ u. elim (Bool-cases (u == w.next)) [
  | inl here ↦
      view-unmanaged (with_block c w).cell u (λ m e. ground (arith, other m))
      ∙ sym (view-unmanaged w.cell u (λ m e. ground (arith, s.world.fresh u)))
  | inr away ↦ view-same w.cell (with_block c w).cell s.store u (ground arith) λ y q inside.
      let z = extent {f = w.cell} u y in ground (arith, z.used q inside, s.world.fresh q)
])
