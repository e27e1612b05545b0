-- ===== src/Tensor/Store/Computed.antt =====
-- A calculation that fills an output in adds its forces tensor to the memory, and nothing else.
use rgpot.Prelude.{
  none, ◌+◌, ◌≡◌, ◌≢◌, refl, sym, ap, ◌∙◌, ◌==◌, true, some, List, [], ◌∷◌, arith, inl, inr,
  Bool-cases, fun_ext, subst,
}
use rgpot.Prelude.Words.{Word, Double}
use rgpot.Layout.{Ptr, ForceOut, force_out}
use rgpot.Memory.{World, IsWorld}
use rgpot.Tensor.Blocks.{within}
use rgpot.Tensor.Store.{IsTensor, owned, IsSound}
use rgpot.Tensor.Store.Extent.{size_of, base_of, extent}
use rgpot.Tensor.Store.Table.{create, apply, copied_matrix}
use rgpot.Tensor.Store.View.{view, view-IsTensor, view-unmanaged}
use rgpot.Tensor.Store.Changes.{apply-create, view-same}
use rgpot.Rpc.Server.Contract.{Computes, filled}
use rgpot.Tensor.Store.Tidy.{Mine, IsTidy, kept, part, carry}

module _ {w w' : World} {output t : Ptr} {n : Word} {fs : List Double} {e x : Double} {o : ForceOut}
    (s : IsSound w) (old : w.cell output ≡ some (force_out o))
    (k : Computes w w' output t n fs e x) where
  abbrev forces_tensor : IsTensor w'.cell (t + 1 + 1 + 1 + 1)
  forces_tensor = owned t fs (n ∷ 3 ∷ []) (3 ∷ 1 ∷ []) refl k.tensor

  Computes-IsWorld : IsWorld w'
  Computes-IsWorld = record {
    positive = omega (arith, k.below);
    fresh = k.fresh;
    null_unused =
        ground (arith, k.others 0, k.behind, s.world.positive, s.world.null_unused, k.output_block);
  }

  -- The blocks of an older tensor stay.
  older :
      (u : Ptr) (h : IsTensor w.cell u) (q : Ptr)
      → within (base_of h) (size_of h) q ≡ true
      → w'.cell q ≡ w.cell q
  older u h q inside =
      let y = extent {f = w.cell} u h in
      k.others q (ground (arith, y.no_struct q (force_out o) refl inside, old))
        (ground (arith, y.used q inside, s.world.fresh q, k.behind))

  pub Computes-IsSound : IsSound w'
  Computes-IsSound = record {
    world = Computes-IsWorld;
    store = λ u m h. elim (Bool-cases (within t 5 u)) [
      | inl inside ↦
          let y = extent {f = w'.cell} (t + 1 + 1 + 1 + 1) forces_tensor in
          let same : u ≡ t + 1 + 1 + 1 + 1 = ground (arith, y.inner u m) in
          subst (λ v. IsTensor w'.cell v) (sym same) forces_tensor
      | inr outside ↦
          let away : u ≢ output = λ z. absurd (ground (arith, k.output_block)) in
          let z = s.store u m (sym (k.others u away outside) ∙ h) in
          (extent {f = w.cell} u z).frame w'.cell (older u z)
    ];
  }

  pub view-Computes :
      apply (create (t + 1 + 1 + 1 + 1) (copied_matrix fs n 3)) (view w.cell) ≡ some (view w'.cell)
  view-Computes =
      let free : (u : Ptr) → within t 5 u ≡ true → view w.cell u ≡ none =
        λ u inside. view-unmanaged w.cell u (λ m h. ground (arith, s.world.fresh u, k.behind)) in
      apply-create (t + 1 + 1 + 1 + 1) (copied_matrix fs n 3) (view w.cell) (omega arith)
        (free (t + 1 + 1 + 1 + 1) (ground arith))
      ∙ ap some (
          fun_ext (λ u. elim (Bool-cases (u == t + 1 + 1 + 1 + 1)) [
            | inl here ↦
                let same : u ≡ t + 1 + 1 + 1 + 1 = ground arith in
                rw here (rw same (sym (view-IsTensor {f = w'.cell} forces_tensor)))
            | inr away ↦ rw away (elim (Bool-cases (within t 5 u)) [
              | inl inside ↦
                  let y = extent {f = w'.cell} (t + 1 + 1 + 1 + 1) forces_tensor in
                  free u inside
                  ∙ sym (view-unmanaged w'.cell u (λ m h. ground (arith, y.inner u m)))
              | inr outside ↦ elim (Bool-cases (u == output)) [
                | inl at ↦
                    view-unmanaged w.cell u (λ m h. ground (arith, old))
                    ∙ sym (view-unmanaged w'.cell u (λ m h. ground (arith, k.output_block)))
                | inr elsewhere ↦ sym (
                    view-same w.cell w'.cell s.store u (k.others u (ground arith) outside)
                      (older u))
              ]
            ])
          ]))

  pub Computes-IsTidy : (mine : Mine) → IsTidy mine w → IsTidy mine w'
  Computes-IsTidy mine tidy q y h = elim (Bool-cases (within t 5 q)) [
    | inl inside ↦ part (t + 1 + 1 + 1 + 1) forces_tensor inside
    | inr outside ↦ elim (Bool-cases (q == output)) [
      | inl at ↦ kept (force_out (filled t e x)) refl (ground (arith, k.output_block))
      | inr elsewhere ↦
          let stays : w'.cell q ≡ w.cell q = k.others q (ground arith) outside in
          carry mine mine w.cell w'.cell q stays (λ z. z) (λ u h' inside. older u h')
            (tidy q y (sym stays ∙ h))
    ]
  ]
