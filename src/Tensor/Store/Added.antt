-- ===== src/Tensor/Store/Added.antt =====
-- The calls that add a tensor.
use rgpot.Prelude.{
  ℕ, ◌+◌, ◌*◌, ◌^◌, ◌<◌, ◌≡◌, refl, ap, sym, some, List, [], ◌∷◌, arith, inl, inr, take,
}
use rgpot.Prelude.Words.{Word, Double, wrap}
use rgpot.Layout.{Ptr, ForceOut, DlDataType, force_out}
use rgpot.Memory.{World, Run, ok, extern_c_run, f64_slice, load}
use rgpot.Memory.Runs.{same_end}
use rgpot.Memory.Slices.{f64_slice-cases, mul_i64-cases, mul_i64-wrap}
use rgpot.Tensor.CApi.{rgpot_tensor_owned_cpu_f64_2d}
use rgpot.Tensor.Blocks.{IsBorrowed, Grown}
use rgpot.Tensor.Creation.{create_owned_f64_tensor-IsOwned}
use rgpot.Tensor.Made.{strides_2d}
use rgpot.Rpc.Server.Contract.{Computes}
use rgpot.Tensor.Store.{IsTensor, borrowed, owned, IsSound}
use rgpot.Tensor.Store.Table.{create, run_one, copied_matrix, of_caller}
use rgpot.Tensor.Store.Refined.{Refined}
use rgpot.Tensor.Store.Tidy.{same, Grown-IsTidy}
use rgpot.Tensor.Store.View.{view_of, view, doubles}
use rgpot.Tensor.Store.Changes.{view-Grown}
use rgpot.Tensor.Store.Extent.{base_of, size_of}
use rgpot.Tensor.Store.Computed.{Computes-IsTidy, Computes-IsSound, view-Computes}
use rgpot.Tensor.Store.Kept.{Grown-IsSound}

f64_slice-doubles :
    (p : Ptr) (n : Word) (w w' : World) (xs : List Double)
    → f64_slice p n w ≡ ok xs w'
    → xs ≡ take n (doubles (w.cell p))
unfolding f64_slice load
f64_slice-doubles p n w w' xs h = ground arith

module _ {w : World} (s : IsSound w) where
  -- New blocks, all of a new tensor.
  pub Grown-Refined :
      {k : ℕ} {w' : World} (t : Ptr) (g : Grown k w w') (h : IsTensor w'.cell t)
      → base_of h ≡ w.next
      → size_of h ≡ k
      → Refined w w' (create t (view_of h) ∷ []) same
  Grown-Refined t g h at size = record {
    sound = Grown-IsSound t s g h at size;
    table = run_one _ (view w.cell) (view-Grown t s g h at size);
    tidy = λ mine tidy. Grown-IsTidy mine s tidy t g h at size;
  }

  pub borrow-Refined :
      {m : Run Ptr} {p t : Ptr} {dtype : DlDataType} {shape strides : List Word} {w' w₁ : World}
      → m ≡ ok t w'
      → m ≡ ok (w.next + 1 + 1 + 1) w₁
      → IsBorrowed w₁.cell w.next p dtype shape strides
      → Grown 4 w w₁
      → Refined w w'
          (create t
              (record { numbers = of_caller p; dtype = dtype; shape = shape; strides = strides })
            ∷ [])
          same
  borrow-Refined {p} {t} {dtype} {shape} {strides} {w'} {w₁} h h' made g =
      let (at, end) = same_end h h' in
      rw (at, end)
        (Grown-Refined (w.next + 1 + 1 + 1) g (borrowed w.next p dtype shape strides refl made) refl
          refl)

  -- A copy that returns has made an owned tensor.
  pub copy-Refined :
      {w' : World} (p t : Ptr) (rows cols : Word)
      → cols < 2 ^ 64
      → rgpot_tensor_owned_cpu_f64_2d p rows cols w ≡ ok t w'
      → Refined w w'
          (create t (copied_matrix (take (wrap (rows * cols)) (doubles (w.cell p))) rows cols) ∷ [])
          same
  unfolding rgpot_tensor_owned_cpu_f64_2d
  copy-Refined p t rows cols small h = elim (mul_i64-cases rows cols w) [
    | inr e ↦ absurd (ground (arith, rw e at h))
    | inl (n, e) ↦ elim (f64_slice-cases p n w) [
      | inr e' ↦ absurd (ground (arith, rw (e, e') at h))
      | inl (xs, e') ↦
          let (w₁, made, tensor, g) =
            create_owned_f64_tensor-IsOwned s.world (strides_2d rows cols w small) xs in
          let (at, end) = same_end (rw (e, e') at h) (ap extern_c_run made) in
          let numbers : take (wrap (rows * cols)) (doubles (w.cell p)) ≡ xs =
            rw (mul_i64-wrap rows cols n w w e) at (sym (f64_slice-doubles p n w w xs e')) in
          rw (at, end, numbers)
            (Grown-Refined (w.next + 1 + 1 + 1 + 1) g
              (owned w.next xs (rows ∷ cols ∷ []) (cols ∷ 1 ∷ []) refl tensor) refl refl)
    ]
  ]

  -- A calculation has made the tensor of its forces.
  pub computed :
      {w' w₁ : World} {output t : Ptr} {n : Word} {fs : List Double} {e x : Double}
      {o o' : ForceOut}
      → w' ≡ w₁
      → w.cell output ≡ some (force_out o)
      → w'.cell output ≡ some (force_out o')
      → Computes w w₁ output t n fs e x
      → Refined w w' (create o'.forces (copied_matrix fs n 3) ∷ []) same
  computed {w'} {w₁} {output} {t} {n} {fs} {o} {o'} end old new k =
      let filled_in : w₁.cell output ≡ some (force_out o') = rw end at new in
      let at : o'.forces ≡ t + 1 + 1 + 1 + 1 = ground (arith, k.output_block) in
      rw (end, at)
        (record {
          sound = Computes-IsSound s old k;
          table = run_one _ (view w.cell) (view-Computes s old k);
          tidy = Computes-IsTidy s old k;
        })
