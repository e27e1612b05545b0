-- ===== src/Tensor/Lifetime.antt =====
-- A tensor that is made and freed leaves no block behind, and an owned one outlives its source.
use rgpot.Prelude.{
  ℕ, ◌+◌, ◌*◌, ◌^◌, ◌<◌, ◌≡◌, ◌≢◌, ap, ◌∙◌, none, some, List, [], ◌∷◌, arith, ◌==◌, if◌then◌else◌,
  length, take_all,
}
use rgpot.Prelude.Words.{Word, Double}
use rgpot.Layout.{Ptr, null, Cell, f64s}
use rgpot.Memory.{World, SameRest, ok, ◌>>=◌, ◌>>◌, pure, IsWorld, f64_slice, load, dealloc, put}
use rgpot.Memory.Slices.{f64_slice-f64s}
use rgpot.Foreign.{Foreign}
use rgpot.Tensor.{rgpot_tensor_free}
use rgpot.Tensor.CApi.{rgpot_tensor_cpu_f64_2d, rgpot_tensor_owned_cpu_f64_2d, rgpot_tensor_data}
use rgpot.Tensor.Blocks.{IsOwned, Grown, Freed, Grown-below, IsOwned-frame, lt-next}
use rgpot.Tensor.Made.{rgpot_tensor_cpu_f64_2d-IsBorrowed, rgpot_tensor_owned_cpu_f64_2d-IsOwned}
use rgpot.Tensor.Free.{rgpot_tensor_free-IsBorrowed, rgpot_tensor_free-IsOwned}

-- Every block of `w'` is as in `w`, and so are the error messages and the running thread.
pub record SameBlocks (w w' : World) : Type 0 where
  pub cells : (q : Ptr) → w'.cell q ≡ w.cell q
  pub rest : SameRest w w'

-- What is grown and then freed again is as before.
pub SameBlocks-Freed :
    (k : ℕ) {w w₁ w₂ : World} → IsWorld w → Grown k w w₁ → Freed w.next k w₁ w₂ → SameBlocks w w₂
SameBlocks-Freed k {w} {w₁} {w₂} is grown freed = record {
  cells = λ q. ground (arith, freed.cells q, grown.cells q, is.fresh q);
  rest = ground arith;
}

-- A borrowed matrix that is made and freed leaves every block as it was, the caller's buffer
-- included, and no block of its own.
rgpot_tensor_free-cpu_f64_2d :
    (c : Foreign) (w : World) (p : Ptr) (rows cols : Word)
    → IsWorld w
    → cols < 2 ^ 64
    → (w' : World) × ((do t ← rgpot_tensor_cpu_f64_2d p rows cols; rgpot_tensor_free c t) w
        ≡ ok tt w')
      × SameBlocks w w'
rgpot_tensor_free-cpu_f64_2d c w p rows cols is h =
    let (w₁, made, tensor, grown) = rgpot_tensor_cpu_f64_2d-IsBorrowed is p rows cols h in
    let (w₂, done, freed) = rgpot_tensor_free-IsBorrowed c tensor in
    (w₂, rw made done, SameBlocks-Freed 4 is grown freed)

module _ {w : World} {b : Ptr} {xs : List Double} {shape strides : List Word}
    (t : IsOwned w.cell b xs shape strides) where
  pub rgpot_tensor_data-IsOwned : rgpot_tensor_data (b + 1 + 1 + 1 + 1) w ≡ ok b w
  unfolding rgpot_tensor_data load
  rgpot_tensor_data-IsOwned = ground (arith, t.positive, t.managed_block)

  pub f64_slice-IsOwned : (n : ℕ) → length xs ≡ n → f64_slice b n w ≡ ok xs w
  f64_slice-IsOwned n size =
      f64_slice-f64s n (omega (arith, t.positive)) t.data_block (omega arith)
      ∙ ap (λ ys. ok ys w) (take_all n xs size)

dealloc-some :
    (w : World) (p : Ptr) {c : Cell}
    → p ≢ null
    → w.cell p ≡ some c
    → dealloc p w ≡ ok tt (put p none w)
unfolding dealloc load
dealloc-some w p live e = ground arith

-- An owned matrix of an in-range size is a copy: once the source buffer is freed, the tensor's data
-- still are the numbers that the source held. Freeing the tensor then leaves every block as it was,
-- less the source.
pub rgpot_tensor_owned_cpu_f64_2d_outlives :
    (c : Foreign) (w : World) (p : Ptr) (rows cols : Word) (xs : List Double)
    → IsWorld w
    → p ≢ null
    → w.cell p ≡ some (f64s xs)
    → rows < 2 ^ 63
    → cols < 2 ^ 63
    → rows * cols < 2 ^ 63
    → length xs ≡ rows * cols
    → (w' : World) × ((do
      t ← rgpot_tensor_owned_cpu_f64_2d p rows cols
      dealloc p
      elements ← rgpot_tensor_data t
      copy ← f64_slice elements (rows * cols)
      rgpot_tensor_free c t
      pure copy)
          w
        ≡ ok xs w')
      × ((q : Ptr) → w'.cell q ≡ (if q == p then none else w.cell q))
      × SameRest w w'
rgpot_tensor_owned_cpu_f64_2d_outlives c w p rows cols xs is live source small small' fits size =
    let (w₁, made, made_tensor, grown) =
      rgpot_tensor_owned_cpu_f64_2d-IsOwned is live source small small' fits (omega arith) in
    let older = lt-next p is source in
    let gone = dealloc-some w₁ p live (Grown-below p grown older ∙ source) in
    let w₂ : World = put p none w₁ in
    let tensor : IsOwned w₂.cell w.next xs (rows ∷ cols ∷ []) (cols ∷ 1 ∷ []) =
      rw (take_all (rows * cols) xs size) at
        (IsOwned-frame {g = w₂.cell} made_tensor λ q h. ground arith) in
    let (w₃, done, freed) = rgpot_tensor_free-IsOwned c {w = w₂} tensor in
    (
      w₃,
      rw (
        made,
        gone,
        rgpot_tensor_data-IsOwned {w = w₂} tensor,
        f64_slice-IsOwned {w = w₂} tensor (rows * cols) size,
        done,
      ),
      λ q. ground (arith, freed.cells q, grown.cells q, is.fresh q),
      ground (arith, freed.rest, grown.rest),
    )
