-- ===== src/Tensor/Overflow.antt =====
-- `rgpot_tensor_owned_cpu_f64_2d` when `rows * cols` is not an i64.
use rgpot.Prelude.{
  ℕ, ◌+◌, ◌*◌, ◌^◌, ◌≤◌, ◌<◌, ◌≡◌, ◌≢◌, refl, ap, true, false, some, List, [], ◌∷◌, length, take,
}
use rgpot.Prelude.Words.{Word, Double, wrap, mul_i64_overflows}
use rgpot.Layout.{Ptr, null, f64s}
use rgpot.Memory.{
  World, IsWorld, ok, aborted, panicked, mul_i64, f64_slice, extern_c_run, static_str,
  overflow_message,
}
use rgpot.Memory.Slices.{f64_slice-f64s}
use rgpot.Tensor.CApi.{rgpot_tensor_owned_cpu_f64_2d}
use rgpot.Tensor.Made.{strides_2d}
use rgpot.Tensor.Creation.{create_owned_f64_tensor-IsOwned}
use rgpot.Tensor.Blocks.{IsOwned, Grown}
use rgpot.Tensor.Strides.{mul_checked-wraps}

mul_i64-overflows :
    (a b : ℕ) (w : World)
    → w.overflow_checks ≡ true
    → mul_i64_overflows a b ≡ true
    → mul_i64 a b w ≡ panicked (static_str overflow_message) w
unfolding mul_i64
mul_i64-overflows a b w checks out = rw (out, checks) refl

-- In a build with overflow checks a product out of range ends the process, whatever the buffer is:
-- the function is not wrapped in `catch_unwind`, and no status or message reaches the caller.
pub rgpot_tensor_owned_cpu_f64_2d-aborts :
    (p : Ptr) (rows cols : Word) (w : World)
    → w.overflow_checks ≡ true
    → mul_i64_overflows rows cols ≡ true
    → rgpot_tensor_owned_cpu_f64_2d p rows cols w ≡ aborted
unfolding rgpot_tensor_owned_cpu_f64_2d
rgpot_tensor_owned_cpu_f64_2d-aborts p rows cols w checks out =
    rw (mul_i64-overflows rows cols w checks out) refl

-- In a build without them the number of copied elements is the product modulo 2 ^ 64, while the
-- tensor claims the shape [rows, cols].
pub rgpot_tensor_owned_cpu_f64_2d-wraps :
    (p : Ptr) (rows cols : Word) (xs : List Double) (w : World)
    → IsWorld w
    → w.overflow_checks ≡ false
    → p ≢ null
    → w.cell p ≡ some (f64s xs)
    → cols < 2 ^ 64
    → wrap (rows * cols) ≤ length xs
    → (w' : World) × (rgpot_tensor_owned_cpu_f64_2d p rows cols w ≡ ok (w.next + 1 + 1 + 1 + 1) w')
      × IsOwned w'.cell w.next (take (wrap (rows * cols)) xs) (rows ∷ cols ∷ []) (cols ∷ 1 ∷ [])
      × Grown 5 w w'
unfolding rgpot_tensor_owned_cpu_f64_2d mul_i64
rgpot_tensor_owned_cpu_f64_2d-wraps p rows cols xs w is checks live source small enough =
    let n : ℕ = wrap (rows * cols) in
    let sliced : f64_slice p n w ≡ ok (take n xs) w = f64_slice-f64s n live source enough in
    let (w', e, made, grown) =
      create_owned_f64_tensor-IsOwned is (strides_2d rows cols w small) (take n xs) in
    (
      w',
      rw (mul_checked-wraps (mul_i64_overflows rows cols) rows cols w checks, sliced)
          (ap extern_c_run e),
      made,
      grown,
    )
