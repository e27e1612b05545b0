-- ===== src/Tensor/Made.antt =====
-- The exported creating functions: what they make, and that freeing it gives everything back.
use rgpot.Prelude.{
  ℕ, ◌+◌, ◌*◌, ◌^◌, ◌≤◌, ◌<◌, ◌≡◌, ◌≢◌, refl, ap, some, List, [], ◌∷◌, arith, length, take,
}
use rgpot.Prelude.Words.{Word, Double}
use rgpot.Layout.{Ptr, null, f64s}
use rgpot.Memory.{World, ok, IsWorld, mul_i64, f64_slice, extern_c_run}
use rgpot.Memory.Slices.{f64_slice-f64s}
use rgpot.Tensor.{dtype_f64, dtype_i32, compute_row_major_strides}
use rgpot.Tensor.CApi.{
  rgpot_tensor_cpu_f64_2d, rgpot_tensor_cpu_i32_1d, rgpot_tensor_cpu_f64_matrix3,
  rgpot_tensor_owned_cpu_f64_2d,
}
use rgpot.Tensor.Blocks.{IsBorrowed, IsOwned, Grown}
use rgpot.Tensor.Creation.{create_borrowed_tensor-IsBorrowed, create_owned_f64_tensor-IsOwned}

-- A matrix has the strides `[cols, 1]`, and no product can overflow, whatever `cols` is.
pub strides_2d :
    (rows cols : Word) (w : World)
    → cols < 2 ^ 64
    → compute_row_major_strides (rows ∷ cols ∷ []) w ≡ ok (cols ∷ 1 ∷ []) w
unfolding compute_row_major_strides
strides_2d rows cols w h = ground arith

pub strides_1d : (len : Word) (w : World) → compute_row_major_strides (len ∷ []) w ≡ ok (1 ∷ []) w
unfolding compute_row_major_strides
strides_1d len w = refl

mul_i64-in_range :
    (a b : ℕ) (w : World) → a < 2 ^ 63 → b < 2 ^ 63 → a * b < 2 ^ 63 → mul_i64 a b w ≡ ok (a * b) w
unfolding mul_i64
mul_i64-in_range a b w ha hb h = ground arith

module _ {w : World} (is : IsWorld w) (p : Ptr) where
  pub rgpot_tensor_cpu_f64_2d-IsBorrowed :
      (rows cols : Word)
      → cols < 2 ^ 64
      → (w' : World) × (rgpot_tensor_cpu_f64_2d p rows cols w ≡ ok (w.next + 1 + 1 + 1) w')
        × IsBorrowed w'.cell w.next p dtype_f64 (rows ∷ cols ∷ []) (cols ∷ 1 ∷ [])
        × Grown 4 w w'
  unfolding rgpot_tensor_cpu_f64_2d
  rgpot_tensor_cpu_f64_2d-IsBorrowed rows cols h =
      let (w', e, made, grown) =
        create_borrowed_tensor-IsBorrowed is (strides_2d rows cols w h) p dtype_f64 in
      (w', ap extern_c_run e, made, grown)

  pub rgpot_tensor_cpu_i32_1d-IsBorrowed :
      (len : Word)
      → (w' : World) × (rgpot_tensor_cpu_i32_1d p len w ≡ ok (w.next + 1 + 1 + 1) w')
        × IsBorrowed w'.cell w.next p dtype_i32 (len ∷ []) (1 ∷ [])
        × Grown 4 w w'
  unfolding rgpot_tensor_cpu_i32_1d
  rgpot_tensor_cpu_i32_1d-IsBorrowed len =
      let (w', e, made, grown) =
        create_borrowed_tensor-IsBorrowed is (strides_1d len w) p dtype_i32 in
      (w', ap extern_c_run e, made, grown)

  pub rgpot_tensor_cpu_f64_matrix3-IsBorrowed :
      (w' : World) × (rgpot_tensor_cpu_f64_matrix3 p w ≡ ok (w.next + 1 + 1 + 1) w')
      × IsBorrowed w'.cell w.next p dtype_f64 (3 ∷ 3 ∷ []) (3 ∷ 1 ∷ [])
      × Grown 4 w w'
  unfolding rgpot_tensor_cpu_f64_matrix3
  rgpot_tensor_cpu_f64_matrix3-IsBorrowed =
      let (w', e, made, grown) =
        create_borrowed_tensor-IsBorrowed is (strides_2d 3 3 w (omega arith)) p dtype_f64 in
      (w', ap extern_c_run e, made, grown)

module _ {w : World} (is : IsWorld w) {p : Ptr} {rows cols : Word} {xs : List Double}
    (live : p ≢ null) (source : w.cell p ≡ some (f64s xs)) (small : rows < 2 ^ 63)
    (small' : cols < 2 ^ 63) (fits : rows * cols < 2 ^ 63) (enough : rows * cols ≤ length xs) where
  pub rgpot_tensor_owned_cpu_f64_2d-IsOwned :
      (w' : World) × (rgpot_tensor_owned_cpu_f64_2d p rows cols w ≡ ok (w.next + 1 + 1 + 1 + 1) w')
      × IsOwned w'.cell w.next (take (rows * cols) xs) (rows ∷ cols ∷ []) (cols ∷ 1 ∷ [])
      × Grown 5 w w'
  unfolding rgpot_tensor_owned_cpu_f64_2d
  rgpot_tensor_owned_cpu_f64_2d-IsOwned =
      let sliced : f64_slice p (rows * cols) w ≡ ok (take (rows * cols) xs) w =
        f64_slice-f64s (rows * cols) live source enough in
      let (w', e, made, grown) =
        create_owned_f64_tensor-IsOwned is (strides_2d rows cols w (omega arith))
          (take (rows * cols) xs) in
      (
        w',
        rw (mul_i64-in_range rows cols w small small' fits, sliced) (ap extern_c_run e),
        made,
        grown,
      )
