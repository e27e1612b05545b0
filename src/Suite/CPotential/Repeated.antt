-- ===== src/Suite/CPotential/Repeated.antt =====
-- The loop of the last test for any number of calculations of any size.
use rgpot.CApi.Types.Lifecycle.{rgpot_force_input_free-IsInput}
use rgpot.Rpc.Server.Dispatch.{mul_usize-small, clean, input_kept}
use rgpot.Tensor.Free.{rgpot_tensor_free-IsOwned}
use rgpot.CApi.Types.Input.{rgpot_force_input_create-IsInput}
use rgpot.Rpc.Server.Serve.{loaded-IsWorld}
use rgpot.Potential.{new, calculate}
use rgpot.CApi.Potential.Lifecycle.{rgpot_potential_calculate-live}
use rgpot.Layout.{force_input, i32s, f64s, potential, force_out, FnPtr}
use rgpot.Prelude.{
  ◌∙◌, ◌^◌, ◌<◌, refl, true, ◌==◌, ap, replicate, ◌*◌, some, ◌≡◌, ◌≢◌, Option, ℕ, ◌+◌, List, [],
  ◌∷◌, arith,
}
use rgpot.Suite.{Word, read_out, ones, cube, success, ForceOut, Ptr, as_f64, zeros}
use rgpot.Suite.CPotential.{
  empty_out, rgpot_potential_calculate, rgpot_force_input_create, sum_ptr, ForceInput, null,
  cleanup, calculate_once, for_each,
}
use rgpot.Suite.CPotential.Counted.{zeros-small, read_out-live, count_atoms-Computes}
use rgpot.Suite.Callbacks.{count_atoms}
use rgpot.Memory.{SameRest, IsWorld, extern_c_run, with_block, ok, mul_usize, World, dealloc}
use rgpot.Suite.CPotential.Released.{
  c, zero_forces, at, start, out, cleaned, end, handle_kept, ready, Deallocs-cleaned,
  cleanup-cleaned, end-cells, end-IsWorld, end-SameRest, within-behind,
}

sum_callback-live :
    (pot : Ptr) (user_data input output : Ptr) (free_fn : Option FnPtr) (w w' : World)
    → pot ≢ null
    → input ≢ null
    → output ≢ null
    → w.cell pot ≡ some (potential (new sum_ptr user_data free_fn))
    → count_atoms input output w ≡ ok success w'
    → rgpot_potential_calculate c pot input output w ≡ ok success w'
unfolding calculate
sum_callback-live pot user_data input output free_fn w w' live l l' e done =
    rgpot_potential_calculate-live c (new sum_ptr user_data free_fn) pot live input output w w'
      success l l' e (ap extern_c_run done)

same_self : (n : ℕ) → (n == n) ≡ true
same_self n = ground arith

calculate_once-ok :
    (pot n : ℕ) (o : ForceOut) (w v v₁ v₂ u₁ u₂ u₃ u₄ u₅ : World) (i : ForceInput)
    → mul_usize n 3 w ≡ ok (n * 3) w
    → zeros (n * 3) w ≡ ok (replicate (n * 3) 0) w
    → rgpot_force_input_create n w.next (w.next + 1) (w.next + 1 + 1) (
        with_block
          (f64s cube)
          (with_block (i32s (ones n)) (with_block (f64s (replicate (n * 3) 0)) w)))
      ≡ ok i v
    → rgpot_potential_calculate c pot v.next
        (v.next + 1)
        (with_block (force_out empty_out) (with_block (force_input i) v))
      ≡ ok success v₁
    → read_out (v.next + 1) v₁ ≡ ok o v₁
    → o.energy ≡ as_f64 n
    → cleanup c v.next (v.next + 1) v₁ ≡ ok tt v₂
    → dealloc (v.next + 1) v₂ ≡ ok tt u₁
    → dealloc v.next u₁ ≡ ok tt u₂
    → dealloc (w.next + 1 + 1) u₂ ≡ ok tt u₃
    → dealloc (w.next + 1) u₃ ≡ ok tt u₄
    → dealloc w.next u₄ ≡ ok tt u₅
    → calculate_once pot n w ≡ ok tt u₅
unfolding calculate_once
calculate_once-ok pot n o w v v₁ v₂ u₁ u₂ u₃ u₄ u₅ i e₁ e₂ e₃ e₄ e₅ e₆ e₇ d₁ d₂ d₃ d₄ d₅ =
    rw (e₁, e₂, e₃, e₄, e₅, e₆, same_self (as_f64 n), e₇, d₁, d₂, d₃, d₄, d₅) refl

-- One calculation of `n` atoms on a handle that counts them: it returns, its assertions hold, and
-- every block is as before.
calculate_once-returns :
    (w : World) (pot user_data : Ptr) (free_fn : Option FnPtr) (n : Word)
    → IsWorld w
    → pot ≢ null
    → w.cell pot ≡ some (potential (new sum_ptr user_data free_fn))
    → n * 24 < 2 ^ 63
    → (w' : World) × (calculate_once pot n w ≡ ok tt w')
      × ((q : Ptr) → w'.cell q ≡ w.cell q)
      × IsWorld w'
      × SameRest w w'
calculate_once-returns w pot user_data free_fn n is live handle small =
    let (i, v, made, t, g) =
      rgpot_force_input_create-IsInput n w.next (w.next + 1) (w.next + 1 + 1)
        (loaded-IsWorld w is (zero_forces n) (ones n) cube) in
    let r = ready w is n v i g t in
    let v₀ : World = start w is n v i g t in
    let (v₁, counted, k) =
      count_atoms-Computes v₀ (at w is n v i g t) i empty_out n (zero_forces n) (ones n) cube r
        small in
    let (v₂, freed, f) = rgpot_tensor_free-IsOwned c {w = v₁} k.tensor in
    let kept = clean v₀ (at w is n v i g t) r k f in
    let (v₃, freed', f') =
      rgpot_force_input_free-IsInput c v.next v₂ r.input_live
        (within-behind (at w is n v i g t).tensors 12 v.next (omega (arith, g.next)))
        (kept v.next r.apart ∙ r.input_block) (input_kept v₀ (at w is n v i g t) r k f) in
    let (d₁, d₂, d₃, d₄, d₅) = Deallocs-cleaned w is n v i g t v₁ v₂ v₃ k f f' in
    (
      end w is n v i g t v₁ v₂ v₃ k f f',
      calculate_once-ok pot n (out w is n v i g t) w v v₁ (cleaned w is n v i g t v₃) _ _ _ _ _ i
          (mul_usize-small n w (omega arith)) (zeros-small (n * 3) w (omega arith)) made
          (sum_callback-live pot user_data v.next (v.next + 1) free_fn v₀ v₁ live r.input_live
            r.output_live (handle_kept w is n v i g t pot handle) counted)
          (read_out-live (v.next + 1) _ v₁ r.output_live k.output_block) refl
          (cleanup-cleaned w is n v i g t v₁ v₂ v₃ k f f' freed freed') d₁ d₂ d₃ d₄ d₅,
      end-cells w is n v i g t v₁ v₂ v₃ k f f',
      end-IsWorld w is n v i g t v₁ v₂ v₃ k f f',
      end-SameRest w is n v i g t v₁ v₂ v₃ k f f',
    )

-- Sizes whose `vec![0.0; n * 3]` fits the address space.
abbrev pub Allocatable : List Word → Type 0
Allocatable [] = Unit {0}
Allocatable (n ∷ ns) = (n * 24 < 2 ^ 63) × Allocatable ns

-- One handle serves any number of calculations of any sizes, in any order: each round of the loop
-- makes an input of `n` atoms and calculates, the call succeeds with the energy `n`, and the
-- cleanup and the end of the round give back all that the round has taken. When the loop is done,
-- every block is as before it, and so are the error messages.
pub for_each-calculate_once :
    (ns : List Word) (w : World) (pot user_data : Ptr) (free_fn : Option FnPtr)
    → IsWorld w
    → pot ≢ null
    → w.cell pot ≡ some (potential (new sum_ptr user_data free_fn))
    → Allocatable ns
    → (w' : World) × (for_each ns (calculate_once pot) w ≡ ok tt w')
      × ((q : Ptr) → w'.cell q ≡ w.cell q)
      × IsWorld w'
      × SameRest w w'
for_each-calculate_once [] w pot user_data free_fn is live handle small =
    (w, refl, λ q. refl, is, record { thread = refl; last_error = refl; overflow_checks = refl })
for_each-calculate_once (n ∷ ns) w pot user_data free_fn is live handle small =
    let (w₁, done, cells, is₁, rest) =
      calculate_once-returns w pot user_data free_fn n is live handle small.0 in
    let (w₂, done', cells', is₂, rest') =
      for_each-calculate_once ns w₁ pot user_data free_fn is₁ live (cells pot ∙ handle) small.1 in
    (w₂, rw (done, done') refl, λ q. cells' q ∙ cells q, is₂, ground (arith, rest, rest'))
