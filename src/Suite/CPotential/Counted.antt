-- ===== src/Suite/CPotential/Counted.antt =====
-- What the callback that counts atoms leaves in the memory.
use rgpot.Rpc.Server.Dispatch.{mul_usize-small}
use rgpot.CApi.Types.Lifecycle.{n_atoms-IsInput}
use rgpot.Tensor.{create_owned_f64_tensor}
use rgpot.Types.{n_atoms}
use rgpot.Memory.{load, store, put, mul_usize, store}
use rgpot.Layout.{Cell, force_out, force_input, ForceOut, null, ForceInput}
use rgpot.Rpc.Server.Contract.{filled, Computes, IsReady, Places}
use rgpot.Rpc.Client.Receive.{forces-Computes, put-IsWorld}
use rgpot.Prelude.{
  Option, ◌∙◌, refl, replicate, some, ◌≡◌, ◌^◌, ◌<◌, ◌≢◌, ◌*◌, ℕ, List, [], ◌∷◌, arith,
}
use rgpot.Suite.{success, read_out, Half, Double, ok, Word, World, load, Ptr, as_f64, zeros}
use rgpot.Suite.Callbacks.{modify_out, count_atoms}
use rgpot.Tensor.Blocks.{lt-next}

pub put_self : (p : Ptr) (w : World) {x : Option Cell} → (put p x w).cell p ≡ x
put_self p w = ground arith

pub put_other : (p q : Ptr) (x : Option Cell) (w : World) → q ≢ p → (put p x w).cell q ≡ w.cell q
put_other p q x w h = ground arith

pub zeros-small : (n : ℕ) (w : World) → n * 8 < 2 ^ 63 → zeros n w ≡ ok (replicate n 0) w
zeros-small n w h = ground arith

module _ (p : Ptr) (live : p ≢ null) (f : ForceOut → ForceOut) (o : ForceOut) (w : World)
    (e : w.cell p ≡ some (force_out o)) where
  pub modify_out-live : modify_out p f w ≡ ok tt (put p (some (force_out (f o))) w)
  unfolding load store
  modify_out-live = ground arith

pub read_out-live :
    (p : Ptr) (o : ForceOut) (w : World)
    → p ≢ null
    → w.cell p ≡ some (force_out o)
    → read_out p w ≡ ok o w
unfolding load
read_out-live p o w live e = ground arith

load_input :
    (p : Ptr) (i : ForceInput) (w : World)
    → p ≢ null
    → w.cell p ≡ some (force_input i)
    → load p w ≡ ok (force_input i) w
unfolding load
load_input p i w live e = ground arith

count_atoms-ok :
    (input output t : Ptr) (i : ForceInput) (o : ForceOut) (n : Word) (w w₁ w₂ w₃ w₄ : World)
    → load input w ≡ ok (force_input i) w
    → read_out output w ≡ ok o w
    → n_atoms i w ≡ ok (some n) w
    → modify_out output (λ o. record o { energy = as_f64 n }) w ≡ ok tt w₁
    → modify_out output (λ o. record o { variance = 0 }) w₁ ≡ ok tt w₂
    → mul_usize n 3 w₂ ≡ ok (n * 3) w₂
    → zeros (n * 3) w₂ ≡ ok (replicate (n * 3) 0) w₂
    → create_owned_f64_tensor (replicate (n * 3) 0) (n ∷ 3 ∷ []) w₂ ≡ ok t w₃
    → modify_out output (λ o. record o { forces = t }) w₃ ≡ ok tt w₄
    → count_atoms input output w ≡ ok success w₄
unfolding count_atoms
count_atoms-ok input output t i o n w w₁ w₂ w₃ w₄ e₁ e₂ e₃ e₄ e₅ e₆ e₇ e₈ e₉ =
    rw (e₁, e₂, e₃, e₄, e₅, e₆, e₇, e₈, e₉) refl

-- On a ready call of `n` atoms the energy is `n` and the forces are zeros.
pub count_atoms-Computes :
    (w : World) (at : Places) (i : ForceInput) (o : ForceOut) (n : Word) (pos : List Double)
    (atm : List Half) (box : List Double)
    → IsReady w at i o n pos atm box
    → n * 24 < 2 ^ 63
    → (w' : World) × (count_atoms at.input at.output w ≡ ok success w')
      × Computes w w' at.output w.next n (replicate (n * 3) 0) (as_f64 n) 0
count_atoms-Computes w at i o n pos atm box ready small =
    let p : Ptr = at.output in
    let live = ready.output_live in
    let o₁ : ForceOut = record o { energy = as_f64 n } in
    let o₂ : ForceOut = record o₁ { variance = 0 } in
    let w₁ : World = put p (some (force_out o₁)) w in
    let w₂ : World = put p (some (force_out o₂)) w₁ in
    let e₁ : w₁.cell p ≡ some (force_out o₁) = put_self p w in
    let is₁ = put-IsWorld p (force_out o₁) live ready.output_block ready.world in
    let (w₃, made, e₃, k) =
      forces-Computes w w₂ p o₂ n (replicate (n * 3) 0) ready.world
        (put-IsWorld p (force_out o₂) live e₁ is₁) (lt-next p ready.world ready.output_block)
        (put_self p w₁) (λ q h. put_other p q _ w₁ h ∙ put_other p q _ w h) refl
        (record { thread = refl; last_error = refl; overflow_checks = refl }) in
    (
      put p (some (force_out (filled w.next (as_f64 n) 0))) w₃,
      count_atoms-ok at.input p _ i o n w w₁ w₂ w₃ _
          (load_input at.input i w ready.input_live ready.input_block)
          (read_out-live p o w live ready.output_block) (n_atoms-IsInput w i ready.input)
          (modify_out-live p live _ o w ready.output_block) (modify_out-live p live _ o₁ w₁ e₁)
          (mul_usize-small n w₂ (omega arith)) (zeros-small (n * 3) w₂ (omega arith)) made
          (modify_out-live p live _ o₂ w₃ e₃),
      k,
    )
