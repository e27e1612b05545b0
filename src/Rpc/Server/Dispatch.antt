-- ===== src/Rpc/Server/Dispatch.antt =====
-- The callback's forces are copied and every tensor is freed.
use rgpot.Prelude.{
  ◌≤◌, inr, sym, inl, Bool-cases, ℕ, ◌*◌, ◌^◌, ◌<◌, ◌≡◌, ◌≢◌, ap, ◌∙◌, true, false, none, some,
  List, arith, length, if◌then◌else◌,
}
use rgpot.Prelude.Words.{Word, Half, Double}
use rgpot.Layout.{Cell, Ptr, null, ForceInput, ForceOut, force_out}
use rgpot.Memory.{World, ok, SameRest, load, mul_usize}
use rgpot.Foreign.{Foreign}
use rgpot.Status.{Status, success}
use rgpot.Tensor.{rgpot_tensor_free}
use rgpot.Tensor.Blocks.{IsOwned, Freed, within}
use rgpot.Tensor.Free.{rgpot_tensor_free-IsOwned}
use rgpot.Tensor.Lifetime.{f64_slice-IsOwned}
use rgpot.CApi.Types.{free_tensors}
use rgpot.CApi.Types.Input.{IsInput, IsInput-frame, free_tensors-IsInput}
use rgpot.Rpc.Server.{PotentialServer, read_forces, dispatch}
use rgpot.Rpc.Server.Contract.{Places, IsReady, Computes, filled}

pub mul_usize-small : (n : ℕ) (w : World) → n * 3 < 2 ^ 64 → mul_usize n 3 w ≡ ok (n * 3) w
unfolding mul_usize
mul_usize-small n w h = ground arith

read_forces-IsOwned :
    (w : World) (t : Ptr) (n : Word) (fs : List Double) (e x : Double) {shape strides : List Word}
    → IsOwned w.cell t fs shape strides
    → length fs ≡ n * 3
    → n * 3 < 2 ^ 64
    → read_forces (filled t e x) n w ≡ ok fs w
unfolding read_forces load
read_forces-IsOwned w t n fs e x owned size small = ground (
  arith,
  mul_usize-small n w small,
  f64_slice-IsOwned {w = w} owned (n * 3) size,
  owned.positive,
  owned.managed_block,
)

pub dispatch-ok :
    (c : Foreign) (self : PotentialServer) (i : ForceInput) (input output : Ptr) (n : Word)
    (s : Status) (out : ForceOut) (fs : List Double) (v v₁ v₂ v₃ : World)
    → c.callback self.callback self.user_data input output v ≡ ok s v₁
    → output ≢ null
    → v₁.cell output ≡ some (force_out out)
    → read_forces out n v₁ ≡ ok fs v₁
    → rgpot_tensor_free c out.forces v₁ ≡ ok tt v₂
    → free_tensors c i v₂ ≡ ok tt v₃
    → dispatch c self i input output n v ≡ ok (s, out, fs) v₃
unfolding dispatch load
dispatch-ok c self i input output n s out fs v v₁ v₂ v₃ called live e read freed freed' =
    ground (arith, called, read, freed, freed')

-- What is left of the memory `v` of a ready call whose callback returned in `v₁`: the input's tensors
-- are gone and the output struct holds `out`.
pub record Dispatched (v v₁ v' : World) (at : Places) (out : ForceOut) : Type 0 where
  pub cells :
      (q : Ptr) → q ≢ at.output → v'.cell q ≡ (if within at.tensors 12 q then none else v.cell q)
  pub output_block : v'.cell at.output ≡ some (force_out out)
  pub grows : v.next ≤ v'.next
  pub rest : SameRest v₁ v'

module _ (v : World) (at : Places) {i : ForceInput} {o : ForceOut} {n : Word} {pos : List Double}
    {atm : List Half} {box : List Double} (ready : IsReady v at i o n pos atm box) where
  -- A block in use is not one of the new forces tensor's.
  pub forces_apart :
      {v₁ : World} {t : Ptr} {fs : List Double} {e x : Double} {q : Ptr} {c : Cell}
      → Computes v v₁ at.output t n fs e x
      → v.cell q ≡ some c
      → within t 5 q ≡ false
  forces_apart {q} k used = ground (arith, k.behind, ready.world.fresh q)

  pub clean :
      {v₁ v₂ : World} {t : Ptr} {fs : List Double} {e x : Double}
      → Computes v v₁ at.output t n fs e x
      → Freed t 5 v₁ v₂
      → (q : Ptr) → q ≢ at.output
      → v₂.cell q ≡ v.cell q
  clean {v₁} {v₂} {t} k f q h = elim (Bool-cases (within t 5 q)) [
    | inl e ↦ f.cells q ∙ rw e (sym (ready.world.fresh q (ground (arith, k.behind))))
    | inr e ↦ f.cells q ∙ rw e (k.others q h e)
  ]

  pub not_output : (q : Ptr) → within at.tensors 12 q ≡ true → q ≢ at.output
  not_output q h e = ground (arith, ready.output_behind)

  -- Once the forces and then the three tensors of the input are freed.
  pub Freed-Dispatched :
      {v₁ v₂ v₃ : World} {t : Ptr} {fs : List Double} {e x : Double}
      → Computes v v₁ at.output t n fs e x
      → Freed t 5 v₁ v₂
      → Freed at.tensors 12 v₂ v₃
      → Dispatched v v₁ v₃ at (filled t e x)
  Freed-Dispatched {t} k f f' =
      let away = forces_apart k ready.output_block in
      record {
        cells = λ q h.
            f'.cells q ∙ ap (λ y. if within at.tensors 12 q then none else y) (clean k f q h);
        output_block =
            f'.cells at.output
            ∙ rw ready.output_behind (f.cells at.output ∙ rw away k.output_block);
        grows = omega (arith, k.behind, k.below, f.next, f'.next);
        rest = ground (arith, f.rest, f'.rest);
      }

  -- The input that the callback was handed is as before when the forces are freed.
  pub input_kept :
      {v₁ v₂ : World} {t : Ptr} {fs : List Double} {e x : Double}
      → Computes v v₁ at.output t n fs e x
      → Freed t 5 v₁ v₂
      → IsInput v₂.cell at.tensors n at.pos at.atm at.box i
  input_kept {v₂} k f = IsInput-frame {g = v₂.cell} ready.input λ q h. clean k f q (not_output q h)

  -- After a callback that computes, the server has its forces, and of the call only the output
  -- struct is left besides what was there.
  pub dispatch-Computes :
      (c : Foreign) (self : PotentialServer) {v₁ : World} {t : Ptr} {fs : List Double}
      {e x : Double}
      → c.callback self.callback self.user_data at.input at.output v ≡ ok success v₁
      → Computes v v₁ at.output t n fs e x
      → length fs ≡ n * 3
      → n * 3 < 2 ^ 64
      → (v' : World) × (dispatch c self i at.input at.output n v
          ≡ ok (success, filled t e x, fs) v')
        × Dispatched v v₁ v' at (filled t e x)
  dispatch-Computes c self {v₁} {t} {fs} {e} {x} called k size small =
      let out : ForceOut = filled t e x in
      let read = read_forces-IsOwned v₁ t n fs e x k.tensor size small in
      let (v₂, freed, f) = rgpot_tensor_free-IsOwned c {w = v₁} k.tensor in
      let (v₃, freed', f') = free_tensors-IsInput c {w = v₂} (input_kept k f) in
      (
        v₃,
        dispatch-ok c self i at.input at.output n success out fs v v₁ v₂ v₃ called ready.output_live
            k.output_block read freed freed',
        Freed-Dispatched k f f',
      )
