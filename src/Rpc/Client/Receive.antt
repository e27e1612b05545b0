-- ===== src/Rpc/Client/Receive.antt =====
-- The response is turned into an owned tensor in the output.
use rgpot.Prelude.{
  ◌+◌, ◌*◌, ◌^◌, ◌<◌, ◌≡◌, ◌≢◌, refl, ◌∙◌, some, List, [], ◌∷◌, arith, length, good,
}
use rgpot.Prelude.Words.{Word, Double}
use rgpot.Layout.{Ptr, null, ForceOut, force_out, Cell}
use rgpot.Memory.{SameRest, World, IsWorld, ok, load, store, put, mul_usize}
use rgpot.Tensor.Made.{strides_2d}
use rgpot.Tensor.Blocks.{IsOwned-frame, Grown-below, lt-next}
use rgpot.Tensor.Creation.{create_owned_f64_tensor-IsOwned}
use rgpot.Tensor.{create_owned_f64_tensor}
use rgpot.Rpc.Wire.{ListReader, ResultReader, to_vec}
use rgpot.Rpc.Wire.Lists.{reader_of, to_vec-reader_of}
use rgpot.Rpc.Client.{set_energy, set_forces, receive}
use rgpot.Rpc.Server.Contract.{Computes, filled}
use rgpot.Rpc.Server.Dispatch.{mul_usize-small}

module _ (p : Ptr) (live : p ≢ null) (o : ForceOut) (w : World)
    (e : w.cell p ≡ some (force_out o)) where
  pub set_energy-live :
      (x : Double) → set_energy p x w ≡ ok tt (put p (some (force_out (record o { energy = x }))) w)
  unfolding set_energy load store
  set_energy-live x = ground arith

  pub set_forces-live :
      (t : Ptr) → set_forces p t w ≡ ok tt (put p (some (force_out (record o { forces = t }))) w)
  unfolding set_forces load store
  set_forces-live t = ground arith

pub put-IsWorld :
    {w : World} (p : Ptr) (x : Cell) {c : Cell}
    → p ≢ null
    → w.cell p ≡ some c
    → IsWorld w
    → IsWorld (put p (some x) w)
put-IsWorld p x live e is = record {
  positive = is.positive;
  fresh = λ q h. ground (arith, is.fresh q);
  null_unused = ground (arith, is.null_unused);
}

receive-ok :
    (n : Word) (r : ResultReader) (output t : Ptr) (forces : ListReader Double) (w w₁ w₂ w₃ : World)
    → set_energy output r.get_energy w ≡ ok tt w₁
    → r.get_forces ≡ good forces
    → mul_usize n 3 w₁ ≡ ok (n * 3) w₁
    → forces.len ≡ n * 3
    → create_owned_f64_tensor (to_vec forces) (n ∷ 3 ∷ []) w₁ ≡ ok t w₂
    → set_forces output t w₂ ≡ ok tt w₃
    → receive n r output w ≡ ok (good tt) w₃
unfolding receive
receive-ok n r output t forces w w₁ w₂ w₃ e₁ e₂ e₃ e₄ e₅ e₆ = ground (arith, e₁, e₂, e₃, e₄, e₅, e₆)

-- The last two steps that fill an output in, where those before have changed only the output.
pub forces-Computes :
    (w w₁ : World) (output : Ptr) (o : ForceOut) (n : Word) (fs : List Double)
    → IsWorld w
    → IsWorld w₁
    → output < w.next
    → w₁.cell output ≡ some (force_out o)
    → ((q : Ptr) → q ≢ output → w₁.cell q ≡ w.cell q)
    → w₁.next ≡ w.next
    → SameRest w w₁
    → (w₂ : World) × (create_owned_f64_tensor fs (n ∷ 3 ∷ []) w₁ ≡ ok (w₁.next + 1 + 1 + 1 + 1) w₂)
      × (w₂.cell output ≡ some (force_out o))
      × Computes w
          (put output (some (force_out (filled w₁.next o.energy o.variance))) w₂)
          output
          w₁.next
          n
          fs
          o.energy
          o.variance
forces-Computes w w₁ output o n fs is is₁ older e same next rest =
    let (w₂, made, owned, g) =
      create_owned_f64_tensor-IsOwned is₁ (strides_2d n 3 w₁ (omega arith)) fs in
    let w₃ : World = put output (some (force_out (filled w₁.next o.energy o.variance))) w₂ in
    (
      w₂,
      made,
      Grown-below output g (omega (arith, next)) ∙ e,
      record {
        tensor = IsOwned-frame {g = w₃.cell} owned λ q h. ground arith;
        output_block = ground arith;
        others = λ q h h'. ground (arith, next, g.cells q, same q);
        behind = omega (arith, next);
        below = omega (arith, g.next, next);
        fresh = λ q h. ground (arith, next, g.next, g.cells q, same q, is.fresh q);
        rest = ground (arith, rest, g.rest);
      },
    )

-- Energy, tensor, forces: the three steps that fill an output in.
pub deposit-Computes :
    (w : World) (output : Ptr) (o : ForceOut) (n : Word) (fs : List Double) (x : Double)
    → IsWorld w
    → output ≢ null
    → w.cell output ≡ some (force_out o)
    → (w₁ : World) × (w₂ : World) × (w₃ : World) × (t : Ptr) × (set_energy output x w ≡ ok tt w₁)
      × (create_owned_f64_tensor fs (n ∷ 3 ∷ []) w₁ ≡ ok t w₂)
      × (set_forces output t w₂ ≡ ok tt w₃)
      × Computes w w₃ output w.next n fs x o.variance
deposit-Computes w output o n fs x is live e =
    let o₁ : ForceOut = record o { energy = x } in
    let w₁ : World = put output (some (force_out o₁)) w in
    let (w₂, made, e₂, k) =
      forces-Computes w w₁ output o₁ n fs is (put-IsWorld output (force_out o₁) live e is)
        (lt-next output is e) (ground arith) (λ q h. ground arith) refl
        (record { thread = refl; last_error = refl; overflow_checks = refl }) in
    (
      w₁,
      w₂,
      put output (some (force_out (filled w.next x o.variance))) w₂,
      w.next + 1 + 1 + 1 + 1,
      set_energy-live output live o w e x,
      made,
      set_forces-live output live o₁ w₂ e₂ _,
      k,
    )

-- A response whose forces are `n * 3` long: the output gets the energy and an owned tensor with
-- copies of the forces, and keeps its variance.
pub receive-Computes :
    (w : World) (output : Ptr) (o : ForceOut) (n : Word) (fs : List Double) (x : Double)
    → IsWorld w
    → output ≢ null
    → w.cell output ≡ some (force_out o)
    → length fs ≡ n * 3
    → n * 3 < 2 ^ 64
    → (w' : World) × (receive n
          (record { get_energy = x; get_forces = good (reader_of 0 fs) })
          output
          w
        ≡ ok (good tt) w')
      × Computes w w' output w.next n fs x o.variance
receive-Computes w output o n fs x is live e size small =
    let (w₁, w₂, w₃, t, set, made, stored, k) = deposit-Computes w output o n fs x is live e in
    (
      w₃,
      receive-ok n _ output t (reader_of 0 fs) w w₁ w₂ w₃ set refl (mul_usize-small n w₁ small) size
          (rw (to_vec-reader_of 0 fs) made) stored,
      k,
    )
