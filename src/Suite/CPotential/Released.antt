-- ===== src/Suite/CPotential/Released.antt =====
-- A calculation gives back what it took: `cleanup`, and the locals of its round.
use rgpot.CApi.Types.{null_input}
use rgpot.Rpc.Server.Dispatch.{Dispatched, Freed-Dispatched}
use rgpot.Rpc.Server.Contract.{IsReady, Computes, filled, Places}
use rgpot.CApi.Types.Input.{IsInput}
use rgpot.Rpc.Server.Serve.{
  returned-IsWorld, loaded, returned-cells, handed, places, handed-IsReady,
}
use rgpot.Layout.{force_input, force_out}
use rgpot.Prelude.{
  false, ◌≤◌, sym, ◌∙◌, ◌<◌, none, replicate, ◌*◌, some, ◌≡◌, ◌≢◌, Option, ℕ, ◌+◌, List, arith,
}
use rgpot.Suite.{Double, Word, ones, cube, Cell, ForceOut, Ptr, as_f64}
use rgpot.Suite.CPotential.{
  empty_out, rgpot_force_input_free, rgpot_tensor_free, ForceInput, null, functions, Foreign,
  cleanup,
}
use rgpot.Suite.CPotential.Counted.{put_other, put_self}
use rgpot.Memory.{SameRest, IsWorld, put, ok, World, load, store, dealloc}
use rgpot.Tensor.Blocks.{Freed, lt-next, Grown, within}

abbrev pub c : Foreign
c = functions null

dealloc-some :
    (p : Ptr) (w : World) {x : Cell}
    → p ≢ null
    → w.cell p ≡ some x
    → dealloc p w ≡ ok tt (put p none w)
unfolding dealloc load
dealloc-some p w live e = ground arith

-- What `cleanup` does to a computed output and its input.
cleanup-ok :
    (input output : Ptr) (o : ForceOut) (v₁ v₂ v₃ : World)
    → output ≢ null
    → v₁.cell output ≡ some (force_out o)
    → rgpot_tensor_free c o.forces v₁ ≡ ok tt v₂
    → rgpot_force_input_free c input v₂ ≡ ok tt v₃
    → v₃.cell output ≡ some (force_out o)
    → cleanup c input output v₁
      ≡ ok tt (put output (some (force_out (record o { forces = null }))) v₃)
unfolding cleanup load store
cleanup-ok input output o v₁ v₂ v₃ live e freed freed' e' = ground (arith, freed, freed')

-- The world when the blocks of a calculation's locals are given back.
abbrev pub without : Ptr → Ptr → World → World
without base input v =
    put base none
      (put (base + 1) none (put (base + 1 + 1) none (put input none (put (input + 1) none v))))

-- The five locals are given back in turn.
abbrev pub Deallocs : Ptr → Ptr → World → Type 0
Deallocs base input v =
    let u₁ = put (input + 1) none v in
    let u₂ = put input none u₁ in
    let u₃ = put (base + 1 + 1) none u₂ in
    let u₄ = put (base + 1) none u₃ in
    (dealloc (input + 1) v ≡ ok tt u₁)
    × (dealloc input u₁ ≡ ok tt u₂)
    × (dealloc (base + 1 + 1) u₂ ≡ ok tt u₃)
    × (dealloc (base + 1) u₃ ≡ ok tt u₄)
    × (dealloc base u₄ ≡ ok tt (without base input v))

deallocs :
    (base input : Ptr) (v : World) {c₁ c₂ c₃ c₄ c₅ : Cell}
    → base ≢ null
    → base + 1 + 1 < input
    → v.cell (input + 1) ≡ some c₅
    → v.cell input ≡ some c₄
    → v.cell (base + 1 + 1) ≡ some c₃
    → v.cell (base + 1) ≡ some c₂
    → v.cell base ≡ some c₁
    → Deallocs base input v
deallocs base input v {c₁} {c₂} {c₃} {c₄} live apart e₅ e₄ e₃ e₂ e₁ = (
  dealloc-some (input + 1) v (omega arith) e₅,
  dealloc-some input _ {x = c₄} (omega arith) (ground arith),
  dealloc-some (base + 1 + 1) _ {x = c₃} (omega arith) (ground arith),
  dealloc-some (base + 1) _ {x = c₂} (omega arith) (ground arith),
  dealloc-some base _ {x = c₁} live (ground arith),
)

-- What was last written to the two structs does not matter once they are given back.
without-same :
    (base input : Ptr) (x y : Option Cell) (v : World) (q : Ptr)
    → (without base input (put (input + 1) y (put input x v))).cell q
      ≡ (without base input v).cell q
without-same base input x y v q = ground arith

pub within-behind : (b k q : ℕ) → b + k ≤ q → within b k q ≡ false
within-behind b k q h = ground arith

within-below : (b k q : ℕ) → q < b → within b k q ≡ false
within-below b k q h = ground arith

-- A buffer of the call lies in front of its tensors and is there until it is given back.
buffer_kept :
    {v v₁ v₃ : World} {at : Places} {out : ForceOut} {x : Cell} (y z : Option Cell) (q : Ptr)
    → Dispatched v v₁ v₃ at out
    → q < at.tensors
    → q < at.input
    → at.input < at.output
    → v.cell q ≡ some x
    → (put at.output y (put at.input z v₃)).cell q ≡ some x
buffer_kept {v₃} {at} y z q d h h' h'' e =
    put_other at.output q y (put at.input z v₃) (omega arith)
    ∙ put_other at.input q z v₃ (omega arith)
    ∙ d.cells q (omega arith)
    ∙ rw (within-below at.tensors 12 q h) e

abbrev pub zero_forces : Word → List Double
zero_forces n = replicate (n * 3) 0

-- A calculation of `n` atoms whose input has been made.
module _ (w : World) (is : IsWorld w) (n : Word) (v : World) (i : ForceInput)
    (g : Grown 12 (loaded w is (zero_forces n) (ones n) cube) v)
    (t : IsInput v.cell
      (loaded w is (zero_forces n) (ones n) cube).next
      n
      w.next
      (w.next + 1)
      (w.next + 1 + 1)
      i) where
  abbrev pub at : Places
  at = places w is (zero_forces n) (ones n) cube v

  abbrev pub start : World
  start = handed w is (zero_forces n) (ones n) cube i v

  pub handle_kept : (pot : Ptr) {x : Cell} → w.cell pot ≡ some x → start.cell pot ≡ some x
  handle_kept pot e = let older = lt-next pot is e in ground (arith, g.next, g.cells pot)

  pub ready : IsReady start at i empty_out n (zero_forces n) (ones n) cube
  ready = handed-IsReady w is (zero_forces n) (ones n) cube v i n g t

  abbrev pub out : ForceOut
  out = filled start.next (as_f64 n) 0

  -- The input and the output at the end of `cleanup`.
  abbrev pub cleaned : World → World
  cleaned v₃ =
      put at.output (some (force_out (record out { forces = null })))
        (put at.input (some (force_input null_input)) v₃)

  module _ (v₁ v₂ v₃ : World)
      (k : Computes start v₁ at.output start.next n (zero_forces n) (as_f64 n) 0)
      (f : Freed start.next 5 v₁ v₂) (f' : Freed at.tensors 12 v₂ v₃) where
    dispatched : Dispatched start v₁ v₃ at out
    dispatched = Freed-Dispatched start at ready k f f'

    pub cleanup-cleaned :
        rgpot_tensor_free c out.forces v₁ ≡ ok tt v₂
        → rgpot_force_input_free c at.input v₂
          ≡ ok tt (put at.input (some (force_input null_input)) v₃)
        → cleanup c at.input at.output v₁ ≡ ok tt (cleaned v₃)
    cleanup-cleaned freed freed' =
        cleanup-ok at.input at.output out v₁ v₂ (put at.input (some (force_input null_input)) v₃)
          ready.output_live k.output_block freed freed'
          (put_other at.input at.output _ v₃ (λ same. ready.apart (sym same))
            ∙ dispatched.output_block)

    pub Deallocs-cleaned : Deallocs w.next v.next (cleaned v₃)
    Deallocs-cleaned =
        deallocs w.next v.next (cleaned v₃) ready.pos_live (omega (arith, g.next))
          (put_self at.output (put at.input (some (force_input null_input)) v₃))
          (put_other at.output at.input _ (put at.input (some (force_input null_input)) v₃)
              ready.apart
            ∙ put_self at.input v₃)
          (buffer_kept {v₃ = v₃} _ _ at.box dispatched (omega arith) (omega (arith, g.next))
            (omega arith) ready.box_block)
          (buffer_kept {v₃ = v₃} _ _ at.atm dispatched (omega arith) (omega (arith, g.next))
            (omega arith) ready.atm_block)
          (buffer_kept {v₃ = v₃} _ _ at.pos dispatched (omega arith) (omega (arith, g.next))
            (omega arith) ready.pos_block)

    abbrev pub end : World
    end = without w.next v.next (cleaned v₃)

    pub end-cells : (q : Ptr) → end.cell q ≡ w.cell q
    end-cells q =
        without-same w.next v.next _ _ v₃ q
        ∙ returned-cells w is (zero_forces n) (ones n) cube v i n g t dispatched q

    pub end-IsWorld : IsWorld end
    end-IsWorld =
        let r = returned-IsWorld w is (zero_forces n) (ones n) cube v i n g t dispatched in
        record {
          positive = r.positive;
          fresh = λ q h. without-same w.next v.next _ _ v₃ q ∙ r.fresh q h;
          null_unused = without-same w.next v.next _ _ v₃ 0 ∙ r.null_unused;
        }

    pub end-SameRest : SameRest w end
    end-SameRest = ground (arith, g.rest, k.rest, f.rest, f'.rest)
