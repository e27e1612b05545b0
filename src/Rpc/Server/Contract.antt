-- ===== src/Rpc/Server/Contract.antt =====
-- What the server hands to a callback, and what a callback that works makes of it.
use rgpot.Prelude.{none, ◌+◌, ◌*◌, ◌≤◌, ◌≡◌, ◌≢◌, false, some, List, [], ◌∷◌, length}
use rgpot.Prelude.Words.{Word, Half, Double}
use rgpot.Layout.{Ptr, FnPtr, null, ForceInput, ForceOut, f64s, i32s, force_input, force_out}
use rgpot.Memory.{World, IsWorld, SameRest, ok}
use rgpot.Status.{success}
use rgpot.Foreign.{Foreign}
use rgpot.Tensor.Blocks.{IsOwned, within}
use rgpot.CApi.Types.Input.{IsInput}

-- Where the pieces of a call lie: the two structs, the twelve blocks of the tensors, the buffers.
pub record Places : Type 0 where
  pub input : Ptr
  pub output : Ptr
  pub tensors : Ptr
  pub pos : Ptr
  pub atm : Ptr
  pub box : Ptr

-- A call is ready: an input struct of `n` atoms over live buffers, and an output struct.
pub record IsReady (v : World) (at : Places) (i : ForceInput) (o : ForceOut) (n : Word)
    (pos : List Double) (atm : List Half) (box : List Double) : Type 0 where
  pub world : IsWorld v
  pub input_live : at.input ≢ null
  pub output_live : at.output ≢ null
  pub apart : at.input ≢ at.output
  pub input_block : v.cell at.input ≡ some (force_input i)
  pub output_block : v.cell at.output ≡ some (force_out o)
  pub output_behind : within at.tensors 12 at.output ≡ false
  pub input : IsInput v.cell at.tensors n at.pos at.atm at.box i
  pub pos_live : at.pos ≢ null
  pub atm_live : at.atm ≢ null
  pub box_live : at.box ≢ null
  pub pos_block : v.cell at.pos ≡ some (f64s pos)
  pub atm_block : v.cell at.atm ≡ some (i32s atm)
  pub box_block : v.cell at.box ≡ some (f64s box)

-- The sizes that the schema promises for `n` atoms.
pub record IsSized (n : Word) (pos : List Double) (atm : List Half) (box : List Double)
    : Type 0 where
  pub pos_size : length pos ≡ n * 3
  pub atm_size : length atm ≡ n
  pub box_size : length box ≡ 9

-- The output when the forces tensor lies at `t`: its handle is the last of its blocks.
abbrev pub filled : Ptr → Double → Double → ForceOut
filled t e x = record { forces = t + 1 + 1 + 1 + 1; energy = e; variance = x }

-- `v'` is `v` with a new owned forces tensor at `t` and the output filled in.
pub record Computes (v v' : World) (output : Ptr) (t : Ptr) (n : Word) (fs : List Double)
    (e x : Double) : Type 0 where
  pub tensor : IsOwned v'.cell t fs (n ∷ 3 ∷ []) (3 ∷ 1 ∷ [])
  pub output_block : v'.cell output ≡ some (force_out (filled t e x))
  pub others : (q : Ptr) → q ≢ output → within t 5 q ≡ false → v'.cell q ≡ v.cell q
  pub behind : v.next ≤ t
  pub below : t + 5 ≤ v'.next
  pub fresh : (q : Ptr) → v'.next ≤ q → v'.cell q ≡ none
  pub rest : SameRest v v'

-- The callback computes energies and forces: on every ready call of the promised sizes it returns
-- RGPOT_SUCCESS, fills the output in and leaves all else as it was.
pub record IsPotential (c : Foreign) (callback : FnPtr) (user_data : Ptr)
    (energy : List Double → List Half → List Double → Double)
    (forces : List Double → List Half → List Double → List Double) : Type 0 where
  pub length-forces :
      (n : Word) (pos : List Double) (atm : List Half) (box : List Double)
      → IsSized n pos atm box
      → length (forces pos atm box) ≡ n * 3
  pub computes :
      (v : World) (at : Places) (i : ForceInput) (o : ForceOut) (n : Word) (pos : List Double)
      (atm : List Half) (box : List Double)
      → IsReady v at i o n pos atm box
      → IsSized n pos atm box
      → (v' : World) × (t : Ptr) × (x : Double) × (c.callback callback user_data at.input at.output
            v
          ≡ ok success v')
        × Computes v v' at.output t n (forces pos atm box) (energy pos atm box) x
