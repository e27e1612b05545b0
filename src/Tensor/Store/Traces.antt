-- ===== src/Tensor/Store/Traces.antt =====
-- Sequences of calls, and what they stand for in the table of tensors.
use rgpot.Prelude.{◌*◌, List, [], ◌∷◌, ◌++◌, take}
use rgpot.Prelude.Words.{Half, Double, wrap}
use rgpot.Memory.{World}
use rgpot.Foreign.{Foreign}
use rgpot.Rpc.Wire.{ListBuilder}
use rgpot.Tensor.Store.Calls.{
  Step, make_f64s, make_i32s, free_buffer, borrow_2d, borrow_1d, borrow_matrix3, copy_2d, free,
  create_input, free_input, calculate, rpc_calculate,
}
use rgpot.Tensor.Store.Inputs.{create_input_tensors, release_input}
use rgpot.Tensor.Store.Table.{Op, create, release, matrix, vector, copied_matrix}
use rgpot.Tensor.Store.Tidy.{Mine, same, with_mine, without_mine}
use rgpot.Tensor.Store.View.{doubles}

pub data Reach (c : Foreign) (F : ListBuilder Double) (I : ListBuilder Half) (w : World)
    : World → Type 0 where
  here : Reach c F I w w
  next : {v v' : World} → Reach c F I w v → Step c F I v v' → Reach c F I w v'

-- The operations on the table that a call stands for. A copy takes the numbers that the source then
-- holds, as many as the product of the dimensions in machine integers; a calculation creates the
-- tensor of its forces.
abbrev pub ops :
    {c : Foreign} {F : ListBuilder Double} {I : ListBuilder Half} {w w' : World}
    → Step c F I w w'
    → List Op
ops (borrow_2d p t rows cols small h) = create t (matrix p rows cols) ∷ []
ops (borrow_1d p t len h) = create t (vector p len) ∷ []
ops (borrow_matrix3 p t h) = create t (matrix p 3 3) ∷ []
ops {w = w} (copy_2d p t rows cols small h) =
    create t (copied_matrix (take (wrap (rows * cols)) (doubles (w.cell p))) rows cols) ∷ []
ops (free t m live h) = release t ∷ []
ops (create_input n pos atm box i h) = create_input_tensors n pos atm box i
ops (free_input p i e freeable h) = release_input i
ops
      (calculate impl energy forces pot at i o o' n pos atm box potential_ok live handle ready sized
        h e) =
    create o'.forces (copied_matrix (forces pos atm box) n 3) ∷ []
ops (rpc_calculate net p self at i o o' n pos atm box fs e is answered h e') =
    create o'.forces (copied_matrix fs n 3) ∷ []
ops _ = []

abbrev pub trace :
    {c : Foreign} {F : ListBuilder Double} {I : ListBuilder Half} {w w' : World}
    → Reach c F I w w'
    → List Op
trace here = []
trace (next r st) = trace r ++ ops st

-- The buffers that the caller has of its own after a call, and after a sequence of calls.
abbrev pub mine_after :
    {c : Foreign} {F : ListBuilder Double} {I : ListBuilder Half} {w w' : World}
    → Step c F I w w'
    → Mine
    → Mine
mine_after {w = w} (make_f64s xs e) = with_mine w.next
mine_after {w = w} (make_i32s xs e) = with_mine w.next
mine_after (free_buffer p x is found apart e) = without_mine p
mine_after _ = same

abbrev pub mine_along :
    {c : Foreign} {F : ListBuilder Double} {I : ListBuilder Half} {w w' : World}
    → Reach c F I w w'
    → Mine
    → Mine
mine_along here mine = mine
mine_along (next r st) mine = mine_after st (mine_along r mine)
