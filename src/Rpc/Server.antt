-- ===== src/Rpc/Server.antt =====
-- rgpot-core/src/rpc/server.rs: one `calculate` call on the server.
pub mod Contract
pub mod Dispatch
pub mod Serve
pub mod Refuse
pub mod Malformed
pub mod Start
pub mod Forceless
pub mod Service
use rgpot.Prelude.{
  false, true, ℕ, Bool, ◌*◌, List, [], ◌∷◌, length, Result, good, bad, if◌then◌else◌,
}
use rgpot.Prelude.Text.{Text, codes}
use rgpot.Prelude.Words.{Word, Half, Double, to_half}
use rgpot.Layout.{
  Ptr, FnPtr, is_null, ForceInput, ForceOut, Cell, f64s, i32s, force_input, force_out,
}
use rgpot.Memory.{
  Cmd, pure, ◌>>=◌, ◌>>◌, alloc, load, dealloc, as_managed, as_out, mul_usize, f64_slice,
}
use rgpot.Status.{Status, success, invalid_parameter, internal_error, rpc_error, buffer_size_error}
use rgpot.Foreign.{Foreign}
use rgpot.Tensor.{rgpot_tensor_free}
use rgpot.CApi.Types.{create_tensors, free_tensors, empty_out}
use rgpot.Rpc.Wire.{
  ListReader, to_vec, ListBuilder, write_list, InputReader, ResultMessage, CalculateParams, Wire,
}

-- `PotentialServer`
pub record PotentialServer : Type 0 where
  pub callback : FnPtr
  pub user_data : Ptr

-- The three lists of the request, or the first accessor error: the `pry!` lines.
abbrev pub Lists : Type 0
Lists = ListReader Double × ListReader Half × ListReader Double

abbrev get_lists : InputReader → Wire Lists
get_lists fip = elim fip.get_pos [
  | bad e ↦ bad e
  | good positions ↦ elim fip.get_atmnrs [
    | bad e ↦ bad e
    | good atmnrs ↦ elim fip.get_box [
      | bad e ↦ bad e
      | good box_data ↦ good (positions, atmnrs, box_data)
    ]
  ]
]

unfoldable pub read_params : CalculateParams → Wire Lists
read_params (bad e) = bad e
read_params (good (bad e)) = bad e
read_params (good (good fip)) = get_lists fip

-- The forces that the callback left, as `n_atoms * 3` doubles behind the data pointer.
unfoldable pub read_forces : ForceOut → Word → Cmd (List Double)
read_forces output n = if is_null output.forces then pure [] else do
  m ← load output.forces >>= as_managed
  len ← mul_usize n 3
  f64_slice m.dl_tensor.elements len

-- From the handed-over structs to the copied forces: the callback, the read, and the four frees.
unfoldable pub dispatch :
    Foreign
    → PotentialServer
    → ForceInput
    → (input output : Ptr) → Word
    → Cmd (Status × ForceOut × List Double)
dispatch c self i input output n = do
  status ← c.callback self.callback self.user_data input output
  out ← load output >>= as_out
  forces_copy ← read_forces out n
  rgpot_tensor_free c out.forces
  free_tensors c i
  pure (status, out, forces_copy)

abbrev pub is_success : Status → Bool
is_success success = true
is_success _ = false

abbrev pub callback_error : Text
callback_error = codes "potential callback returned an error"

-- The answer: an error unless the status is RGPOT_SUCCESS.
unfoldable pub respond :
    ListBuilder Double → Status → ForceOut → List Double → Cmd (Result ResultMessage Text)
respond F status out forces_copy =
    if is_success status
    then (do
      forces ← write_list F (to_half (length forces_copy)) forces_copy
      pure (good (record { energy = out.energy; forces = F.contents forces })))
    else pure (bad callback_error)

-- The stack of the call: the buffers of the three vectors and the two structs.
unfoldable pub release : (pos atm box input output : Ptr) → Cmd (Unit {0})
release pos atm box input output = do
  dealloc output
  dealloc input
  dealloc box
  dealloc atm
  dealloc pos

unfoldable pub serve :
    ListBuilder Double
    → Foreign
    → PotentialServer
    → List Double
    → List Half
    → List Double
    → Cmd (Result ResultMessage Text)
serve F c self pos_vec atm_vec box_vec = do
  let n_atoms = length atm_vec
  pos ← alloc (f64s pos_vec)
  atm ← alloc (i32s atm_vec)
  box ← alloc (f64s box_vec)
  i ← create_tensors n_atoms pos atm box
  input ← alloc (force_input i)
  output ← alloc (force_out empty_out)
  (status, out, forces_copy) ← dispatch c self i input output n_atoms
  answer ← respond F status out forces_copy
  release pos atm box input output
  pure answer

unfoldable pub calculate :
    ListBuilder Double
    → Foreign
    → PotentialServer
    → CalculateParams
    → Cmd (Result ResultMessage Text)
calculate F c self params = elim (read_params params) [
  | bad e ↦ pure (bad e)
  | good (positions, atmnrs, box_data) ↦
      serve F c self (to_vec positions) (to_vec atmnrs) (to_vec box_data)
]
