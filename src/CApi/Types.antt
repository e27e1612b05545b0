-- ===== src/CApi/Types.antt =====
-- rgpot-core/src/c_api/types.rs: inputs and outputs for C callers.
pub mod Input
pub mod Lifecycle
pub mod Valid
use rgpot.Prelude.{if◌then◌else◌}
use rgpot.Prelude.Words.{Word, zero_double}
use rgpot.Layout.{Ptr, null, is_null, ForceInput, ForceOut, force_input}
use rgpot.Memory.{Cmd, pure, ◌>>=◌, ◌>>◌, load, store, as_input, extern_c}
use rgpot.Foreign.{Foreign}
use rgpot.Tensor.{rgpot_tensor_free}
use rgpot.Tensor.CApi.{
  rgpot_tensor_cpu_f64_2d, rgpot_tensor_cpu_i32_1d, rgpot_tensor_cpu_f64_matrix3,
}

-- The three tensors of an input, in the order in which the struct literal makes them.
unfoldable pub create_tensors : Word → (pos atmnrs box : Ptr) → Cmd ForceInput
create_tensors n pos atmnrs box = do
  positions ← rgpot_tensor_cpu_f64_2d pos n 3
  atomic_numbers ← rgpot_tensor_cpu_i32_1d atmnrs n
  box_matrix ← rgpot_tensor_cpu_f64_matrix3 box
  pure (record { positions = positions; atomic_numbers = atomic_numbers; box_matrix = box_matrix })

unfoldable pub rgpot_force_input_create : Word → (pos atmnrs box : Ptr) → Cmd ForceInput
rgpot_force_input_create n pos atmnrs box = extern_c (create_tensors n pos atmnrs box)

abbrev pub null_input : ForceInput
null_input = record { positions = null; atomic_numbers = null; box_matrix = null }

unfoldable pub free_tensors : Foreign → ForceInput → Cmd (Unit {0})
free_tensors c i = do
  rgpot_tensor_free c i.positions
  rgpot_tensor_free c i.atomic_numbers
  rgpot_tensor_free c i.box_matrix

unfoldable pub rgpot_force_input_free : Foreign → Ptr → Cmd (Unit {0})
rgpot_force_input_free c p = extern_c (
    if is_null p
    then pure tt
    else do i ← load p >>= as_input; free_tensors c i; store p (force_input null_input))

abbrev pub empty_out : ForceOut
empty_out = record { forces = null; energy = zero_double; variance = zero_double }

unfoldable pub rgpot_force_out_create : Cmd ForceOut
rgpot_force_out_create = pure empty_out
