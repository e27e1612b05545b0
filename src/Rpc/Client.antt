-- ===== src/Rpc/Client.antt =====
-- rgpot-core/src/rpc/client.rs: one remote calculation. The runtime is driven to the end of the
-- call, so `calculate` is `calculate_async` run to completion.
pub mod Extract
pub mod Receive
pub mod Remote
pub mod Failure
pub mod Unusable
pub mod Unfit
use rgpot.Prelude.{
  ℕ, ◌==◌, Bool, not, ◌++◌, Option, none, some, List, [], ◌∷◌, length, Result, good, bad,
  if◌then◌else◌,
}
use rgpot.Prelude.Text.{Text, codes, decimal}
use rgpot.Prelude.Words.{Word, Half, Double, to_half}
use rgpot.Layout.{Ptr, is_null, ForceInput, ForceOut, RpcClient, force_out}
use rgpot.Memory
use rgpot.Memory.{Cmd, pure, load, store, as_managed, as_out, mul_usize, f64_slice, i32_slice}
use rgpot.Types.{n_atoms}
use rgpot.Tensor.{cpu, create_owned_f64_tensor}
use rgpot.Rpc.Fallible.{Try, ◌>>=◌, ◌>>◌, succeed, fail, lift, map_err, ok_or}
use rgpot.Rpc.Wire.{
  ListReader, to_vec, ListBuilder, write_list, InputMessage, ResultReader, Response, Wire, Network,
}

-- `RpcClient::new`; `runtime` is what `Runtime::new()` gives.
unfoldable pub new : Wire (Unit {0}) → Text → Word → Result RpcClient Text
new runtime host port = elim runtime [
  | good _ ↦ good (record { addr = host ++ codes ":" ++ decimal port })
  | bad e ↦ bad (codes "failed to create tokio runtime: " ++ e)
]

abbrev load_managed : Ptr → Try rgpot.Layout.Managed
load_managed p = lift (Memory.◌>>=◌ (load p) as_managed)

-- One tensor of `extract_cpu_input`: its null test, its device test, and the slice of its data.
abbrev extract {ℓ} : {A : Type ℓ} → Text → Ptr → (Ptr → Try A) → Try A
extract name p slice = if is_null p then fail (name ++ codes " tensor is NULL") else do
  m ← load_managed p
  if not (m.dl_tensor.device.device_type == cpu)
      then fail (codes "RPC requires CPU tensors; " ++ name ++ codes " is not on CPU")
      else slice m.dl_tensor.elements

unfoldable pub extract_cpu_input : ForceInput → Word → Try (List Double × List Half × List Double)
extract_cpu_input input n = do
  positions ←
      extract (codes "positions") input.positions
        λ p. do len ← lift (mul_usize n 3); lift (f64_slice p len)
  atmnrs ← extract (codes "atomic_numbers") input.atomic_numbers λ p. lift (i32_slice p n)
  box_data ← extract (codes "box_matrix") input.box_matrix λ p. lift (f64_slice p 9)
  succeed (positions, atmnrs, box_data)

-- `output.energy = e`, `output.forces = t`
abbrev modify_out : Ptr → (ForceOut → ForceOut) → Cmd (Unit {0})
modify_out p f = Memory.◌>>=◌ (Memory.◌>>=◌ (load p) as_out) λ o. store p (force_out (f o))

unfoldable pub set_energy : Ptr → Double → Cmd (Unit {0})
set_energy p e = modify_out p λ o. record o { energy = e }

unfoldable pub set_forces : Ptr → Ptr → Cmd (Unit {0})
set_forces p t = modify_out p λ o. record o { forces = t }

-- The request's three lists.
unfoldable pub build_request :
    ListBuilder Double → ListBuilder Half → List Double → List Half → List Double → Cmd InputMessage
build_request F I positions atmnrs box_data =
    Memory.◌>>=◌ (write_list F (to_half (length positions)) positions) λ pos.
      Memory.◌>>=◌ (write_list I (to_half (length atmnrs)) atmnrs) λ atm.
        Memory.◌>>=◌ (write_list F 9 box_data) λ box.
          pure (record { pos = F.contents pos; atmnrs = I.contents atm; box = F.contents box })

-- From the response to the output: energy, then forces.
unfoldable pub receive : Word → ResultReader → Ptr → Try (Unit {0})
receive n result output = do
  lift (set_energy output result.get_energy)
  forces ← map_err (codes "failed to read forces: ") result.get_forces
  expected ← lift (mul_usize n 3)
  if not (forces.len == expected)
      then fail (
          codes "force array size mismatch: expected "
          ++ decimal expected
          ++ codes ", got "
          ++ decimal forces.len)
      else do
        t ← lift (create_owned_f64_tensor (to_vec forces) (n ∷ 3 ∷ []))
        lift (set_forces output t)

unfoldable pub exchange : Network → Text → InputMessage → Try ResultReader
exchange net addr message = do
  response ← map_err (codes "RPC call failed: ") (net.send addr message)
  got ← map_err (codes "failed to read response: ") response
  map_err (codes "failed to get result: ") got

module _ (F : ListBuilder Double) (I : ListBuilder Half) (net : Network) where
  unfoldable pub calculate : RpcClient → ForceInput → Ptr → Try (Unit {0})
  calculate self input output = do
    n ← lift (n_atoms input) >>= ok_or (codes "cannot determine n_atoms from input tensors")
    (positions, atmnrs, box_data) ← extract_cpu_input input n
    map_err (codes "connection failed: ") (net.connect self.addr)
    map_err (codes "set_nodelay failed: ") (net.set_nodelay self.addr)
    message ← lift (build_request F I positions atmnrs box_data)
    result ← exchange net self.addr message
    receive n result output
