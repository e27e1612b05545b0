-- ===== src/Tensor/Store/Calls.antt =====
-- The calls of a C caller, and what each stands for in the table of tensors.
use rgpot.Rpc.Client.Unusable.{Unusable}
use rgpot.Rpc.Client.Unfit.{Unfit}
use rgpot.Rpc.Server.Refuse.{IsRefusing}
use rgpot.Rpc.Server.Start.Answers.{server_of}
use rgpot.Rpc.Wire.{ResultReader, ListBuilder, Network, Wire}
use rgpot.Status.{Status, from_c_chars, success, rpc_error, invalid_parameter}
use rgpot.Tensor.Blocks.{within}
use rgpot.Tensor.Store.{IsTensor}
use rgpot.Prelude.{false, ℕ, ◌^◌, ◌<◌, ◌≡◌, ◌≢◌, ◌⊎◌, some, none, Option, List, true, good}
use rgpot.Prelude.Text.{Text, has_nul}
use rgpot.Prelude.Words.{Word, Half, Double}
use rgpot.Layout.{
  Ptr, FnPtr, Cell, null, ForceInput, ForceOut, PotentialImpl, RpcClient, Managed, managed, f64s,
  i32s, force_input, force_out, potential, client, object, c_chars,
}
use rgpot.Memory.{World, ok, put, with_block}
use rgpot.Foreign.{Foreign}
use rgpot.Potential.{drop}
use rgpot.Tensor.{rgpot_tensor_free}
use rgpot.Tensor.CApi.{
  rgpot_tensor_cpu_f64_2d, rgpot_tensor_cpu_i32_1d, rgpot_tensor_cpu_f64_matrix3,
  rgpot_tensor_owned_cpu_f64_2d, rgpot_tensor_shape,
}
use rgpot.CApi.Types.{rgpot_force_input_create, rgpot_force_input_free}
use rgpot.CApi.Potential.{rgpot_potential_new, rgpot_potential_calculate, rgpot_potential_free}
use rgpot.CApi.Rpc.{rgpot_rpc_client_new, rgpot_rpc_calculate, rgpot_rpc_client_free}
use rgpot.CApi.Rpc.Handle.{NoClient}
use rgpot.CApi.Rpc.Remote.{IsCall, IsAnswered}
use rgpot.Rpc.Client.Failure.{Failure}
use rgpot.Rpc.Client.Remote.{message}
use rgpot.Rpc.Server.Contract.{Places, IsReady, IsSized, IsPotential}
use rgpot.Tensor.Store.Extent.{is_buffer, size_of, base_of, is_struct}
use rgpot.Tensor.Store.Inputs.{Freeable}

-- One thing that a caller does and that returns. A buffer of its own that it frees is in no tensor's
-- blocks, but tensors may borrow it.
pub data Step (c : Foreign) (F : ListBuilder Double) (I : ListBuilder Half) (w w' : World)
    : Type 0 where
  -- buffers, and structs that the caller fills in itself
  make_f64s : (xs : List Double) → w' ≡ with_block (f64s xs) w → Step c F I w w'
  make_i32s : (xs : List Half) → w' ≡ with_block (i32s xs) w → Step c F I w w'
  keep : (x : Cell) → is_struct x ≡ true → w' ≡ with_block x w → Step c F I w w'
  write :
      (p : Ptr) (x y : Cell)
      → is_struct x ≡ true
      → is_struct y ≡ true
      → w.cell p ≡ some x
      → w' ≡ put p (some y) w
      → Step c F I w w'
  give_back :
      (p : Ptr) (x : Cell)
      → is_struct x ≡ true
      → w.cell p ≡ some x
      → w' ≡ put p none w
      → Step c F I w w'
  free_buffer :
      (p : Ptr) (x : Cell)
      → is_buffer x ≡ true
      → w.cell p ≡ some x
      → ((u : Ptr) (h : IsTensor w.cell u) → within (base_of h) (size_of h) p ≡ false)
      → w' ≡ put p none w
      → Step c F I w w'
  -- another thread goes on
  switch : (t : ℕ) → w' ≡ record w { thread = t } → Step c F I w w'
  -- tensors: a copy may be of any size that the build lets through, and a handle that is freed is
  -- live
  borrow_2d :
      (p t : Ptr) (rows cols : Word)
      → cols < 2 ^ 64
      → rgpot_tensor_cpu_f64_2d p rows cols w ≡ ok t w'
      → Step c F I w w'
  borrow_1d : (p t : Ptr) (len : Word) → rgpot_tensor_cpu_i32_1d p len w ≡ ok t w' → Step c F I w w'
  borrow_matrix3 : (p t : Ptr) → rgpot_tensor_cpu_f64_matrix3 p w ≡ ok t w' → Step c F I w w'
  copy_2d :
      (p t : Ptr) (rows cols : Word)
      → cols < 2 ^ 64
      → rgpot_tensor_owned_cpu_f64_2d p rows cols w ≡ ok t w'
      → Step c F I w w'
  read_shape :
      (t out shape : Ptr) (m : Managed) (old : ℕ)
      → w.cell t ≡ some (managed m)
      → w.cell out ≡ some (object old)
      → rgpot_tensor_shape t out w ≡ ok shape w'
      → Step c F I w w'
  free :
      (t : Ptr) (m : Managed)
      → w.cell t ≡ some (managed m)
      → rgpot_tensor_free c t w ≡ ok tt w'
      → Step c F I w w'
  -- inputs: the input in a struct is freed when its pointers are NULL or live handles of different
  -- tensors
  create_input :
      (n : Word) (pos atm box : Ptr) (i : ForceInput)
      → rgpot_force_input_create n pos atm box w ≡ ok i w'
      → Step c F I w w'
  free_input :
      (p : Ptr) (i : ForceInput)
      → w.cell p ≡ some (force_input i)
      → Freeable w i
      → rgpot_force_input_free c p w ≡ ok tt w'
      → Step c F I w w'
  -- potentials: the destructor of a handle that is freed has nothing to do, or gives back the user
  -- data, which are a struct
  new_potential :
      (callback : FnPtr) (user_data pot : Ptr) (free_fn : Option FnPtr)
      → rgpot_potential_new callback user_data free_fn w ≡ ok pot w'
      → Step c F I w w'
  calculate :
      (impl : PotentialImpl) (energy : List Double → List Half → List Double → Double)
      (forces : List Double → List Half → List Double → List Double) (pot : Ptr) (at : Places)
      (i : ForceInput) (o o' : ForceOut) (n : Word) (pos : List Double) (atm : List Half)
      (box : List Double)
      → IsPotential c impl.callback impl.user_data energy forces
      → pot ≢ null
      → w.cell pot ≡ some (potential impl)
      → IsReady w at i o n pos atm box
      → IsSized n pos atm box
      → rgpot_potential_calculate c pot at.input at.output w ≡ ok success w'
      → w'.cell at.output ≡ some (force_out o')
      → Step c F I w w'
  calculate_refused :
      (impl : PotentialImpl) (pot : Ptr) (at : Places) (i : ForceInput) (o : ForceOut) (n : Word)
      (pos : List Double) (atm : List Half) (box : List Double) (s : Status)
      → IsRefusing c (server_of impl)
      → pot ≢ null
      → w.cell pot ≡ some (potential impl)
      → IsReady w at i o n pos atm box
      → rgpot_potential_calculate c pot at.input at.output w ≡ ok s w'
      → Step c F I w w'
  calculate_null :
      (pot input output : Ptr)
      → (pot ≡ null) ⊎ (input ≡ null) ⊎ (output ≡ null)
      → rgpot_potential_calculate c pot input output w ≡ ok invalid_parameter w'
      → Step c F I w w'
  free_potential :
      (impl : PotentialImpl) (pot : Ptr)
      → w.cell pot ≡ some (potential impl)
      → drop c impl w ≡ ok tt w
      → rgpot_potential_free c pot w ≡ ok tt w'
      → Step c F I w w'
  free_potential_data :
      (impl : PotentialImpl) (pot : Ptr) (x : Cell)
      → w.cell pot ≡ some (potential impl)
      → pot ≢ impl.user_data
      → is_struct x ≡ true
      → w.cell impl.user_data ≡ some x
      → drop c impl w ≡ ok tt (put impl.user_data none w)
      → rgpot_potential_free c pot w ≡ ok tt w'
      → Step c F I w w'
  -- clients: a call is answered with as many forces as it should, or it fails
  new_client :
      (to_str : Text → Wire Text) (runtime : Wire (Unit {0})) (host p : Ptr) (port : Word)
      (cs : List ℕ) (name : Text)
      → host ≢ null
      → w.cell host ≡ some (c_chars cs)
      → has_nul cs ≡ true
      → to_str (from_c_chars cs) ≡ good name
      → runtime ≡ good tt
      → rgpot_rpc_client_new to_str runtime host port w ≡ ok p w'
      → Step c F I w w'
  no_client :
      (to_str : Text → Wire Text) (runtime : Wire (Unit {0})) (host : Ptr) (port : Word)
      (msg : Text)
      → NoClient to_str runtime host w msg
      → rgpot_rpc_client_new to_str runtime host port w ≡ ok null w'
      → Step c F I w w'
  rpc_calculate :
      (net : Network) (p : Ptr) (self : RpcClient) (at : Places) (i : ForceInput) (o o' : ForceOut)
      (n : Word) (pos : List Double) (atm : List Half) (box fs : List Double) (e : Double)
      → IsCall w p self at i o n pos atm box
      → IsAnswered net self pos atm box n fs e
      → rgpot_rpc_calculate F I net p at.input at.output w ≡ ok success w'
      → w'.cell at.output ≡ some (force_out o')
      → Step c F I w w'
  rpc_calculate_null :
      (net : Network) (p input output : Ptr)
      → (p ≡ null) ⊎ (input ≡ null) ⊎ (output ≡ null)
      → rgpot_rpc_calculate F I net p input output w ≡ ok invalid_parameter w'
      → Step c F I w w'
  rpc_unfit :
      (net : Network) (self : RpcClient) (i : ForceInput) (p input output : Ptr) (msg : Text)
      → p ≢ null
      → input ≢ null
      → output ≢ null
      → w.cell p ≡ some (client self)
      → w.cell input ≡ some (force_input i)
      → Unfit w i msg
      → rgpot_rpc_calculate F I net p input output w ≡ ok rpc_error w'
      → Step c F I w w'
  rpc_unusable :
      (net : Network) (p : Ptr) (self : RpcClient) (at : Places) (i : ForceInput) (o : ForceOut)
      (n : Word) (pos : List Double) (atm : List Half) (box : List Double) (r : ResultReader)
      (msg : Text)
      → IsCall w p self at i o n pos atm box
      → net.connect self.addr ≡ good tt
      → net.set_nodelay self.addr ≡ good tt
      → net.send self.addr (message pos atm box) ≡ good (good (good r))
      → Unusable n r msg
      → rgpot_rpc_calculate F I net p at.input at.output w ≡ ok rpc_error w'
      → Step c F I w w'
  rpc_fails :
      (net : Network) (p : Ptr) (self : RpcClient) (at : Places) (i : ForceInput) (o : ForceOut)
      (n : Word) (pos : List Double) (atm : List Half) (box : List Double) (msg : Text)
      → IsCall w p self at i o n pos atm box
      → Failure net self.addr (message pos atm box) msg
      → rgpot_rpc_calculate F I net p at.input at.output w ≡ ok rpc_error w'
      → Step c F I w w'
  free_client :
      (p : Ptr) (self : RpcClient)
      → w.cell p ≡ some (client self)
      → rgpot_rpc_client_free p w ≡ ok tt w'
      → Step c F I w w'
