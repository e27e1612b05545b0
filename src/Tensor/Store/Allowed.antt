-- ===== src/Tensor/Store/Allowed.antt =====
-- What a C caller may do at any time, and that it returns.
use rgpot.Rpc.Client.Unusable.{Unusable}
use rgpot.Rpc.Client.Unfit.{Unfit}
use rgpot.Rpc.Server.Refuse.{IsRefusing}
use rgpot.Rpc.Server.Start.Answers.{server_of}
use rgpot.Rpc.Wire.{ResultReader, Wire, Network}
use rgpot.CApi.Rpc.Handle.{NoClient}
use rgpot.Tensor.Store.Extent.{is_struct}
use rgpot.Status.{from_c_chars}
use rgpot.Prelude.{
  good, none, true, ℕ, ◌*◌, ◌^◌, ◌≤◌, ◌<◌, ◌≡◌, ◌≢◌, ◌⊎◌, some, Option, List, length,
}
use rgpot.Prelude.Text.{has_nul, Text}
use rgpot.Prelude.Words.{Word, Half, Double}
use rgpot.Layout.{
  c_chars, Cell, Ptr, FnPtr, null, ForceInput, ForceOut, PotentialImpl, RpcClient, Managed, managed,
  f64s, force_input, potential, client, object,
}
use rgpot.Memory.{put, ok, World}
use rgpot.Foreign.{Foreign}
use rgpot.Potential.{drop}
use rgpot.CApi.Rpc.Remote.{IsCall, IsAnswered}
use rgpot.Rpc.Client.Failure.{Failure}
use rgpot.Rpc.Client.Remote.{message}
use rgpot.Rpc.Server.Contract.{Places, IsReady, IsSized, IsPotential}
use rgpot.Tensor.Store.Inputs.{Freeable}

-- A call that the memory allows: handles are live, and buffers and lists are as large as they
-- should be.
pub data Allowed (c : Foreign) (w : World) : Type 0 where
  may_borrow_2d : (p : Ptr) (rows cols : Word) → cols < 2 ^ 64 → Allowed c w
  may_borrow_1d : (p : Ptr) (len : Word) → Allowed c w
  may_borrow_matrix3 : (p : Ptr) → Allowed c w
  may_copy_2d :
      (p : Ptr) (rows cols : Word) (xs : List Double)
      → p ≢ null
      → w.cell p ≡ some (f64s xs)
      → rows < 2 ^ 63
      → cols < 2 ^ 63
      → rows * cols < 2 ^ 63
      → rows * cols ≤ length xs
      → Allowed c w
  may_read_shape :
      (t out : Ptr) (m : Managed) (old : ℕ)
      → w.cell t ≡ some (managed m)
      → w.cell out ≡ some (object old)
      → Allowed c w
  may_free : (t : Ptr) (m : Managed) → w.cell t ≡ some (managed m) → Allowed c w
  may_create_input : (n : Word) (pos atm box : Ptr) → Allowed c w
  may_free_input :
      (p : Ptr) (i : ForceInput) → w.cell p ≡ some (force_input i) → Freeable w i → Allowed c w
  may_new_potential : (callback : FnPtr) (user_data : Ptr) (free_fn : Option FnPtr) → Allowed c w
  may_calculate :
      (impl : PotentialImpl) (energy : List Double → List Half → List Double → Double)
      (forces : List Double → List Half → List Double → List Double) (pot : Ptr) (at : Places)
      (i : ForceInput) (o : ForceOut) (n : Word) (pos : List Double) (atm : List Half)
      (box : List Double)
      → IsPotential c impl.callback impl.user_data energy forces
      → pot ≢ null
      → w.cell pot ≡ some (potential impl)
      → IsReady w at i o n pos atm box
      → IsSized n pos atm box
      → Allowed c w
  may_calculate_refused :
      (impl : PotentialImpl) (pot : Ptr) (at : Places) (i : ForceInput) (o : ForceOut) (n : Word)
      (pos : List Double) (atm : List Half) (box : List Double)
      → IsRefusing c (server_of impl)
      → pot ≢ null
      → w.cell pot ≡ some (potential impl)
      → IsReady w at i o n pos atm box
      → Allowed c w
  may_calculate_null :
      (pot input output : Ptr) → (pot ≡ null) ⊎ (input ≡ null) ⊎ (output ≡ null) → Allowed c w
  may_free_potential :
      (impl : PotentialImpl) (pot : Ptr)
      → w.cell pot ≡ some (potential impl)
      → drop c impl w ≡ ok tt w
      → Allowed c w
  may_free_potential_data :
      (impl : PotentialImpl) (pot : Ptr) (x : Cell)
      → w.cell pot ≡ some (potential impl)
      → pot ≢ impl.user_data
      → is_struct x ≡ true
      → w.cell impl.user_data ≡ some x
      → drop c impl w ≡ ok tt (put impl.user_data none w)
      → Allowed c w
  may_new_client :
      (to_str : Text → Wire Text) (runtime : Wire (Unit {0})) (host : Ptr) (port : Word)
      (cs : List ℕ) (name : Text)
      → host ≢ null
      → w.cell host ≡ some (c_chars cs)
      → has_nul cs ≡ true
      → to_str (from_c_chars cs) ≡ good name
      → runtime ≡ good tt
      → Allowed c w
  may_make_no_client :
      (to_str : Text → Wire Text) (runtime : Wire (Unit {0})) (host : Ptr) (port : Word)
      (msg : Text)
      → NoClient to_str runtime host w msg
      → Allowed c w
  may_rpc_calculate :
      (net : Network) (p : Ptr) (self : RpcClient) (at : Places) (i : ForceInput) (o : ForceOut)
      (n : Word) (pos : List Double) (atm : List Half) (box fs : List Double) (e : Double)
      → IsCall w p self at i o n pos atm box
      → IsAnswered net self pos atm box n fs e
      → Allowed c w
  may_rpc_calculate_null :
      (net : Network) (p input output : Ptr)
      → (p ≡ null) ⊎ (input ≡ null) ⊎ (output ≡ null)
      → Allowed c w
  may_rpc_unfit :
      (net : Network) (self : RpcClient) (i : ForceInput) (p input output : Ptr) (msg : Text)
      → p ≢ null
      → input ≢ null
      → output ≢ null
      → w.cell p ≡ some (client self)
      → w.cell input ≡ some (force_input i)
      → Unfit w i msg
      → Allowed c w
  may_rpc_unusable :
      (net : Network) (p : Ptr) (self : RpcClient) (at : Places) (i : ForceInput) (o : ForceOut)
      (n : Word) (pos : List Double) (atm : List Half) (box : List Double) (r : ResultReader)
      (msg : Text)
      → IsCall w p self at i o n pos atm box
      → net.connect self.addr ≡ good tt
      → net.set_nodelay self.addr ≡ good tt
      → net.send self.addr (message pos atm box) ≡ good (good (good r))
      → Unusable n r msg
      → Allowed c w
  may_rpc_fail :
      (net : Network) (p : Ptr) (self : RpcClient) (at : Places) (i : ForceInput) (o : ForceOut)
      (n : Word) (pos : List Double) (atm : List Half) (box : List Double) (msg : Text)
      → IsCall w p self at i o n pos atm box
      → Failure net self.addr (message pos atm box) msg
      → Allowed c w
  may_free_client : (p : Ptr) (self : RpcClient) → w.cell p ≡ some (client self) → Allowed c w
