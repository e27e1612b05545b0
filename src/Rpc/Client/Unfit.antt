-- ===== src/Rpc/Client/Unfit.antt =====
-- Inputs that the client refuses before it connects: a tensor is missing or is not on the CPU.
use rgpot.Prelude.{◌*◌, ◌^◌, ◌<◌, ◌≡◌, ◌≢◌, refl, ◌++◌, List, arith, good, bad, some, none, length}
use rgpot.Prelude.Text.{Text, codes}
use rgpot.Prelude.Words.{Word, Half, Double}
use rgpot.Layout.{Ptr, null, Cell, Managed, ForceInput, RpcClient, f64s, i32s, managed}
use rgpot.Memory.{World, ok, load, mul_usize, f64_slice, i32_slice}
use rgpot.Memory.Slices.{f64_slice-all, i32_slice-all}
use rgpot.Types.{n_atoms}
use rgpot.Tensor.{cpu}
use rgpot.Rpc.Wire.{ListBuilder, Network}
use rgpot.Rpc.Fallible.{Try, lift, ◌>>=◌}
use rgpot.Rpc.Client.{calculate, extract, extract_cpu_input}
use rgpot.Rpc.Server.Dispatch.{mul_usize-small}

-- What is wrong with the tensor at `p`.
pub data Unreadable (w : World) (p : Ptr) (name msg : Text) : Type 0 where
  missing : p ≡ null → msg ≡ name ++ codes " tensor is NULL" → Unreadable w p name msg
  not_on_cpu :
      (m : Managed)
      → p ≢ null
      → w.cell p ≡ some (managed m)
      → m.dl_tensor.device.device_type ≢ cpu
      → msg ≡ codes "RPC requires CPU tensors; " ++ name ++ codes " is not on CPU"
      → Unreadable w p name msg

-- A tensor on the CPU over a buffer that holds `c`.
pub record IsHeld (w : World) (p : Ptr) (m : Managed) (c : Cell) : Type 0 where
  pub live : p ≢ null
  pub handle : w.cell p ≡ some (managed m)
  pub on_cpu : m.dl_tensor.device.device_type ≡ cpu
  pub elements_live : m.dl_tensor.elements ≢ null
  pub elements_block : w.cell m.dl_tensor.elements ≡ some c

module _ {ℓ} {A : Type ℓ} (name : Text) (slice : Ptr → Try A) (w : World) (p : Ptr) where
  extract-Unreadable :
      (msg : Text) → Unreadable w p name msg → extract name p slice w ≡ ok (bad msg) w
  unfolding load
  extract-Unreadable msg (missing h eq) = rw (h, eq) refl
  extract-Unreadable msg (not_on_cpu m h b far eq) = rw eq (ground arith)

  extract-IsHeld :
      (m : Managed) (c : Cell) (a : A)
      → IsHeld w p m c
      → slice m.dl_tensor.elements w ≡ ok (good a) w
      → extract name p slice w ≡ ok (good a) w
  unfolding load
  extract-IsHeld m c a t got = ground (arith, t.live, t.handle, t.on_cpu, got)

-- The first thing that is wrong with an input, and the client's message for it.
pub data Unfit (w : World) (i : ForceInput) (msg : Text) : Type 0 where
  no_positions :
      i.positions ≡ null → msg ≡ codes "cannot determine n_atoms from input tensors" → Unfit w i msg
  bad_positions :
      (n : Word)
      → n_atoms i w ≡ ok (some n) w
      → Unreadable w i.positions (codes "positions") msg
      → Unfit w i msg
  bad_atomic_numbers :
      (n : Word) (m : Managed) (pos : List Double)
      → n_atoms i w ≡ ok (some n) w
      → IsHeld w i.positions m (f64s pos)
      → length pos ≡ n * 3
      → n * 3 < 2 ^ 64
      → Unreadable w i.atomic_numbers (codes "atomic_numbers") msg
      → Unfit w i msg
  bad_box_matrix :
      (n : Word) (m m' : Managed) (pos : List Double) (atm : List Half)
      → n_atoms i w ≡ ok (some n) w
      → IsHeld w i.positions m (f64s pos)
      → length pos ≡ n * 3
      → n * 3 < 2 ^ 64
      → IsHeld w i.atomic_numbers m' (i32s atm)
      → length atm ≡ n
      → Unreadable w i.box_matrix (codes "box_matrix") msg
      → Unfit w i msg

n_atoms-null : (i : ForceInput) (w : World) → i.positions ≡ null → n_atoms i w ≡ ok none w
unfolding n_atoms
n_atoms-null i w h = rw h refl

-- The slices that `extract_cpu_input` takes.
abbrev positions_of : Word → Ptr → Try (List Double)
positions_of n p = lift (mul_usize n 3) >>= λ len. lift (f64_slice p len)

abbrev numbers_of : Word → Ptr → Try (List Half)
numbers_of n p = lift (i32_slice p n)

module _ (i : ForceInput) (n : Word) (w : World) where
  read_positions :
      (m : Managed) (pos : List Double)
      → IsHeld w i.positions m (f64s pos)
      → length pos ≡ n * 3
      → n * 3 < 2 ^ 64
      → extract (codes "positions") i.positions (positions_of n) w ≡ ok (good pos) w
  read_positions m pos t size small =
      extract-IsHeld (codes "positions") (positions_of n) w i.positions m (f64s pos) pos t (
        rw
          (
            mul_usize-small n w small,
            f64_slice-all w m.dl_tensor.elements pos (n * 3) t.elements_live t.elements_block size,
          )
          refl)

  read_numbers :
      (m : Managed) (atm : List Half)
      → IsHeld w i.atomic_numbers m (i32s atm)
      → length atm ≡ n
      → extract (codes "atomic_numbers") i.atomic_numbers (numbers_of n) w ≡ ok (good atm) w
  read_numbers m atm t size =
      extract-IsHeld (codes "atomic_numbers") (numbers_of n) w i.atomic_numbers m (i32s atm) atm t
        (rw (i32_slice-all w m.dl_tensor.elements atm n t.elements_live t.elements_block size) refl)

module _ (F : ListBuilder Double) (I : ListBuilder Half) (net : Network) (self : RpcClient)
    (i : ForceInput) (output : Ptr) (w : World) where
  calculate-extract :
      (n : Word) (msg : Text)
      → n_atoms i w ≡ ok (some n) w
      → extract_cpu_input i n w ≡ ok (bad msg) w
      → calculate F I net self i output w ≡ ok (bad msg) w
  unfolding calculate
  calculate-extract n msg e h = rw (e, h) refl

  -- The client fails with the message, and neither connects nor writes.
  pub calculate-Unfit :
      (msg : Text) → Unfit w i msg → calculate F I net self i output w ≡ ok (bad msg) w
  unfolding calculate extract_cpu_input
  calculate-Unfit msg (no_positions h eq) = rw (n_atoms-null i w h, eq) refl
  calculate-Unfit msg (bad_positions n e why) =
      calculate-extract n msg e
        (rw (extract-Unreadable (codes "positions") (positions_of n) w i.positions msg why) refl)
  calculate-Unfit msg (bad_atomic_numbers n m pos e t size small why) = calculate-extract n msg e (
      rw
        (
          read_positions i n w m pos t size small,
          extract-Unreadable (codes "atomic_numbers") (numbers_of n) w i.atomic_numbers msg why,
        )
        refl)
  calculate-Unfit msg (bad_box_matrix n m m' pos atm e t size small t' size' why) =
      calculate-extract n msg e (
        rw
          (
            read_positions i n w m pos t size small,
            read_numbers i n w m' atm t' size',
            extract-Unreadable (codes "box_matrix") (λ p. lift (f64_slice p 9)) w i.box_matrix msg
                why,
          )
          refl)
