-- ===== src/Rpc/Client/Extract.antt =====
-- The input's three tensors are read in full.
use rgpot.Prelude.{◌+◌, ◌*◌, ◌^◌, ◌<◌, ◌≡◌, refl, List, arith, good}
use rgpot.Prelude.Text.{Text, codes}
use rgpot.Prelude.Words.{Word, Half, Double}
use rgpot.Layout.{Ptr, DlDataType, ForceInput, ForceOut}
use rgpot.Memory.{World, ok, load, mul_usize, f64_slice, i32_slice}
use rgpot.Memory.Slices.{f64_slice-all, i32_slice-all}
use rgpot.Tensor.Blocks.{IsBorrowed}
use rgpot.Rpc.Fallible.{Try, lift, ◌>>=◌}
use rgpot.Rpc.Client.{extract, extract_cpu_input}
use rgpot.Rpc.Server.Contract.{Places, IsReady, IsSized}
use rgpot.Rpc.Server.Dispatch.{mul_usize-small}

extract-IsBorrowed :
    {A : Type 0} (w : World) {b p : Ptr} {dtype : DlDataType} {shape strides : List Word}
    (name : Text) (h : Ptr) (slice : Ptr → Try A) (a : A)
    → IsBorrowed w.cell b p dtype shape strides
    → h ≡ b + 1 + 1 + 1
    → slice p w ≡ ok (good a) w
    → extract name h slice w ≡ ok (good a) w
unfolding load
extract-IsBorrowed w name h slice a t at got = ground (arith, t.positive, t.managed_block, got)

-- On a ready input of the promised sizes the three buffers are read whole, and nothing is written.
pub extract_cpu_input-IsReady :
    (w : World) (at : Places) {i : ForceInput} {o : ForceOut} {n : Word} {pos : List Double}
    {atm : List Half} {box : List Double}
    → IsReady w at i o n pos atm box
    → IsSized n pos atm box
    → n * 3 < 2 ^ 64
    → extract_cpu_input i n w ≡ ok (good (pos, atm, box)) w
unfolding extract_cpu_input
extract_cpu_input-IsReady w at {i} {n} {pos} {atm} {box} r sized small =
    let read_pos = f64_slice-all w at.pos pos (n * 3) r.pos_live r.pos_block sized.pos_size in
    let read_atm = i32_slice-all w at.atm atm n r.atm_live r.atm_block sized.atm_size in
    let read_box = f64_slice-all w at.box box 9 r.box_live r.box_block sized.box_size in
    rw
      (
        extract-IsBorrowed w (codes "positions") i.positions
            (λ p. lift (mul_usize n 3) >>= λ len. lift (f64_slice p len)) pos r.input.positions
            r.input.at_positions (rw (mul_usize-small n w small, read_pos) refl),
        extract-IsBorrowed w (codes "atomic_numbers") i.atomic_numbers (λ p. lift (i32_slice p n))
            atm r.input.atomic_numbers r.input.at_atomic_numbers (rw read_atm refl),
        extract-IsBorrowed w (codes "box_matrix") i.box_matrix (λ p. lift (f64_slice p 9)) box
            r.input.box_matrix r.input.at_box_matrix (rw read_box refl),
      )
      refl
