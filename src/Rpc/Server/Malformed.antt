-- ===== src/Rpc/Server/Malformed.antt =====
-- The server does not compare the lengths of the request's lists: it takes the number of atoms from
-- `atmnrs` and wraps whatever buffer came as `pos` in a tensor of shape [n_atoms, 3].
use rgpot.Prelude.{ℕ, ◌+◌, ◌*◌, ◌<◌, ◌≡◌, ◌≢◌, refl, ◌∙◌, some, List, arith, length, get_or}
use rgpot.Prelude.Words.{Word, Half, Double}
use rgpot.Layout.{i32s, Ptr, null, ForceInput, ForceOut, f64s, force_input, force_out}
use rgpot.Memory.{
  World, IsWorld, undefined, ok, Cmd, ◌>>=◌, load, as_input, as_managed, f64_slice, i64_slice,
  with_block,
}
use rgpot.Memory.Slices.{f64_slice-all}
use rgpot.Foreign.{Foreign}
use rgpot.Status.{Status}
use rgpot.CApi.Types.{create_tensors, empty_out}
use rgpot.CApi.Types.Input.{create_tensors-IsInput}
use rgpot.Rpc.Wire.{ListBuilder}
use rgpot.Rpc.Server.{PotentialServer, dispatch, serve}
use rgpot.Rpc.Server.Contract.{Places, IsReady}
use rgpot.Rpc.Server.Serve.{loaded-IsWorld, handed, places, handed-IsReady}

-- A C callback's first step: all the coordinates that the positions tensor claims to hold.
unfoldable pub read_positions : Ptr → Cmd (List Double)
read_positions input = do
  i ← load input >>= as_input
  m ← load i.positions >>= as_managed
  shape ← i64_slice m.dl_tensor.shape 1
  f64_slice m.dl_tensor.elements (get_or shape 0 0 * 3)

f64_slice-short :
    (p : Ptr) (xs : List Double) (n : ℕ) (w : World)
    → p ≢ null
    → w.cell p ≡ some (f64s xs)
    → length xs < n
    → f64_slice p n w ≡ undefined
unfolding f64_slice load
f64_slice-short p xs n w live e h = ground arith

read_positions-short :
    (v : World) (at : Places) {i : ForceInput} {o : ForceOut} {n : Word} {pos : List Double}
    {atm : List Half} {box : List Double}
    → IsReady v at i o n pos atm box
    → length pos < n * 3
    → read_positions at.input v ≡ undefined
unfolding read_positions load i64_slice
read_positions-short v at {i} {n} {pos} r h =
    let t = r.input.positions in
    ground (
      arith,
      r.input_live,
      r.input_block,
      r.input.at_positions,
      t.managed_block,
      t.shape_block,
      t.positive,
      f64_slice-short at.pos pos (n * 3) v r.pos_live r.pos_block h,
    )

-- On a request of the promised sizes that step reads all the positions.
pub read_positions-all :
    (v : World) (at : Places) {i : ForceInput} {o : ForceOut} {n : Word} {pos : List Double}
    {atm : List Half} {box : List Double}
    → IsReady v at i o n pos atm box
    → length pos ≡ n * 3
    → read_positions at.input v ≡ ok pos v
unfolding read_positions load i64_slice
read_positions-all v at {i} {n} {pos} r h =
    let t = r.input.positions in
    ground (
      arith,
      r.input_live,
      r.input_block,
      r.input.at_positions,
      t.managed_block,
      t.shape_block,
      t.positive,
      f64_slice-all v at.pos pos (n * 3) r.pos_live r.pos_block h,
    )

serve-undefined :
    (F : ListBuilder Double) (c : Foreign) (self : PotentialServer) (pos : List Double)
    (atm : List Half) (box : List Double) (w v : World) (i : ForceInput)
    → create_tensors
        (length atm)
        w.next
        (w.next + 1)
        (w.next + 1 + 1)
        (with_block (f64s box) (with_block (i32s atm) (with_block (f64s pos) w)))
      ≡ ok i v
    → c.callback self.callback self.user_data v.next
        (v.next + 1)
        (with_block (force_out empty_out) (with_block (force_input i) v))
      ≡ undefined
    → serve F c self pos atm box w ≡ undefined
unfolding serve dispatch
serve-undefined F c self pos atm box w v i made h = rw (made, h) refl

-- A request whose `pos` list is shorter than three times its `atmnrs` list makes the server run into
-- undefined behaviour with every callback that begins by reading its positions tensor: the slice
-- that the tensor's shape promises reaches past the end of the buffer.
pub serve-malformed :
    (F : ListBuilder Double) (c : Foreign) (self : PotentialServer)
    (later : List Double → Ptr → Ptr → Cmd Status) (w : World) (pos : List Double) (atm : List Half)
    (box : List Double)
    → ((input output : Ptr) (v : World)
        → c.callback self.callback self.user_data input output v
          ≡ (read_positions input >>= λ xs. later xs input output) v)
    → IsWorld w
    → length pos < length atm * 3
    → serve F c self pos atm box w ≡ undefined
serve-malformed F c self later w pos atm box reads is short =
    let n : ℕ = length atm in
    let (i, v, made, t, g) =
      create_tensors-IsInput n w.next (w.next + 1) (w.next + 1 + 1)
        (loaded-IsWorld w is pos atm box) in
    let ready = handed-IsReady w is pos atm box v i n g t in
    let v₀ : World = handed w is pos atm box i v in
    let cut = read_positions-short v₀ (places w is pos atm box v) ready short in
    serve-undefined F c self pos atm box w v i made (reads v.next (v.next + 1) v₀ ∙ rw cut refl)
