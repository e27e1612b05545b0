-- ===== src/Tests/Data.antt =====
-- A client's memory with one atom in it, a server's memory, and list builders made of lists.
use rgpot.Prelude.{
  ℕ, ◌+◌, refl, true, none, List, [], ◌∷◌, arith, length, set, replicate, length-replicate, Result,
  ltb, if◌then◌else◌, good, bad, ◌^◌,
}
use rgpot.Prelude.Text.{Text, codes}
use rgpot.Prelude.Words.{Word, Half, Double}
use rgpot.Layout.{
  Ptr, DlDataType, ForceInput, RpcClient, f64s, i32s, i64s, managed, borrowed_ctx, force_input,
  force_out, client,
}
use rgpot.Memory.{World, IsWorld, with_block, Payload, static_str}
use rgpot.Memory.Slices.{with_block-IsWorld}
use rgpot.Foreign.{Foreign}
use rgpot.Tensor.{dtype_f64, dtype_i32}
use rgpot.Tensor.Blocks.{borrowed_managed}
use rgpot.CApi.Types.{empty_out}
use rgpot.CApi.Types.Input.{IsInput}
use rgpot.Rpc.Wire.{ListBuilder, IsListBuilder, Network}
use rgpot.Rpc.Client.Remote.{params_of, deliver}
use rgpot.Rpc.Server
use rgpot.Rpc.Server.{PotentialServer}
use rgpot.Rpc.Server.Contract.{Places, IsReady, IsSized}
use rgpot.CApi.Rpc.Remote.{IsCall, Reaches}

abbrev pub empty : World
empty = record {
  cell = λ p. none;
  next = 1;
  thread = 0;
  last_error = λ t. 0 ∷ [];
  overflow_checks = true;
}

pub empty-IsWorld : IsWorld empty
empty-IsWorld = record { positive = omega arith; fresh = λ p h. refl; null_unused = refl }

abbrev pub too_long : Text
too_long = codes "list is too long"

-- A builder whose contents are a list of fewer than `limit` elements.
abbrev init_checked : ℕ → ℕ → Result (List ℕ) Payload
init_checked limit n = if ltb n limit then good (replicate n 0) else bad (static_str too_long)

abbrev set_checked : List ℕ → ℕ → ℕ → Result (List ℕ) Payload
set_checked b i a =
    if ltb i (length b) then good (set b i a) else bad (static_str (codes "index out of range"))

abbrev pub builder_below : ℕ → ListBuilder ℕ
builder_below limit = record {
  Builder = List ℕ;
  init = init_checked limit;
  set = set_checked;
  contents = λ b. b;
}

abbrev pub list_builder : ListBuilder ℕ
list_builder = builder_below (2 ^ 29)

pub list_builder-IsListBuilder : IsListBuilder list_builder
list_builder-IsListBuilder = record {
  init-small = λ n h. (replicate n 0, ground arith, length-replicate n 0);
  set-in_range = λ b i a h. (set b i a, ground arith, refl);
}

-- One atom of oxygen in a cubic box; the doubles are arbitrary bit patterns.
abbrev pub pos : List Double
pos = 11 ∷ 12 ∷ 13 ∷ []

abbrev pub atm : List Half
atm = 8 ∷ []

abbrev pub box : List Double
box = 20 ∷ 0 ∷ 0 ∷ 0 ∷ 20 ∷ 0 ∷ 0 ∷ 0 ∷ 20 ∷ []

pub one_atom : IsSized 1 pos atm box
one_atom = record { pos_size = refl; atm_size = refl; box_size = refl }

-- The client's handle and the three buffers, at the addresses 1 to 4.
abbrev pub self : RpcClient
self = record { addr = codes "localhost:12345" }

abbrev pub buffers : World
buffers =
    with_block (f64s box)
      (with_block (i32s atm) (with_block (f64s pos) (with_block (client self) empty)))

pub buffers-IsWorld : IsWorld buffers
buffers-IsWorld =
    with_block-IsWorld _
      (with_block-IsWorld _ (with_block-IsWorld _ (with_block-IsWorld _ empty-IsWorld)))

-- A borrowed tensor's four blocks.
abbrev with_tensor : Ptr → DlDataType → (shape strides : List Word) → World → World
with_tensor p dtype shape strides w = with_block (managed (borrowed_managed w.next p dtype shape)) (
    with_block (borrowed_ctx (record { shape = w.next; strides = w.next + 1 }))
      (with_block (i64s strides) (with_block (i64s shape) w)))

abbrev pub tensors : World
tensors = with_tensor 4 dtype_f64 (3 ∷ 3 ∷ []) (3 ∷ 1 ∷ []) (
    with_tensor 3 dtype_i32 (1 ∷ []) (1 ∷ [])
      (with_tensor 2 dtype_f64 (1 ∷ 3 ∷ []) (3 ∷ 1 ∷ []) buffers))

with_tensor-IsWorld :
    (p : Ptr) (dtype : DlDataType) (shape strides : List Word) (w : World)
    → IsWorld w
    → IsWorld (with_tensor p dtype shape strides w)
with_tensor-IsWorld p dtype shape strides w is =
    with_block-IsWorld _ (with_block-IsWorld _ (with_block-IsWorld _ (with_block-IsWorld _ is)))

pub tensors-IsWorld : IsWorld tensors
tensors-IsWorld = with_tensor-IsWorld 4 dtype_f64 (3 ∷ 3 ∷ []) (3 ∷ 1 ∷ []) _ (
    with_tensor-IsWorld 3 dtype_i32 (1 ∷ []) (1 ∷ []) _
      (with_tensor-IsWorld 2 dtype_f64 (1 ∷ 3 ∷ []) (3 ∷ 1 ∷ []) buffers buffers-IsWorld))

abbrev pub input : ForceInput
input = record { positions = 8; atomic_numbers = 12; box_matrix = 16 }

-- The input at 17 and the output at 18.
abbrev pub client_world : World
client_world = with_block (force_out empty_out) (with_block (force_input input) tensors)

pub client_world-IsWorld : IsWorld client_world
client_world-IsWorld = with_block-IsWorld _ (with_block-IsWorld _ tensors-IsWorld)

abbrev pub places : Places
places = record { input = 17; output = 18; tensors = 5; pos = 2; atm = 3; box = 4 }

pub client_world-IsInput : IsInput client_world.cell 5 1 2 3 4 input
client_world-IsInput = record {
  positions = record {
    positive = omega arith;
    shape_block = refl;
    strides_block = refl;
    ctx_block = refl;
    managed_block = refl;
  };
  atomic_numbers = record {
    positive = omega arith;
    shape_block = refl;
    strides_block = refl;
    ctx_block = refl;
    managed_block = refl;
  };
  box_matrix = record {
    positive = omega arith;
    shape_block = refl;
    strides_block = refl;
    ctx_block = refl;
    managed_block = refl;
  };
  at_positions = refl;
  at_atomic_numbers = refl;
  at_box_matrix = refl;
}

pub client_world-IsReady : IsReady client_world places input empty_out 1 pos atm box
client_world-IsReady = record {
  world = client_world-IsWorld;
  input_live = omega arith;
  output_live = omega arith;
  apart = omega arith;
  input_block = refl;
  output_block = refl;
  output_behind = refl;
  input = client_world-IsInput;
  pos_live = omega arith;
  atm_live = omega arith;
  box_live = omega arith;
  pos_block = refl;
  atm_block = refl;
  box_block = refl;
}

pub client_world-IsCall : IsCall client_world 1 self places input empty_out 1 pos atm box
client_world-IsCall = record {
  live = omega arith;
  handle = refl;
  ready = client_world-IsReady;
  sized = one_atom;
  small = omega arith;
}

abbrev pub lost : Text
lost = codes "connection lost"

-- A network at whose other end a server of this crate runs.
abbrev pub network : Foreign → PotentialServer → Network
network c server = record {
  connect = λ addr. good tt;
  set_nodelay = λ addr. good tt;
  send = λ addr m. deliver lost (Server.calculate list_builder c server (params_of m) empty);
}

pub network-Reaches :
    (c : Foreign) (server : PotentialServer)
    → Reaches (network c server) self list_builder c server empty lost pos atm box
network-Reaches c server = record { connected = refl; nodelay = refl; sent = refl }

-- A network with nobody at the other end.
abbrev pub dead_network : Network
dead_network = record {
  connect = λ addr. bad (codes "refused");
  set_nodelay = λ addr. good tt;
  send = λ addr m. bad lost;
}

abbrev pub debug : DlDataType → Text
debug d = codes "?"
