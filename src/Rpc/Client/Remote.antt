-- ===== src/Rpc/Client/Remote.antt =====
-- A calculation through the network, with the server of this crate at the other end.
use rgpot.Prelude.{
  ◌%◌, ℕ, ◌*◌, ◌^◌, ◌<◌, ◌≡◌, refl, ap, ◌∙◌, List, arith, length, Result, good, bad, some,
}
use rgpot.Prelude.Text.{Text}
use rgpot.Prelude.Words.{Word, Half, Double}
use rgpot.Layout.{Ptr, ForceInput, ForceOut, RpcClient}
use rgpot.Memory.{World, IsWorld, Run, ok}
use rgpot.Foreign.{Foreign}
use rgpot.Types.{n_atoms}
use rgpot.CApi.Types.Lifecycle.{n_atoms-IsInput}
use rgpot.Rpc.Wire.{
  ListBuilder, IsListBuilder, InputMessage, ResultMessage, ResultReader, Response, Wire, Network,
  CalculateParams,
}
use rgpot.Rpc.Wire.Lists.{reader_of, to_vec-reader_of, write_list-contents}
use rgpot.Rpc.Client.{calculate, build_request, exchange, extract_cpu_input, receive}
use rgpot.Rpc.Client.Extract.{extract_cpu_input-IsReady}
use rgpot.Rpc.Client.Receive.{receive-Computes}
use rgpot.Rpc.Server
use rgpot.Rpc.Server.{PotentialServer, serve}
use rgpot.Rpc.Server.Contract.{Places, IsReady, IsSized, Computes, IsPotential}
use rgpot.Rpc.Server.Serve.{serve-computes}

abbrev pub message : List Double → List Half → List Double → InputMessage
message pos atm box = record { pos = pos; atmnrs = atm; box = box }

-- What the server's accessors give for a message that arrives whole.
abbrev pub params_of : InputMessage → CalculateParams
params_of m = good (
    good (record {
      get_pos = good (reader_of 0 m.pos);
      get_atmnrs = good (reader_of 0 m.atmnrs);
      get_box = good (reader_of 0 m.box);
    }))

-- What the client receives when the server's method has run: its result, its error, or the error
-- of a connection that broke.
abbrev pub deliver : Text → Run (Result ResultMessage Text) → Wire Response
deliver lost (ok (good m) w) =
    good (good (good (record { get_energy = m.energy; get_forces = good (reader_of 0 m.forces) })))
deliver lost (ok (bad e) w) = bad e
deliver lost _ = bad lost

pub build_request-contents :
    (F : ListBuilder Double) (I : ListBuilder Half) (pos : List Double) (atm : List Half)
    (box : List Double) (n : ℕ) (w : World)
    → IsListBuilder F
    → IsListBuilder I
    → IsSized n pos atm box
    → n * 3 < 2 ^ 29
    → build_request F I pos atm box w ≡ ok (record { pos = pos; atmnrs = atm; box = box }) w
unfolding build_request
build_request-contents F I pos atm box n w lawful lawful' sized small =
    let (p, wrote_pos, is_pos) =
      write_list-contents F lawful w pos (length pos % 2 ^ 32) (omega (arith, sized.pos_size))
        (omega arith) in
    let (a, wrote_atm, is_atm) =
      write_list-contents I lawful' w atm (length atm % 2 ^ 32) (omega (arith, sized.atm_size))
        (omega arith) in
    let (b, wrote_box, is_box) =
      write_list-contents F lawful w box 9 sized.box_size (omega arith) in
    rw (wrote_pos, wrote_atm, wrote_box, is_pos, is_atm, is_box) refl

pub exchange-good :
    (net : Network) (addr : Text) (m : InputMessage) (r : ResultReader) (w : World)
    → net.send addr m ≡ good (good (good r))
    → exchange net addr m w ≡ ok (good r) w
unfolding exchange
exchange-good net addr m r w h = rw h refl

pub calculate-ok :
    (F : ListBuilder Double) (I : ListBuilder Half) (net : Network) (self : RpcClient)
    (i : ForceInput) (output : Ptr) (n : Word) (pos : List Double) (atm : List Half)
    (box : List Double) (m : InputMessage) (r : ResultReader) (w w' : World)
    → n_atoms i w ≡ ok (some n) w
    → extract_cpu_input i n w ≡ ok (good (pos, atm, box)) w
    → net.connect self.addr ≡ good tt
    → net.set_nodelay self.addr ≡ good tt
    → build_request F I pos atm box w ≡ ok m w
    → exchange net self.addr m w ≡ ok (good r) w
    → receive n r output w ≡ ok (good tt) w'
    → calculate F I net self i output w ≡ ok (good tt) w'
unfolding calculate
calculate-ok F I net self i output n pos atm box m r w w' e₁ e₂ e₃ e₄ e₅ e₆ e₇ =
    rw (e₁, e₂, e₃, e₄, e₅, e₆) e₇

pub calculate-params_of :
    (F : ListBuilder Double) (c : Foreign) (server : PotentialServer) (m : InputMessage) (v : World)
    → Server.calculate F c server (params_of m) v ≡ serve F c server m.pos m.atmnrs m.box v
unfolding Server.calculate Server.read_params
calculate-params_of F c server m v =
    rw (to_vec-reader_of 0 m.pos, to_vec-reader_of 0 m.atmnrs, to_vec-reader_of 0 m.box) refl

-- The client's `calculate` when a result of the right size comes back: the caller gets it in an owned
-- tensor that is the only new thing in the client's memory.
pub calculate-answered :
    (F : ListBuilder Double) (I : ListBuilder Half) (net : Network) (self : RpcClient) (w : World)
    (at : Places) (i : ForceInput) (o : ForceOut) (n : Word) (pos : List Double) (atm : List Half)
    (box : List Double) (fs : List Double) (x : Double)
    → IsListBuilder F
    → IsListBuilder I
    → net.connect self.addr ≡ good tt
    → net.set_nodelay self.addr ≡ good tt
    → net.send self.addr (message pos atm box)
      ≡ good (good (good (record { get_energy = x; get_forces = good (reader_of 0 fs) })))
    → length fs ≡ n * 3
    → IsReady w at i o n pos atm box
    → IsSized n pos atm box
    → n * 3 < 2 ^ 29
    → (w' : World) × (calculate F I net self i at.output w ≡ ok (good tt) w')
      × Computes w w' at.output w.next n fs x o.variance
calculate-answered F I net self w at i o n pos atm box fs x lawful lawful' connected nodelay
      answered size ready sized small =
    let m : InputMessage = message pos atm box in
    let r : ResultReader = record { get_energy = x; get_forces = good (reader_of 0 fs) } in
    let (w', received, k) =
      receive-Computes w at.output o n fs x ready.world ready.output_live ready.output_block size
        (omega arith) in
    (
      w',
      calculate-ok F I net self i at.output n pos atm box m r w w' (n_atoms-IsInput w i ready.input)
          (extract_cpu_input-IsReady w at ready sized (omega arith)) connected nodelay
          (build_request-contents F I pos atm box n w lawful lawful' sized small)
          (exchange-good net self.addr m r w answered) received,
      k,
    )

-- The client's `calculate` against the crate's own server: where the connection is made and the
-- messages arrive whole, a server whose callback computes energies and forces gives the client's
-- caller exactly those, in an owned tensor that is the only new thing in the client's memory.
pub calculate-Computes :
    (F : ListBuilder Double) (I : ListBuilder Half) (net : Network) (self : RpcClient) (c : Foreign)
    (server : PotentialServer) (v : World) (lost : Text)
    (energy : List Double → List Half → List Double → Double)
    (forces : List Double → List Half → List Double → List Double) (w : World) (at : Places)
    (i : ForceInput) (o : ForceOut) (n : Word) (pos : List Double) (atm : List Half)
    (box : List Double)
    → IsListBuilder F
    → IsListBuilder I
    → IsPotential c server.callback server.user_data energy forces
    → IsWorld v
    → net.connect self.addr ≡ good tt
    → net.set_nodelay self.addr ≡ good tt
    → net.send self.addr (message pos atm box)
      ≡ deliver lost (Server.calculate F c server (params_of (message pos atm box)) v)
    → IsReady w at i o n pos atm box
    → IsSized n pos atm box
    → n * 3 < 2 ^ 29
    → (w' : World) × (calculate F I net self i at.output w ≡ ok (good tt) w')
      × Computes w w' at.output w.next n (forces pos atm box) (energy pos atm box) o.variance
calculate-Computes F I net self c server v lost energy forces w at i o n pos atm box lawful lawful'
      potential is connected nodelay sent ready sized small =
    let m : InputMessage = message pos atm box in
    let sized' : IsSized (length atm) pos atm box = record {
      pos_size = omega (arith, sized.pos_size, sized.atm_size);
      atm_size = refl;
      box_size = sized.box_size;
    } in
    let (v', served, kept, world, rest) =
      serve-computes F c server energy forces v pos atm box lawful potential is sized'
        (omega (arith, sized.pos_size)) in
    calculate-answered F I net self w at i o n pos atm box (forces pos atm box) (energy pos atm box)
      lawful lawful' connected nodelay
      (sent ∙ ap (deliver lost) (calculate-params_of F c server m v ∙ served))
      (potential.length-forces n pos atm box sized) ready sized small
