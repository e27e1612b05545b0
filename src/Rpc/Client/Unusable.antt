-- ===== src/Rpc/Client/Unusable.antt =====
-- A result whose forces cannot be used: they cannot be read, or there are not `n * 3` of them.
use rgpot.Prelude.{◌*◌, ◌^◌, ◌<◌, ◌≡◌, ◌≢◌, ◌++◌, List, arith, good, bad, some}
use rgpot.Prelude.Text.{Text, codes, decimal}
use rgpot.Prelude.Words.{Word, Half, Double}
use rgpot.Layout.{Ptr, ForceInput, ForceOut, RpcClient, force_out}
use rgpot.Memory.{World, ok, put, mul_usize}
use rgpot.CApi.Types.Lifecycle.{n_atoms-IsInput}
use rgpot.Rpc.Wire.{ListBuilder, IsListBuilder, InputMessage, Network, ListReader, ResultReader}
use rgpot.Rpc.Client.{calculate, receive, set_energy, build_request, exchange, extract_cpu_input}
use rgpot.Types.{n_atoms}
use rgpot.Rpc.Client.Extract.{extract_cpu_input-IsReady}
use rgpot.Rpc.Client.Receive.{set_energy-live}
use rgpot.Rpc.Client.Remote.{message, build_request-contents, exchange-good}
use rgpot.Rpc.Server.Contract.{Places, IsReady, IsSized}
use rgpot.Rpc.Server.Dispatch.{mul_usize-small}

-- What is wrong with the forces for `n` atoms, and the client's message for it.
pub data Unusable (n : Word) (r : ResultReader) (msg : Text) : Type 0 where
  no_forces :
      (e : Text)
      → r.get_forces ≡ bad e
      → msg ≡ codes "failed to read forces: " ++ e
      → Unusable n r msg
  wrong_size :
      (forces : ListReader Double)
      → r.get_forces ≡ good forces
      → forces.len ≢ n * 3
      → msg
        ≡ codes "force array size mismatch: expected "
          ++ decimal (n * 3)
          ++ codes ", got "
          ++ decimal forces.len
      → Unusable n r msg

receive-Unusable :
    (n : Word) (r : ResultReader) (output : Ptr) (w w₁ : World) (msg : Text)
    → set_energy output r.get_energy w ≡ ok tt w₁
    → mul_usize n 3 w₁ ≡ ok (n * 3) w₁
    → Unusable n r msg
    → receive n r output w ≡ ok (bad msg) w₁
unfolding receive
receive-Unusable n r output w w₁ msg e₁ e₂ (no_forces e h eq) = rw eq (ground (arith, e₁, h))
receive-Unusable n r output w w₁ msg e₁ e₂ (wrong_size forces h ne eq) =
    rw eq (ground (arith, e₁, e₂, h))

calculate-received :
    (F : ListBuilder Double) (I : ListBuilder Half) (net : Network) (self : RpcClient)
    (i : ForceInput) (output : Ptr) (n : Word) (pos : List Double) (atm : List Half)
    (box : List Double) (m : InputMessage) (r : ResultReader) (w w' : World) (msg : Text)
    → n_atoms i w ≡ ok (some n) w
    → extract_cpu_input i n w ≡ ok (good (pos, atm, box)) w
    → net.connect self.addr ≡ good tt
    → net.set_nodelay self.addr ≡ good tt
    → build_request F I pos atm box w ≡ ok m w
    → exchange net self.addr m w ≡ ok (good r) w
    → receive n r output w ≡ ok (bad msg) w'
    → calculate F I net self i output w ≡ ok (bad msg) w'
unfolding calculate
calculate-received F I net self i output n pos atm box m r w w' msg e₁ e₂ e₃ e₄ e₅ e₆ e₇ =
    rw (e₁, e₂, e₃, e₄, e₅, e₆) e₇

-- The call fails with the message, and the energy has been written nevertheless.
pub calculate-Unusable :
    (F : ListBuilder Double) (I : ListBuilder Half) (net : Network) (self : RpcClient) (w : World)
    (at : Places) (i : ForceInput) (o : ForceOut) (n : Word) (pos : List Double) (atm : List Half)
    (box : List Double) (r : ResultReader) (msg : Text)
    → IsListBuilder F
    → IsListBuilder I
    → IsReady w at i o n pos atm box
    → IsSized n pos atm box
    → n * 3 < 2 ^ 29
    → net.connect self.addr ≡ good tt
    → net.set_nodelay self.addr ≡ good tt
    → net.send self.addr (message pos atm box) ≡ good (good (good r))
    → Unusable n r msg
    → calculate F I net self i at.output w
      ≡ ok (bad msg) (put at.output (some (force_out (record o { energy = r.get_energy }))) w)
calculate-Unusable F I net self w at i o n pos atm box r msg lawful lawful' ready sized small
      connected nodelay sent why =
    let w₁ : World = put at.output (some (force_out (record o { energy = r.get_energy }))) w in
    calculate-received F I net self i at.output n pos atm box (message pos atm box) r w w₁ msg
      (n_atoms-IsInput w i ready.input) (extract_cpu_input-IsReady w at ready sized (omega arith))
      connected nodelay (build_request-contents F I pos atm box n w lawful lawful' sized small)
      (exchange-good net self.addr (message pos atm box) r w sent)
      (receive-Unusable n r at.output w w₁ msg
        (set_energy-live at.output ready.output_live o w ready.output_block r.get_energy)
        (mul_usize-small n w₁ (omega arith)) why)
