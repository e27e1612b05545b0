-- ===== src/CApi/Rpc/System.antt =====
-- Client processes and a server process: rpc/client.rs, rpc/server.rs and c_api/rpc.rs at work
-- together. Each process has a memory of its own. A call of `rgpot_rpc_calculate` changes that of
-- the client and, where the request arrives, that of the server; in between a client does what it
-- likes with its own memory.
pub mod Answered
use rgpot.Prelude.{ℕ, ◌≡◌, ◌==◌, List, Option, none, some, Result, if◌then◌else◌, ◌++◌}
use rgpot.Prelude.Text.{Text, codes}
use rgpot.Prelude.Words.{Word, Half, Double}
use rgpot.Layout.{Ptr, ForceInput, ForceOut, RpcClient}
use rgpot.Memory.{Run, World, IsWorld, ok}
use rgpot.Status.{Status, success, rpc_error}
use rgpot.Status.LastError.{error_text}
use rgpot.Foreign.{Foreign}
use rgpot.Rpc.Wire.{ListBuilder, Network, ResultMessage}
use rgpot.Rpc.Client.Remote.{message, params_of}
use rgpot.Rpc.Client.Failure.{Failure}
use rgpot.Rpc.Server
use rgpot.Rpc.Server.{PotentialServer}
use rgpot.Rpc.Server.Contract.{Places, Computes}
use rgpot.CApi.Rpc.{rgpot_rpc_calculate}
use rgpot.CApi.Rpc.Remote.{IsCall, Reaches}

pub record Processes : Type 0 where
  pub server : World
  pub clients : ℕ → World

abbrev pub set_client : ℕ → World → (ℕ → World) → ℕ → World
set_client k w clients j = if j == k then w else clients j

-- What a client passes to `rgpot_rpc_calculate`, with all that the pointers lead to.
pub record Request : Type 0 where
  pub handle : Ptr
  pub self : RpcClient
  pub at : Places
  pub input : ForceInput
  pub output : ForceOut
  pub n : Word
  pub pos : List Double
  pub atm : List Half
  pub box : List Double

abbrev pub IsRequest : World → Request → Type 0
IsRequest w r = IsCall w r.handle r.self r.at r.input r.output r.n r.pos r.atm r.box

module _ (F : ListBuilder Double) (I : ListBuilder Half) (c : Foreign) (impl : PotentialServer)
    (lost : Text) where
  -- The client's side of a call.
  abbrev pub call : Network → Request → World → Run Status
  call net r = rgpot_rpc_calculate F I net r.handle r.at.input r.at.output

  -- The server's side, when the message has arrived.
  abbrev pub handle_request : Request → World → Run (Result ResultMessage Text)
  handle_request r = Server.calculate F c impl (params_of (message r.pos r.atm r.box))

  abbrev pub IsConnected : Network → Request → World → Type 0
  IsConnected net r v = Reaches net r.self F c impl v lost r.pos r.atm r.box

  -- A client acts on its own memory, or calls. The call is answered, or fails before the request
  -- reaches the server, or fails when the server has done its part already.
  pub data Step (S S' : Processes) : Type 0 where
    acts :
        (k : ℕ) (w : World)
        → S' ≡ record { server = S.server; clients = set_client k w S.clients }
        → Step S S'
    answers :
        (k : ℕ) (net : Network) (r : Request) (s : Status) (a : Result ResultMessage Text)
        (v w : World)
        → IsRequest (S.clients k) r
        → IsConnected net r S.server
        → call net r (S.clients k) ≡ ok s w
        → handle_request r S.server ≡ ok a v
        → S' ≡ record { server = v; clients = set_client k w S.clients }
        → Step S S'
    fails :
        (k : ℕ) (net : Network) (r : Request) (s : Status) (msg : Text) (w : World)
        → IsRequest (S.clients k) r
        → Failure net r.self.addr (message r.pos r.atm r.box) msg
        → call net r (S.clients k) ≡ ok s w
        → S' ≡ record { server = S.server; clients = set_client k w S.clients }
        → Step S S'
    loses :
        (k : ℕ) (net : Network) (r : Request) (s : Status) (msg : Text)
        (a : Result ResultMessage Text) (v w : World)
        → IsRequest (S.clients k) r
        → Failure net r.self.addr (message r.pos r.atm r.box) msg
        → call net r (S.clients k) ≡ ok s w
        → handle_request r S.server ≡ ok a v
        → S' ≡ record { server = v; clients = set_client k w S.clients }
        → Step S S'

  pub data Reach (S : Processes) : Processes → Type 0 where
    here : Reach S S
    next : {S' S'' : Processes} → Reach S S' → Step S' S'' → Reach S S''

-- What the verdict of the potential means for the client that called.
abbrev pub Outcome : Option (Double × List Double) → Request → World → Status → World → Type 0
Outcome none r w s w' =
    (s ≡ rpc_error)
    × (error_text w'
        ≡ codes "rgpot_rpc_calculate: RPC call failed: potential callback returned an error")
    × (record w' { last_error = w.last_error } ≡ w)
Outcome (some (e, fs)) r w s w' =
    (s ≡ success) × Computes w w' r.at.output w.next r.n fs e r.output.variance
