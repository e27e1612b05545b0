-- ===== src/Tests/System.antt =====
-- Three clients and a server: the first is answered, the second finds no server, then the third
-- calls.
use rgpot.Tests.Ends.{end_of, end_of-ok}
use rgpot.Prelude.{◌≡◌, refl, good, Result}
use rgpot.Prelude.Text.{Text, codes}
use rgpot.Memory.{World, Run, ok}
use rgpot.Status.{Status, rpc_error}
use rgpot.Rpc.Wire.{Network, ResultMessage}
use rgpot.Rpc.Client.Remote.{params_of, deliver}
use rgpot.Rpc.Client.Failure.{no_connection}
use rgpot.Rpc.Server
use rgpot.Rpc.Server.Service.{answer_of}
use rgpot.CApi.Types.{empty_out}
use rgpot.CApi.Rpc.Remote.{rgpot_rpc_calculate-Failure}
use rgpot.CApi.Rpc.System.{
  Processes, set_client, Request, call, handle_request, Step, answers, fails, here, next, Outcome,
}
use rgpot.CApi.Rpc.System.Answered.{Intact, rgpot_rpc_calculate-Reach}
use rgpot.Tests.Data
use rgpot.Tests.Data.{
  empty, empty-IsWorld, list_builder, list_builder-IsListBuilder, atm, box, self, client_world,
  client_world-IsCall, places, input, dead_network, lost,
}
use rgpot.Tests.Callbacks.{server}
use rgpot.Tests.Moody.{moody, moody_verdicts, moody-IsService}

abbrev request : Request
request = record {
  handle = 1;
  self = self;
  at = places;
  input = input;
  output = empty_out;
  n = 1;
  pos = Data.pos;
  atm = atm;
  box = box;
}

-- A network to the server whose memory is `v`.
abbrev network_to : World → Network
network_to v = record {
  connect = λ addr. good tt;
  set_nodelay = λ addr. good tt;
  send = λ addr m. deliver lost (Server.calculate list_builder moody server (params_of m) v);
}

abbrev start : Processes
start = record { server = empty; clients = λ j. client_world }

abbrev first_call : Run Status
first_call =
    call list_builder list_builder moody server lost (network_to empty) request client_world

abbrev first_handled : Run (Result ResultMessage Text)
first_handled = handle_request list_builder list_builder moody server lost request empty

abbrev answered : Processes
answered = record {
  server = end_of first_handled;
  clients = set_client 0 (end_of first_call) start.clients;
}

first : Step list_builder list_builder moody server lost start answered
first =
    let (s, w, v, called, outcome, handled, kept) =
      rgpot_rpc_calculate-Reach list_builder list_builder moody server lost
        list_builder-IsListBuilder list_builder-IsListBuilder moody-IsService start start 0
        (network_to empty) request empty-IsWorld here client_world-IsCall
        (record { connected = refl; nodelay = refl; sent = refl }) in
    answers 0 (network_to empty) request s _ (end_of first_handled) (end_of first_call)
      client_world-IsCall (record { connected = refl; nodelay = refl; sent = refl })
      (end_of-ok called) (end_of-ok handled) refl

abbrev second_call : Run Status
second_call = call list_builder list_builder moody server lost dead_network request client_world

abbrev failed : Processes
failed = record {
  server = answered.server;
  clients = set_client 1 (end_of second_call) answered.clients;
}

second : Step list_builder list_builder moody server lost answered failed
second =
    let (w, done, _, _, _) =
      rgpot_rpc_calculate-Failure list_builder list_builder dead_network client_world 1 self places
        input empty_out 1 Data.pos atm box (codes "connection failed: refused")
        list_builder-IsListBuilder list_builder-IsListBuilder client_world-IsCall
        (no_connection (codes "refused") refl refl) in
    fails 1 dead_network request rpc_error (codes "connection failed: refused") (end_of second_call)
      client_world-IsCall (no_connection (codes "refused") refl refl) (end_of-ok done) refl

rgpot_rpc_calculate-Reach_example :
    (s : Status) × (w v : World) × (call list_builder list_builder moody server lost
        (network_to failed.server)
        request
        client_world
      ≡ ok s w)
    × Outcome (moody_verdicts Data.pos atm box) request client_world s w
    × (handle_request list_builder list_builder moody server lost request failed.server
        ≡ ok (answer_of (moody_verdicts Data.pos atm box)) v)
    × Intact empty v
rgpot_rpc_calculate-Reach_example =
    rgpot_rpc_calculate-Reach list_builder list_builder moody server lost list_builder-IsListBuilder
      list_builder-IsListBuilder moody-IsService start failed 2 (network_to failed.server) request
      empty-IsWorld (next (next here first) second) client_world-IsCall
      (record { connected = refl; nodelay = refl; sent = refl })
