-- ===== src/CApi/Rpc/System/Answered.antt =====
-- The calls of any number of clients, in any order, are each answered for themselves.
use rgpot.Prelude.{ℕ, ◌≡◌, refl, ap, ◌∙◌, List, Option, none, some, arith, length, Result, subst}
use rgpot.Prelude.Text.{Text}
use rgpot.Prelude.Words.{Half, Double}
use rgpot.Layout.{Ptr}
use rgpot.Memory.Runs.{same_end}
use rgpot.Memory.{World, IsWorld, ok}
use rgpot.Status.{Status, success, rpc_error}
use rgpot.Foreign.{Foreign}
use rgpot.Rpc.Wire.{ListBuilder, IsListBuilder, Network, ResultMessage}
use rgpot.Rpc.Client.Remote.{message, deliver, calculate-params_of}
use rgpot.Rpc.Client.Failure.{no_call}
use rgpot.Rpc.Server.{PotentialServer, callback_error}
use rgpot.Rpc.Server.Contract.{IsSized}
use rgpot.Rpc.Server.Service.{Verdicts, IsService, answer_of, serve-IsService}
use rgpot.CApi.Rpc.Remote.{rgpot_rpc_calculate-Failure, rgpot_rpc_calculate-IsAnswered}
use rgpot.CApi.Rpc.System.{
  Processes, Request, IsRequest, call, handle_request, IsConnected, Step, acts, answers, fails,
  loses, Reach, here, next, Outcome,
}

-- The server's memory has the blocks of `v`, and its allocator can go on.
pub record Intact (v v' : World) : Type 0 where
  pub cells : (q : Ptr) → v'.cell q ≡ v.cell q
  pub world : IsWorld v'

module _ (F : ListBuilder Double) (I : ListBuilder Half) (c : Foreign) (impl : PotentialServer)
    (lost : Text) {verdicts : Verdicts} (lawful : IsListBuilder F) (lawful' : IsListBuilder I)
    (service : IsService c impl verdicts) where
  -- The server's side gives the answer of the verdict, and keeps its memory.
  handle_request-Intact :
      {w : World} (r : Request) (v : World)
      → IsRequest w r
      → IsWorld v
      → (v' : World) × (handle_request F I c impl lost r v
          ≡ ok (answer_of (verdicts r.pos r.atm r.box)) v')
        × Intact v v'
  handle_request-Intact r v is world =
      let sized : IsSized (length r.atm) r.pos r.atm r.box = record {
        pos_size = omega (arith, is.sized.pos_size, is.sized.atm_size);
        atm_size = refl;
        box_size = is.sized.box_size;
      } in
      let (v', served, cells, world', rest) =
        serve-IsService F c impl verdicts v r.pos r.atm r.box lawful service world sized
          (omega (arith, is.sized.pos_size, is.small)) in
      (
        v',
        calculate-params_of F c impl (message r.pos r.atm r.box) v ∙ served,
        record { cells = cells; world = world' },
      )

  -- So whatever the server's side returned, its memory was kept.
  handled-Intact :
      {w v v' : World} {a : Result ResultMessage Text} (r : Request)
      → IsRequest w r
      → IsWorld v
      → handle_request F I c impl lost r v ≡ ok a v'
      → Intact v v'
  handled-Intact {v} r is world h =
      let (v₁, handled, kept) = handle_request-Intact r v is world in
      subst (Intact v) (same_end handled h).1 kept

  Step-Intact :
      {S S' : Processes} → Step F I c impl lost S S' → IsWorld S.server → Intact S.server S'.server
  Step-Intact (acts k w e) world = rw e (record { cells = λ q. refl; world = world })
  Step-Intact (answers k net r s a v w is connected called handled e) world =
      rw e (handled-Intact r is world handled)
  Step-Intact (fails k net r s msg w is failure called e) world =
      rw e (record { cells = λ q. refl; world = world })
  Step-Intact (loses k net r s msg a v w is failure called handled e) world =
      rw e (handled-Intact r is world handled)

  Reach-Intact :
      {S S' : Processes} → IsWorld S.server → Reach F I c impl lost S S' → Intact S.server S'.server
  Reach-Intact world here = record { cells = λ q. refl; world = world }
  Reach-Intact world (next reached st) =
      let past = Reach-Intact world reached in
      let last = Step-Intact st past.world in
      record { cells = λ q. last.cells q ∙ past.cells q; world = last.world }

  -- The client's side, by the answer that the server gives.
  call-Outcome :
      (w v v' : World) (net : Network) (r : Request) (o : Option (Double × List Double))
      → verdicts r.pos r.atm r.box ≡ o
      → IsRequest w r
      → IsConnected F I c impl lost net r v
      → handle_request F I c impl lost r v ≡ ok (answer_of o) v'
      → (s : Status) × (w' : World) × (call F I c impl lost net r w ≡ ok s w') × Outcome o r w s w'
  call-Outcome w v v' net r none verdict is connected handled =
      let (w', done, text, others, kept) =
        rgpot_rpc_calculate-Failure F I net w r.handle r.self r.at r.input r.output r.n r.pos r.atm
          r.box _ lawful lawful' is
          (no_call callback_error connected.connected connected.nodelay
            (connected.sent ∙ ap (deliver lost) handled) refl) in
      (rpc_error, w', done, (refl, text, kept))
  call-Outcome w v v' net r (some (e, fs)) verdict is connected handled =
      let (w', done, k) =
        rgpot_rpc_calculate-IsAnswered F I net w r.handle r.self r.at r.input r.output r.n r.pos
          r.atm r.box fs e lawful lawful' is
          (record {
            connected = connected.connected;
            nodelay = connected.nodelay;
            answered = connected.sent ∙ ap (deliver lost) handled;
            size = service.length-forces r.n r.pos r.atm r.box e fs is.sized verdict;
          }) in
      (success, w', done, (refl, k))

  -- Whatever any number of clients did before, and whichever of their calls were answered, refused or
  -- lost: a ready call that reaches the server gets the verdict on its own input. The energy and
  -- the forces are then in the client's output and RGPOT_SUCCESS is returned; or, where the callback
  -- refuses, RGPOT_RPC_ERROR is, the last error is the fixed one, and the client's memory is as it
  -- was. Every block of the server is afterwards as at the beginning.
  pub rgpot_rpc_calculate-Reach :
      (S₀ S : Processes) (k : ℕ) (net : Network) (r : Request)
      → IsWorld S₀.server
      → Reach F I c impl lost S₀ S
      → IsRequest (S.clients k) r
      → IsConnected F I c impl lost net r S.server
      → (s : Status) × (w v : World) × (call F I c impl lost net r (S.clients k) ≡ ok s w)
        × Outcome (verdicts r.pos r.atm r.box) r (S.clients k) s w
        × (handle_request F I c impl lost r S.server
            ≡ ok (answer_of (verdicts r.pos r.atm r.box)) v)
        × Intact S₀.server v
  rgpot_rpc_calculate-Reach S₀ S k net r world reached is connected =
      let past = Reach-Intact world reached in
      let (v, handled, kept) = handle_request-Intact r S.server is past.world in
      let (s, w, called, outcome) =
        call-Outcome (S.clients k) S.server v net r (verdicts r.pos r.atm r.box) refl is connected
          handled in
      (
        s,
        w,
        v,
        called,
        outcome,
        handled,
        record { cells = λ q. kept.cells q ∙ past.cells q; world = kept.world },
      )
