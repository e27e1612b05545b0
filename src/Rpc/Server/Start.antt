-- ===== src/Rpc/Server/Start.antt =====
-- rgpot-core/src/rpc/server.rs: `rgpot_rpc_server_start`, from its guards to the loop that accepts
-- connections. What reaches the listening socket is a list of events, and the loop returns when an
-- `accept` fails; a server whose `accept` never fails does not return.
pub mod Answers
pub mod Refused
use rgpot.Prelude.{
  ℕ, Option, none, some, List, [], ◌∷◌, ◌++◌, get_elem?, set, Result, good, bad, if◌then◌else◌,
}
use rgpot.Prelude.Text.{Text, codes, decimal}
use rgpot.Prelude.Words.{Word, Double}
use rgpot.Layout.{Ptr, is_null}
use rgpot.Memory.{Run, ok, panicked, aborted, undefined, Cmd, pure, ◌>>=◌, ◌>>◌, load, as_potential}
use rgpot.Status.{
  Status, invalid_parameter, internal_error, rpc_error, set_last_error, catch_unwind, read_c_str,
}
use rgpot.Foreign.{Foreign}
use rgpot.Rpc.Wire.{ListBuilder, ResultMessage, CalculateParams, Wire}
use rgpot.Rpc.Server.{PotentialServer, calculate}

-- A client connects, and `set_nodelay` has an outcome; or the client of a connection, by its
-- number, calls.
pub data Event : Type 0 where
  connection : Wire (Unit {0}) → Event
  call : ℕ → CalculateParams → Event

-- The socket: whether it can be bound to an address, what reaches it, and the error of the `accept`
-- that fails in the end.
pub record Listener : Type 0 where
  pub bind : Text → Wire (Unit {0})
  pub events : List Event
  pub failure : Text

abbrev pub Answer : Type 0
Answer = Result ResultMessage Text

-- The servers of the connections so far. A connection whose task panicked has none any more.
abbrev pub Connections : Type 0
Connections = List (Option PotentialServer)

-- A panic ends only the task of its connection.
abbrev in_task : Connections → ℕ → Run Answer → Run (Connections × List Answer)
in_task servers k (ok a w) = ok (servers, a ∷ []) w
in_task servers k (panicked e w) = ok (set servers k none, []) w
in_task servers k aborted = aborted
in_task servers k undefined = undefined

module _ (F : ListBuilder Double) (c : Foreign) (pot : Ptr) where
  -- `set_nodelay` may fail; the new connection gets a server of its own.
  unfoldable pub accept : Connections → Cmd Connections
  accept servers = do
    pot_ref ← load pot >>= as_potential
    pure (
        servers
        ++ some (record { callback = pot_ref.callback; user_data = pot_ref.user_data }) ∷ [])

  abbrev answer_with :
      Connections
      → ℕ
      → CalculateParams
      → Option (Option PotentialServer)
      → Cmd (Connections × List Answer)
  answer_with servers k params (some (some server)) w =
      in_task servers k (calculate F c server params w)
  answer_with servers k params _ w = ok (servers, []) w

  unfoldable pub answer : Connections → ℕ → CalculateParams → Cmd (Connections × List Answer)
  answer servers k params = answer_with servers k params (get_elem? servers k)

  -- The loop, with the answers that it has sent when it returns.
  unfoldable pub accept_loop : Connections → List Event → Text → Cmd (Status × List Answer)
  accept_loop servers [] failure = do
    set_last_error (codes "accept failed: " ++ failure)
    pure (rpc_error, [])
  accept_loop servers (connection nodelay ∷ es) failure = do
    servers' ← accept servers
    accept_loop servers' es failure
  accept_loop servers (call k params ∷ es) failure = do
    (servers', sent) ← answer servers k params
    (status, answers) ← accept_loop servers' es failure
    pure (status, sent ++ answers)

  -- `set_last_error(msg); return status`
  abbrev pub refuse : Status → Text → Cmd Status
  refuse status msg = set_last_error msg >> pure status

  abbrev pub serve_at : Wire (Unit {0}) → Listener → Text → Cmd Status
  serve_at runtime l addr = elim runtime [
    | bad e ↦ refuse internal_error (codes "failed to create runtime: " ++ e)
    | good _ ↦ elim (l.bind addr) [
      | bad e ↦ refuse rpc_error (codes "failed to bind " ++ addr ++ codes ": " ++ e)
      | good _ ↦ do (status, answers) ← accept_loop [] l.events l.failure; pure status
    ]
  ]

  unfoldable pub rgpot_rpc_server_start :
      (Text → Wire Text) → Wire (Unit {0}) → Listener → Ptr → Word → Cmd Status
  rgpot_rpc_server_start to_str runtime l host port = catch_unwind (
      if is_null pot
      then refuse invalid_parameter (codes "rgpot_rpc_server_start: pot is NULL")
      else if is_null host
      then refuse invalid_parameter (codes "rgpot_rpc_server_start: host is NULL")
      else do
        load pot >>= as_potential
        chars ← read_c_str host
        elim (to_str chars) [
          | bad e ↦ refuse invalid_parameter (codes "invalid host string: " ++ e)
          | good host_str ↦ serve_at runtime l (host_str ++ codes ":" ++ decimal port)
        ])
