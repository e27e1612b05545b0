-- ===== src/Rpc/Server/Start/Refused.antt =====
-- Servers that do not start.
use rgpot.Prelude.{ℕ, ◌≡◌, ◌≢◌, refl, some, List, ◌++◌, arith, good, bad, true}
use rgpot.Prelude.Text.{Text, codes, decimal, has_nul}
use rgpot.Prelude.Words.{Word, Double}
use rgpot.Layout.{Ptr, null, PotentialImpl, potential, c_chars}
use rgpot.Memory.{World, ok, load}
use rgpot.Status.{
  Status, invalid_parameter, internal_error, rpc_error, set_last_error, catch_unwind, with_error,
  error_c_string, from_c_chars,
}
use rgpot.Status.LastError.{error_text, stored_text, error_text-with_error}
use rgpot.Foreign.{Foreign}
use rgpot.Rpc.Wire.{ListBuilder, Wire}
use rgpot.Rpc.Server.Start.{Listener, rgpot_rpc_server_start}

module _ (to_str : Text → Wire Text) (runtime : Wire (Unit {0})) (l : Listener) (port : Word) where
  -- Why a server does not start, with the status and the message for it. From the third case on the
  -- handle and the host string can be read.
  pub data NoServer (w : World) (pot host : Ptr) (s : Status) (msg : Text) : Type 0 where
    no_pot :
        pot ≡ null
        → s ≡ invalid_parameter
        → msg ≡ codes "rgpot_rpc_server_start: pot is NULL"
        → NoServer w pot host s msg
    no_host :
        pot ≢ null
        → host ≡ null
        → s ≡ invalid_parameter
        → msg ≡ codes "rgpot_rpc_server_start: host is NULL"
        → NoServer w pot host s msg
    no_text :
        (p : PotentialImpl) (cs : List ℕ) (e : Text)
        → pot ≢ null
        → host ≢ null
        → w.cell pot ≡ some (potential p)
        → w.cell host ≡ some (c_chars cs)
        → has_nul cs ≡ true
        → to_str (from_c_chars cs) ≡ bad e
        → s ≡ invalid_parameter
        → msg ≡ codes "invalid host string: " ++ e
        → NoServer w pot host s msg
    no_runtime :
        (p : PotentialImpl) (cs : List ℕ) (name e : Text)
        → pot ≢ null
        → host ≢ null
        → w.cell pot ≡ some (potential p)
        → w.cell host ≡ some (c_chars cs)
        → has_nul cs ≡ true
        → to_str (from_c_chars cs) ≡ good name
        → runtime ≡ bad e
        → s ≡ internal_error
        → msg ≡ codes "failed to create runtime: " ++ e
        → NoServer w pot host s msg
    no_socket :
        (p : PotentialImpl) (cs : List ℕ) (name e : Text)
        → pot ≢ null
        → host ≢ null
        → w.cell pot ≡ some (potential p)
        → w.cell host ≡ some (c_chars cs)
        → has_nul cs ≡ true
        → to_str (from_c_chars cs) ≡ good name
        → runtime ≡ good tt
        → l.bind (name ++ codes ":" ++ decimal port) ≡ bad e
        → s ≡ rpc_error
        → msg ≡ codes "failed to bind " ++ (name ++ codes ":" ++ decimal port) ++ codes ": " ++ e
        → NoServer w pot host s msg

  NoServer-with_error :
      (F : ListBuilder Double) (c : Foreign) (pot host : Ptr) (w : World) (s : Status) (msg : Text)
      → NoServer w pot host s msg
      → rgpot_rpc_server_start F c pot to_str runtime l host port w
        ≡ ok s (with_error (error_c_string msg) w)
  unfolding rgpot_rpc_server_start catch_unwind load set_last_error
  NoServer-with_error F c pot host w s msg (no_pot h eq eq') = rw (h, eq, eq') refl
  NoServer-with_error F c pot host w s msg (no_host h h' eq eq') = rw (h', eq, eq') (ground arith)
  NoServer-with_error F c pot host w s msg (no_text p cs e h h' b b' ended bad_text eq eq') =
      rw (eq, eq') (ground (arith, bad_text))
  NoServer-with_error F c pot host w s msg
        (no_runtime p cs name e h h' b b' ended utf8 failed eq eq') =
      rw (eq, eq') (ground (arith, utf8, failed))
  NoServer-with_error F c pot host w s msg
        (no_socket p cs name e h h' b b' ended utf8 started failed eq eq') =
      rw (eq, eq') (ground (arith, utf8, started, failed))

  -- A server that does not start serves nobody: a NULL handle or host and a host that is not UTF-8
  -- give RGPOT_INVALID_PARAMETER, a runtime that does not start RGPOT_INTERNAL_ERROR, and an address
  -- that cannot be bound RGPOT_RPC_ERROR. The thread's last error says which of these it was, and the
  -- memory and the other threads' messages stay.
  pub rgpot_rpc_server_start-NoServer :
      (F : ListBuilder Double) (c : Foreign) (pot host : Ptr) (w : World) (s : Status) (msg : Text)
      → NoServer w pot host s msg
      → (w' : World) × (rgpot_rpc_server_start F c pot to_str runtime l host port w ≡ ok s w')
        × (error_text w' ≡ stored_text msg)
        × ((t : ℕ) → t ≢ w.thread → w'.last_error t ≡ w.last_error t)
        × (record w' { last_error = w.last_error } ≡ w)
  rgpot_rpc_server_start-NoServer F c pot host w s msg why = (
    with_error (error_c_string msg) w,
    NoServer-with_error F c pot host w s msg why,
    error_text-with_error msg w,
    λ t ne. ground arith,
    refl,
  )
