-- ===== src/CApi/Rpc/Handle.antt =====
-- The handle of an RPC client, from `rgpot_rpc_client_new` to `rgpot_rpc_client_free`.
use rgpot.Prelude.{ℕ, ◌≡◌, ◌≢◌, refl, ◌++◌, true, some, none, List, arith, good, bad}
use rgpot.Prelude.Text.{Text, codes, decimal, has_nul}
use rgpot.Prelude.Words.{Word}
use rgpot.Layout.{RpcClient, Ptr, null, client, c_chars}
use rgpot.Memory.{World, IsWorld, SameRest, ok, ◌>>=◌, load, dealloc, put, with_block}
use rgpot.Status.{set_last_error, with_error, error_c_string, from_c_chars}
use rgpot.Status.LastError.{error_text, stored_text, error_text-with_error}
use rgpot.Rpc.Wire.{Wire}
use rgpot.Rpc.Client.{new}
use rgpot.CApi.Rpc.{rgpot_rpc_client_new, rgpot_rpc_client_free}

abbrev pub address : Text → Word → Text
address host port = host ++ codes ":" ++ decimal port

-- A live handle's block is given back.
pub rgpot_rpc_client_free-live :
    (w : World) (p : Ptr) (self : RpcClient)
    → IsWorld w
    → w.cell p ≡ some (client self)
    → rgpot_rpc_client_free p w ≡ ok tt (put p none w)
unfolding rgpot_rpc_client_free load dealloc
rgpot_rpc_client_free-live w p self is e = ground (arith, is.null_unused)

module _ (to_str : Text → Wire Text) (runtime : Wire (Unit {0})) where
  -- With a readable host string and a runtime, the new handle is a fresh block that holds the
  -- address `host:port`; nothing is connected yet. Freeing it leaves every block as it was.
  pub rgpot_rpc_client_free-new :
      (host : Ptr) (port : Word) (cs : List ℕ) (name : Text) (w : World)
      → IsWorld w
      → host ≢ null
      → w.cell host ≡ some (c_chars cs)
      → has_nul cs ≡ true
      → to_str (from_c_chars cs) ≡ good name
      → runtime ≡ good tt
      → (w' : World) × (rgpot_rpc_client_new to_str runtime host port w
          ≡ ok w.next (with_block (client (record { addr = address name port })) w))
        × ((do p ← rgpot_rpc_client_new to_str runtime host port; rgpot_rpc_client_free p) w
            ≡ ok tt w')
        × ((q : Ptr) → w'.cell q ≡ w.cell q)
        × SameRest w w'
  unfolding rgpot_rpc_client_new rgpot_rpc_client_free new load dealloc
  rgpot_rpc_client_free-new host port cs name w is live e ended utf8 started =
      let made : rgpot_rpc_client_new to_str runtime host port w
          ≡ ok w.next (with_block (client (record { addr = address name port })) w) =
        ground (arith, utf8, started) in
      (
        put w.next none (with_block (client (record { addr = address name port })) w),
        made,
        rw made (ground (arith, is.positive)),
        λ q. ground (arith, is.fresh q),
        ground arith,
      )

  -- Why no client can be made, and the message for it.
  pub data NoClient (host : Ptr) (w : World) (msg : Text) : Type 0 where
    no_host : host ≡ null → msg ≡ codes "rgpot_rpc_client_new: host is NULL" → NoClient host w msg
    no_text :
        (cs : List ℕ) (e : Text)
        → host ≢ null
        → w.cell host ≡ some (c_chars cs)
        → has_nul cs ≡ true
        → to_str (from_c_chars cs) ≡ bad e
        → msg ≡ codes "rgpot_rpc_client_new: invalid host string: " ++ e
        → NoClient host w msg
    no_runtime :
        (cs : List ℕ) (name e : Text)
        → host ≢ null
        → w.cell host ≡ some (c_chars cs)
        → has_nul cs ≡ true
        → to_str (from_c_chars cs) ≡ good name
        → runtime ≡ bad e
        → msg ≡ codes "rgpot_rpc_client_new: " ++ (codes "failed to create tokio runtime: " ++ e)
        → NoClient host w msg

  NoClient-with_error :
      (host : Ptr) (port : Word) (w : World) (msg : Text)
      → NoClient host w msg
      → rgpot_rpc_client_new to_str runtime host port w
        ≡ ok null (with_error (error_c_string msg) w)
  unfolding rgpot_rpc_client_new new load set_last_error
  NoClient-with_error host port w msg (no_host h eq) = rw (h, eq) refl
  NoClient-with_error host port w msg (no_text cs e live block ended bad_text eq) =
      rw eq (ground (arith, bad_text))
  NoClient-with_error host port w msg (no_runtime cs name e live block ended utf8 failed eq) =
      rw eq (ground (arith, utf8, failed))

  -- A host that is NULL or not UTF-8, or a runtime that does not start, gives NULL: the thread's last
  -- error says which of these it was, and the memory and the other threads' messages stay.
  pub rgpot_rpc_client_new-NoClient :
      (host : Ptr) (port : Word) (w : World) (msg : Text)
      → NoClient host w msg
      → (w' : World) × (rgpot_rpc_client_new to_str runtime host port w ≡ ok null w')
        × (error_text w' ≡ stored_text msg)
        × ((t : ℕ) → t ≢ w.thread → w'.last_error t ≡ w.last_error t)
        × (record w' { last_error = w.last_error } ≡ w)
  rgpot_rpc_client_new-NoClient host port w msg why = (
    with_error (error_c_string msg) w,
    NoClient-with_error host port w msg why,
    error_text-with_error msg w,
    λ t ne. ground arith,
    refl,
  )
