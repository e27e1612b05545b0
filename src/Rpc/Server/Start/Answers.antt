-- ===== src/Rpc/Server/Start/Answers.antt =====
-- How a listening server answers calls with lists of the promised sizes and calls that cannot be
-- read, in any order of connections and calls.
use rgpot.Prelude.{
  true, ℕ, ◌+◌, ◌^◌, ◌<◌, ◌≡◌, ◌≢◌, refl, sym, ◌∙◌, some, List, [], ◌∷◌, ◌++◌, arith, length,
  replicate, replicate-snoc, get_elem?-replicate, good, bad,
}
use rgpot.Prelude.Text.{Text, codes, decimal, has_nul}
use rgpot.Prelude.Words.{Word, Half, Double}
use rgpot.Layout.{Ptr, null, PotentialImpl, potential, c_chars}
use rgpot.Memory.{World, IsWorld, ok, load}
use rgpot.Status.{rpc_error, set_last_error, catch_unwind, with_error, error_c_string, from_c_chars}
use rgpot.Status.LastError.{error_text, stored_text, error_text-with_error}
use rgpot.Foreign.{Foreign}
use rgpot.Rpc.Wire.{ListBuilder, IsListBuilder, CalculateParams, Wire}
use rgpot.Rpc.Client.Remote.{message, params_of, calculate-params_of}
use rgpot.Rpc.Server.{PotentialServer, calculate, read_params}
use rgpot.Rpc.Server.Contract.{IsSized}
use rgpot.Rpc.Server.Service.{Verdicts, OthersRest, IsService, answer_of, serve-IsService}
use rgpot.Rpc.Server.Start.{
  Event, connection, call, Listener, Answer, accept, answer, accept_loop, rgpot_rpc_server_start,
}

module _ (verdicts : Verdicts) where
  -- The right answer to a call: that of the verdict on its three lists, or the error of an accessor.
  pub data Answered (params : CalculateParams) (a : Answer) : Type 0 where
    computed :
        (pos : List Double) (atm : List Half) (box : List Double)
        → params ≡ params_of (message pos atm box)
        → IsSized (length atm) pos atm box
        → length pos < 2 ^ 29
        → a ≡ answer_of (verdicts pos atm box)
        → Answered params a
    unreadable : (e : Text) → read_params params ≡ bad e → a ≡ bad e → Answered params a

  -- The right answers to the calls among the events, where `n` clients are connected already: a
  -- client calls only after it has connected.
  pub data Log : ℕ → List Event → List Answer → Type 0 where
    quiet : {n : ℕ} → Log n [] []
    connects :
        {n : ℕ} {es : List Event} {answers : List Answer} (nodelay : Wire (Unit {0}))
        → Log (n + 1) es answers
        → Log n (connection nodelay ∷ es) answers
    calls :
        {n : ℕ} {es : List Event} {answers : List Answer} (k : ℕ) (params : CalculateParams)
        (a : Answer)
        → k < n
        → Answered params a
        → Log n es answers
        → Log n (call k params ∷ es) (a ∷ answers)

-- `w'` has the blocks of `w` and goes on where it stopped.
record Restored (w w' : World) : Type 0 where
  pub cells : (q : Ptr) → w'.cell q ≡ w.cell q
  pub world : IsWorld w'
  pub rest : OthersRest w w'

calculate-unreadable :
    (F : ListBuilder Double) (c : Foreign) (server : PotentialServer) (params : CalculateParams)
    (e : Text) (w : World)
    → read_params params ≡ bad e
    → calculate F c server params w ≡ ok (bad e) w
unfolding calculate
calculate-unreadable F c server params e w h = rw (calculate, h) refl

-- The server of each connection.
abbrev pub server_of : PotentialImpl → PotentialServer
server_of impl = record { callback = impl.callback; user_data = impl.user_data }

module _ (F : ListBuilder Double) (c : Foreign) (pot : Ptr) (impl : PotentialImpl)
    {verdicts : Verdicts} (lawful : IsListBuilder F)
    (service : IsService c (server_of impl) verdicts) (live : pot ≢ null) where
  abbrev server : PotentialServer
  server = server_of impl

  calculate-Answered :
      (w : World) {params : CalculateParams} {a : Answer}
      → IsWorld w
      → Answered verdicts params a
      → (w' : World) × (calculate F c server params w ≡ ok a w') × Restored w w'
  calculate-Answered w is (computed pos atm box e sized small eq) =
      let (w', served, cells, world, rest) =
        serve-IsService F c server verdicts w pos atm box lawful service is sized small in
      (
        w',
        rw (e, eq) (calculate-params_of F c server (message pos atm box) w ∙ served),
        record { cells = cells; world = world; rest = rest },
      )
  calculate-Answered w {params} is (unreadable e h eq) = (
    w,
    rw eq (calculate-unreadable F c server params e w h),
    record {
      cells = λ q. refl;
      world = is;
      rest = record { thread = refl; others = λ t ne. refl; overflow_checks = refl };
    },
  )

  accept-replicate :
      (n : ℕ) (w : World)
      → w.cell pot ≡ some (potential impl)
      → accept F c pot (replicate n (some server)) w ≡ ok (replicate (n + 1) (some server)) w
  unfolding accept load
  accept-replicate n w e = ground (arith, sym (replicate-snoc n (some server)))

  answer-replicate :
      (n k : ℕ) (params : CalculateParams) (a : Answer) (w w' : World)
      → k < n
      → calculate F c server params w ≡ ok a w'
      → answer F c pot (replicate n (some server)) k params w
        ≡ ok (replicate n (some server), a ∷ []) w'
  unfolding answer
  answer-replicate n k params a w w' h e = rw (get_elem?-replicate n k (some server) h, e) refl

  -- The loop answers as the log says and then reports the failed `accept`; every block is as before.
  accept_loop-Log :
      {n : ℕ} {es : List Event} {answers : List Answer} (failure : Text) (w : World)
      → IsWorld w
      → w.cell pot ≡ some (potential impl)
      → Log verdicts n es answers
      → (w' : World) × (accept_loop F c pot (replicate n (some server)) es failure w
          ≡ ok
              (rpc_error, answers)
              (with_error (error_c_string (codes "accept failed: " ++ failure)) w'))
        × Restored w w'
  unfolding accept_loop set_last_error
  accept_loop-Log failure w is e quiet = (
    w,
    refl,
    record {
      cells = λ q. refl;
      world = is;
      rest = record { thread = refl; others = λ t ne. refl; overflow_checks = refl };
    },
  )
  accept_loop-Log {n} failure w is e (connects nodelay log) =
      let (w', done, k) = accept_loop-Log {n = n + 1} failure w is e log in
      (w', rw (accept-replicate n w e) done, k)
  accept_loop-Log {n} failure w is e (calls k params a h right log) =
      let (w₁, answered, r) = calculate-Answered w is right in
      let (w', done, s) = accept_loop-Log {n = n} failure w₁ r.world (r.cells pot ∙ e) log in
      (
        w',
        rw (answer-replicate n k params a w w₁ h answered, done) refl,
        record {
          cells = λ q. s.cells q ∙ r.cells q;
          world = s.world;
          rest = record {
            thread = s.rest.thread ∙ r.rest.thread;
            others = λ t ne. ground (arith, r.rest.others t, r.rest.thread, s.rest.others t);
            overflow_checks = s.rest.overflow_checks ∙ r.rest.overflow_checks;
          };
        },
      )

  start-serves :
      (to_str : Text → Wire Text) (runtime : Wire (Unit {0})) (l : Listener) (host : Ptr)
      (port : Word) (cs : List ℕ) (name : Text) (w w' : World) (answers : List Answer)
      → w.cell pot ≡ some (potential impl)
      → host ≢ null
      → w.cell host ≡ some (c_chars cs)
      → has_nul cs ≡ true
      → to_str (from_c_chars cs) ≡ good name
      → runtime ≡ good tt
      → l.bind (name ++ codes ":" ++ decimal port) ≡ good tt
      → accept_loop F c pot [] l.events l.failure w ≡ ok (rpc_error, answers) w'
      → rgpot_rpc_server_start F c pot to_str runtime l host port w ≡ ok rpc_error w'
  unfolding rgpot_rpc_server_start catch_unwind load
  start-serves to_str runtime l host port cs name w w' answers e live_host block ended utf8 started
        bound looped =
      ground (arith, utf8, started, bound, looped)

  -- A server that starts, over a potential whose callback computes energies and forces for some
  -- inputs and refuses others, and that gets connections and calls in any order, where each call
  -- comes from a connected client and either has lists of the promised sizes (`pos` shorter than 2
  -- ^ 29) or cannot be read: each call with such lists is answered with the energy and the forces
  -- of its own lists, or with the fixed error where the callback refuses them, and each that
  -- cannot be read with the accessor's error. No refusal or failed read keeps a later call from
  -- its answer. When an `accept` fails in the end, the function returns RGPOT_RPC_ERROR, the
  -- thread's last error says why, every block is as before the start, and the other threads'
  -- messages stay.
  pub rgpot_rpc_server_start-Log :
      (to_str : Text → Wire Text) (runtime : Wire (Unit {0})) (l : Listener) (host : Ptr)
      (port : Word) (cs : List ℕ) (name : Text) (w : World) (answers : List Answer)
      → IsWorld w
      → w.cell pot ≡ some (potential impl)
      → host ≢ null
      → w.cell host ≡ some (c_chars cs)
      → has_nul cs ≡ true
      → to_str (from_c_chars cs) ≡ good name
      → runtime ≡ good tt
      → l.bind (name ++ codes ":" ++ decimal port) ≡ good tt
      → Log verdicts 0 l.events answers
      → (w' : World) × (rgpot_rpc_server_start F c pot to_str runtime l host port w
          ≡ ok rpc_error w')
        × (accept_loop F c pot [] l.events l.failure w ≡ ok (rpc_error, answers) w')
        × (error_text w' ≡ stored_text (codes "accept failed: " ++ l.failure))
        × ((q : Ptr) → w'.cell q ≡ w.cell q)
        × ((t : ℕ) → t ≢ w.thread → w'.last_error t ≡ w.last_error t)
  rgpot_rpc_server_start-Log to_str runtime l host port cs name w answers is e live_host block ended
        utf8 started bound log =
      let (v, looped, r) = accept_loop-Log {n = 0} l.failure w is e log in
      let msg : Text = codes "accept failed: " ++ l.failure in
      (
        with_error (error_c_string msg) v,
        start-serves to_str runtime l host port cs name w _ answers e live_host block ended utf8
            started bound looped,
        looped,
        error_text-with_error msg v,
        r.cells,
        λ t ne. ground (arith, r.rest.thread, r.rest.others t),
      )
