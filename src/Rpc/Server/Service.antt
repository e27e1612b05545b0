-- ===== src/Rpc/Server/Service.antt =====
-- A callback that works on some inputs and refuses others.
use rgpot.Prelude.{
  ℕ, ◌*◌, ◌^◌, ◌<◌, ◌≡◌, ◌≢◌, ◌∙◌, inl, inr, false, Option, none, some, List, [], arith, length,
  Result, good, bad, Option-cases,
}
use rgpot.Prelude.Text.{Text}
use rgpot.Prelude.Words.{Word, Half, Double}
use rgpot.Layout.{Ptr, ForceInput}
use rgpot.Memory.{World, IsWorld, ok}
use rgpot.Foreign.{Foreign}
use rgpot.Status.{Status, success}
use rgpot.CApi.Types.{empty_out}
use rgpot.Rpc.Wire.{ListBuilder, IsListBuilder, ResultMessage}
use rgpot.Rpc.Server.{PotentialServer, serve, is_success, callback_error}
use rgpot.Rpc.Server.Contract.{Places, IsReady, IsSized, Computes, IsPotential}
use rgpot.Rpc.Server.Refuse.{NoForces, serve-LeavesNone, respond-refused}
use rgpot.Rpc.Server.Serve.{serve-Computes}

-- What a potential says of the three lists of an input: an energy with forces, or nothing.
abbrev pub Verdicts : Type 0
Verdicts = List Double → List Half → List Double → Option (Double × List Double)

-- What a refusal may touch besides the output: the message of its own thread.
pub record OthersRest (w w' : World) : Type 0 where
  pub thread : w'.thread ≡ w.thread
  pub others : (t : ℕ) → t ≢ w.thread → w'.last_error t ≡ w.last_error t
  pub overflow_checks : w'.overflow_checks ≡ w.overflow_checks

-- The callback does what `verdicts` says of its input. To refuse, it returns a status other than
-- RGPOT_SUCCESS, with a message or without.
pub record IsService (c : Foreign) (self : PotentialServer) (verdicts : Verdicts) : Type 0 where
  pub length-forces :
      (n : Word) (pos : List Double) (atm : List Half) (box : List Double) (e : Double)
      (fs : List Double)
      → IsSized n pos atm box
      → verdicts pos atm box ≡ some (e, fs)
      → length fs ≡ n * 3
  pub computes :
      (v : World) (at : Places) (i : ForceInput) (n : Word) (pos : List Double) (atm : List Half)
      (box : List Double) (e : Double) (fs : List Double)
      → IsReady v at i empty_out n pos atm box
      → IsSized n pos atm box
      → verdicts pos atm box ≡ some (e, fs)
      → (v' : World) × (t : Ptr) × (x : Double) × (c.callback self.callback self.user_data at.input
            at.output v
          ≡ ok success v')
        × Computes v v' at.output t n fs e x
  pub refuses :
      (v : World) (at : Places) (i : ForceInput) (n : Word) (pos : List Double) (atm : List Half)
      (box : List Double)
      → IsReady v at i empty_out n pos atm box
      → IsSized n pos atm box
      → verdicts pos atm box ≡ none
      → (v' : World) × (s : Status) × (e : Double) × (x : Double) × (c.callback self.callback
            self.user_data at.input at.output v
          ≡ ok s v')
        × (is_success s ≡ false)
        × NoForces v v' at.output e x
        × OthersRest v v'

-- A potential that always computes is a service that never refuses.
pub IsService-IsPotential :
    (c : Foreign) (self : PotentialServer) {energy : List Double → List Half → List Double → Double}
    {forces : List Double → List Half → List Double → List Double}
    → IsPotential c self.callback self.user_data energy forces
    → IsService c self (λ pos atm box. some (energy pos atm box, forces pos atm box))
IsService-IsPotential c self {energy} {forces} p = record {
  length-forces = λ n pos atm box e fs sized h. ground (arith, p.length-forces n pos atm box sized);
  computes = λ v at i n pos atm box e fs ready sized h.
      let (v', t, x, called, k) = p.computes v at i empty_out n pos atm box ready sized in
      let same_energy : energy pos atm box ≡ e = ground arith in
      let same_forces : forces pos atm box ≡ fs = ground arith in
      (v', t, x, called, rw (same_energy, same_forces) at k);
  refuses = λ v at i n pos atm box ready sized h. absurd (ground arith);
}

-- The server's answer for each verdict.
abbrev pub answer_of : Option (Double × List Double) → Result ResultMessage Text
answer_of none = bad callback_error
answer_of (some (e, fs)) = good (record { energy = e; forces = fs })

-- A request of the promised sizes gets the answer of its verdict. Every block of the server is as
-- before, and so are the messages of the other threads.
pub serve-IsService :
    (F : ListBuilder Double) (c : Foreign) (self : PotentialServer) (verdicts : Verdicts)
    (w : World) (pos : List Double) (atm : List Half) (box : List Double)
    → IsListBuilder F
    → IsService c self verdicts
    → IsWorld w
    → IsSized (length atm) pos atm box
    → length pos < 2 ^ 29
    → (w' : World) × (serve F c self pos atm box w ≡ ok (answer_of (verdicts pos atm box)) w')
      × ((q : Ptr) → w'.cell q ≡ w.cell q)
      × IsWorld w'
      × OthersRest w w'
serve-IsService F c self verdicts w pos atm box lawful service is sized small =
    elim (Option-cases (verdicts pos atm box)) [
      | inl refused ↦
          let (v, v₁, w', served, cells, world, r₁, r₂, r₃) =
            serve-LeavesNone F c self w pos atm box (bad callback_error) OthersRest is
              λ v at i ready.
                let (v₁, s, e, x, called, not_ok, k, rest) =
                  service.refuses v at i (length atm) pos atm box ready sized refused in
                record {
                  after = v₁;
                  status = s;
                  energy = e;
                  variance = x;
                  called = called;
                  left = k;
                  besides = rest;
                  said = λ u. respond-refused F s _ [] u not_ok;
                } in
          (
            w',
            rw refused served,
            cells,
            world,
            record {
              thread = r₃.thread ∙ r₂.thread ∙ r₁.thread;
              others = λ t ne. ground (arith, r₁, r₂.others t, r₃);
              overflow_checks = r₃.overflow_checks ∙ r₂.overflow_checks ∙ r₁.overflow_checks;
            },
          )
      | inr ((e, fs), computed) ↦
          let (w', served, cells, world, rest) =
            serve-Computes F c self w pos atm box fs e lawful is
              (service.length-forces (length atm) pos atm box e fs sized computed)
              (omega (arith, sized.pos_size))
              λ v at i ready.
                service.computes v at i (length atm) pos atm box e fs ready sized computed in
          (
            w',
            rw computed served,
            cells,
            world,
            record {
              thread = rest.thread;
              others = λ t ne. ground (arith, rest);
              overflow_checks = rest.overflow_checks;
            },
          )
    ]
