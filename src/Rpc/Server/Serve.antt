-- ===== src/Rpc/Server/Serve.antt =====
-- A call with a callback that works, from the request to the answer.
use rgpot.Prelude.{
  ◌*◌, ◌∙◌, ◌%◌, ℕ, ◌+◌, ◌^◌, ◌<◌, ◌≡◌, ◌≢◌, refl, none, some, List, arith, length, Result, good,
}
use rgpot.Prelude.Words.{Word, Half, Double}
use rgpot.Layout.{Ptr, null, ForceInput, ForceOut, force_input, force_out, f64s, i32s, Cell}
use rgpot.Memory.{World, ok, IsWorld, SameRest, load, dealloc, put, with_block}
use rgpot.Memory.Slices.{with_block-IsWorld}
use rgpot.Foreign.{Foreign}
use rgpot.Status.{Status, success}
use rgpot.Tensor.Blocks.{Grown, Grown-IsWorld}
use rgpot.CApi.Types.{create_tensors, empty_out}
use rgpot.CApi.Types.Input.{IsInput, IsInput-frame, create_tensors-IsInput}
use rgpot.Rpc.Wire.{ListBuilder, IsListBuilder, ResultMessage}
use rgpot.Rpc.Wire.Lists.{write_list-contents}
use rgpot.Rpc.Server.{Text, PotentialServer, dispatch, respond, release, serve}
use rgpot.Rpc.Server.Contract.{Computes, filled, Places, IsReady, IsSized, IsPotential}
use rgpot.Rpc.Server.Dispatch.{Dispatched, dispatch-Computes}

pub respond-success :
    (F : ListBuilder Double) (lawful : IsListBuilder F) (out : ForceOut) (fs : List Double)
    (w : World)
    → length fs < 2 ^ 29
    → respond F success out fs w ≡ ok (good (record { energy = out.energy; forces = fs })) w
unfolding respond
respond-success F lawful out fs w small =
    let (b, done, now) =
      write_list-contents F lawful w fs (length fs % 2 ^ 32) (omega arith) (omega arith) in
    rw (done, now) refl

release-some :
    (pos atm box input output : Ptr) (w : World) {c₁ c₂ c₃ c₄ c₅ : Cell}
    → pos ≢ null
    → pos < atm
    → atm < box
    → box < input
    → input < output
    → w.cell pos ≡ some c₁
    → w.cell atm ≡ some c₂
    → w.cell box ≡ some c₃
    → w.cell input ≡ some c₄
    → w.cell output ≡ some c₅
    → release pos atm box input output w
      ≡ ok tt (put pos none (put atm none (put box none (put input none (put output none w)))))
unfolding release dealloc load
release-some pos atm box input output w p₀ p₁ p₂ p₃ p₄ e₁ e₂ e₃ e₄ e₅ = ground arith

-- The memory in which the callback is called, and where things lie in it.
module _ (w : World) (is : IsWorld w) (pos : List Double) (atm : List Half)
    (box : List Double) where
  abbrev pub loaded : World
  loaded = with_block (f64s box) (with_block (i32s atm) (with_block (f64s pos) w))

  pub loaded-IsWorld : IsWorld loaded
  loaded-IsWorld = with_block-IsWorld _ (with_block-IsWorld _ (with_block-IsWorld _ is))

  abbrev pub handed : ForceInput → World → World
  handed i v = with_block (force_out empty_out) (with_block (force_input i) v)

  abbrev pub places : World → Places
  places v = record {
    input = v.next;
    output = v.next + 1;
    tensors = loaded.next;
    pos = w.next;
    atm = w.next + 1;
    box = w.next + 1 + 1;
  }

  module _ (v : World) (i : ForceInput) (n : Word) (g : Grown 12 loaded v)
      (t : IsInput v.cell loaded.next n w.next (w.next + 1) (w.next + 1 + 1) i) where
    pub handed-IsReady : IsReady (handed i v) (places v) i empty_out n pos atm box
    handed-IsReady = record {
      world = with_block-IsWorld _ (with_block-IsWorld _ (Grown-IsWorld loaded-IsWorld g));
      input_live = omega (arith, g.next);
      output_live = omega (arith, g.next);
      apart = omega arith;
      input_block = ground arith;
      output_block = ground arith;
      output_behind = ground (arith, g.next);
      input = IsInput-frame {g = (handed i v).cell} t λ q h. ground (arith, g.next);
      pos_live = omega (arith, is.positive);
      atm_live = omega arith;
      box_live = omega arith;
      pos_block = ground (arith, g.next, g.cells w.next);
      atm_block = ground (arith, g.next, g.cells (w.next + 1));
      box_block = ground (arith, g.next, g.cells (w.next + 1 + 1));
    }

    -- Everything that the call took is given back.
    module _ {out : ForceOut} {v₁ v' : World}
        (d : Dispatched (handed i v) v₁ v' (places v) out) where
      abbrev pub returned : World
      returned = put w.next none (
          put (w.next + 1) none
            (put (w.next + 1 + 1) none (put v.next none (put (v.next + 1) none v'))))

      pub release-handed :
          release w.next (w.next + 1) (w.next + 1 + 1) v.next (v.next + 1) v' ≡ ok tt returned
      release-handed =
          let pos_block : v'.cell w.next ≡ some (f64s pos) =
            ground (arith, d.cells w.next, g.next, g.cells w.next) in
          let atm_block : v'.cell (w.next + 1) ≡ some (i32s atm) =
            ground (arith, d.cells (w.next + 1), g.next, g.cells (w.next + 1)) in
          let box_block : v'.cell (w.next + 1 + 1) ≡ some (f64s box) =
            ground (arith, d.cells (w.next + 1 + 1), g.next, g.cells (w.next + 1 + 1)) in
          let input_block : v'.cell v.next ≡ some (force_input i) =
            ground (arith, d.cells v.next, g.next) in
          release-some w.next (w.next + 1) (w.next + 1 + 1) v.next (v.next + 1) v'
            (omega (arith, is.positive)) (omega arith) (omega arith) (omega (arith, g.next))
            (omega arith) pos_block atm_block box_block input_block d.output_block

      pub returned-cells : (q : Ptr) → returned.cell q ≡ w.cell q
      returned-cells q = ground (arith, d.cells q, g.cells q, g.next, is.fresh q)

      -- Its address counter has only moved on.
      pub returned-IsWorld : IsWorld returned
      returned-IsWorld = record {
        positive = omega (arith, is.positive, g.next, d.grows);
        fresh = λ q h. returned-cells q ∙ is.fresh q (omega (arith, g.next, d.grows));
        null_unused = returned-cells 0 ∙ is.null_unused;
      }

pub serve-ok :
    (F : ListBuilder Double) (c : Foreign) (self : PotentialServer) (pos : List Double)
    (atm : List Half) (box : List Double) (w v v' v'' : World) (i : ForceInput) (s : Status)
    (out : ForceOut) (fs : List Double) (answer : Result ResultMessage Text)
    → create_tensors
        (length atm)
        w.next
        (w.next + 1)
        (w.next + 1 + 1)
        (with_block (f64s box) (with_block (i32s atm) (with_block (f64s pos) w)))
      ≡ ok i v
    → dispatch c self i v.next
        (v.next + 1)
        (length atm)
        (with_block (force_out empty_out) (with_block (force_input i) v))
      ≡ ok (s, out, fs) v'
    → respond F s out fs v' ≡ ok answer v'
    → release w.next (w.next + 1) (w.next + 1 + 1) v.next (v.next + 1) v' ≡ ok tt v''
    → serve F c self pos atm box w ≡ ok answer v''
unfolding serve
serve-ok F c self pos atm box w v v' v'' i s out fs answer made sent said freed =
    rw (made, sent, said, freed) refl

-- A call whose callback returns RGPOT_SUCCESS with the energy `e` and `n * 3` forces.
pub serve-Computes :
    (F : ListBuilder Double) (c : Foreign) (self : PotentialServer) (w : World) (pos : List Double)
    (atm : List Half) (box fs : List Double) (e : Double)
    → IsListBuilder F
    → IsWorld w
    → length fs ≡ length atm * 3
    → length atm * 3 < 2 ^ 29
    → ((v : World) (at : Places) (i : ForceInput)
        → IsReady v at i empty_out (length atm) pos atm box
        → (v₁ : World) × (t : Ptr) × (x : Double) × (c.callback self.callback self.user_data
              at.input at.output v
            ≡ ok success v₁)
          × Computes v v₁ at.output t (length atm) fs e x)
    → (w' : World) × (serve F c self pos atm box w
        ≡ ok (good (record { energy = e; forces = fs })) w')
      × ((q : Ptr) → w'.cell q ≡ w.cell q)
      × IsWorld w'
      × SameRest w w'
serve-Computes F c self w pos atm box fs e lawful is size small fills =
    let n : ℕ = length atm in
    let (i, v, made, t, g) =
      create_tensors-IsInput n w.next (w.next + 1) (w.next + 1 + 1)
        (loaded-IsWorld w is pos atm box) in
    let ready = handed-IsReady w is pos atm box v i n g t in
    let at : Places = places w is pos atm box v in
    let (v₁, p, x, called, k) = fills (handed w is pos atm box i v) at i ready in
    let (v', sent, d) =
      dispatch-Computes (handed w is pos atm box i v) at ready c self called k size (omega arith) in
    (
      returned w is pos atm box v i n g t d,
      serve-ok F c self pos atm box w v v' _ i success (filled p e x) fs _ made sent
          (respond-success F lawful (filled p e x) fs v' (omega arith))
          (release-handed w is pos atm box v i n g t d),
      returned-cells w is pos atm box v i n g t d,
      returned-IsWorld w is pos atm box v i n g t d,
      ground (arith, k.rest, d.rest, g.rest),
    )

-- A request of the promised sizes, with fewer than 2 ^ 29 numbers in `pos`, is answered with the
-- energy and the forces that the callback computes from its three lists. Afterwards every block of
-- the server is as before: the forces tensor, the three input tensors, the buffers and the structs
-- are all given back, and the allocator can go on.
pub serve-computes :
    (F : ListBuilder Double) (c : Foreign) (self : PotentialServer)
    (energy : List Double → List Half → List Double → Double)
    (forces : List Double → List Half → List Double → List Double) (w : World) (pos : List Double)
    (atm : List Half) (box : List Double)
    → IsListBuilder F
    → IsPotential c self.callback self.user_data energy forces
    → IsWorld w
    → IsSized (length atm) pos atm box
    → length pos < 2 ^ 29
    → (w' : World) × (serve F c self pos atm box w
        ≡ ok (good (record { energy = energy pos atm box; forces = forces pos atm box })) w')
      × ((q : Ptr) → w'.cell q ≡ w.cell q)
      × IsWorld w'
      × SameRest w w'
serve-computes F c self energy forces w pos atm box lawful potential is sized small =
    serve-Computes F c self w pos atm box (forces pos atm box) (energy pos atm box) lawful is
      (potential.length-forces (length atm) pos atm box sized) (omega (arith, sized.pos_size))
      λ v at i ready. potential.computes v at i empty_out (length atm) pos atm box ready sized
