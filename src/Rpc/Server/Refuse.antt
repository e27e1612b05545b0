-- ===== src/Rpc/Server/Refuse.antt =====
-- Calls whose callback fails, and requests whose lists do not fit together.
use rgpot.Prelude.{
  Result, ◌≤◌, ◌+◌, ◌≡◌, ◌≢◌, refl, ap, ◌∙◌, false, none, some, List, [], arith, length,
  if◌then◌else◌, bad,
}
use rgpot.Prelude.Words.{Word, Half, Double}
use rgpot.Layout.{Ptr, null, ForceInput, ForceOut, force_out}
use rgpot.Memory.{World, IsWorld, SameRest, ok}
use rgpot.Foreign.{Foreign}
use rgpot.Status.{Status}
use rgpot.Tensor.{rgpot_tensor_free}
use rgpot.Tensor.Blocks.{within}
use rgpot.CApi.Types.{empty_out}
use rgpot.CApi.Types.Input.{IsInput-frame, free_tensors-IsInput, create_tensors-IsInput}
use rgpot.Rpc.Wire.{ListBuilder}
use rgpot.Rpc.Server.{
  Text, ResultMessage, PotentialServer, read_forces, dispatch, respond, serve, is_success,
  callback_error,
}
use rgpot.Rpc.Server.Contract.{Places, IsReady}
use rgpot.Rpc.Server.Dispatch.{Dispatched, dispatch-ok, not_output}
use rgpot.Rpc.Server.Serve.{
  returned-IsWorld, loaded-IsWorld, handed, places, handed-IsReady, returned, release-handed,
  returned-cells, serve-ok,
}

-- `v'` is `v` but for the scalars of the output: the callback left no forces tensor.
pub record NoForces (v v' : World) (output : Ptr) (e x : Double) : Type 0 where
  pub output_block :
      v'.cell output ≡ some (force_out (record { forces = null; energy = e; variance = x }))
  pub others : (q : Ptr) → q ≢ output → v'.cell q ≡ v.cell q
  pub grows : v.next ≤ v'.next

-- The callback refuses every ready call of `n` atoms with a status that is not RGPOT_SUCCESS.
pub record IsRefusing (c : Foreign) (self : PotentialServer) : Type 0 where
  pub refuses :
      (v : World) (at : Places) (i : ForceInput) (o : ForceOut) (n : Word) (pos : List Double)
      (atm : List Half) (box : List Double)
      → IsReady v at i o n pos atm box
      → (v' : World) × (s : Status) × (e : Double) × (x : Double) × (c.callback self.callback
            self.user_data at.input at.output v
          ≡ ok s v')
        × (is_success s ≡ false)
        × NoForces v v' at.output e x
        × SameRest v v'

read_forces-null :
    (n : Word) (e x : Double) (w : World)
    → read_forces (record { forces = null; energy = e; variance = x }) n w ≡ ok [] w
unfolding read_forces
read_forces-null n e x w = refl

rgpot_tensor_free-null : (c : Foreign) (w : World) → rgpot_tensor_free c null w ≡ ok tt w
unfolding rgpot_tensor_free
rgpot_tensor_free-null c w = refl

pub dispatch-NoForces :
    (c : Foreign) (self : PotentialServer) (v v₁ : World) (at : Places) {i : ForceInput}
    {o : ForceOut} {n : Word} {pos : List Double} {atm : List Half} {box : List Double} (s : Status)
    (e x : Double)
    → IsReady v at i o n pos atm box
    → c.callback self.callback self.user_data at.input at.output v ≡ ok s v₁
    → NoForces v v₁ at.output e x
    → (v' : World) × (dispatch c self i at.input at.output n v
        ≡ ok (s, record { forces = null; energy = e; variance = x }, []) v')
      × Dispatched v v₁ v' at (record { forces = null; energy = e; variance = x })
dispatch-NoForces c self v v₁ at {i} {n} s e x ready called k =
    let out : ForceOut = record { forces = null; energy = e; variance = x } in
    let input =
      IsInput-frame {g = v₁.cell} ready.input λ q h. k.others q (not_output v at ready q h) in
    let (v₂, freed, f) = free_tensors-IsInput c {w = v₁} input in
    (
      v₂,
      dispatch-ok c self i at.input at.output n s out [] v v₁ v₁ v₂ called ready.output_live
          k.output_block (read_forces-null n e x v₁) (rgpot_tensor_free-null c v₁) freed,
      record {
        cells =
            λ q h. f.cells q ∙ ap (λ y. if within at.tensors 12 q then none else y) (k.others q h);
        output_block = f.cells at.output ∙ rw ready.output_behind k.output_block;
        grows = omega (arith, k.grows, f.next);
        rest = f.rest;
      },
    )

pub respond-refused :
    (F : ListBuilder Double) (s : Status) (out : ForceOut) (fs : List Double) (w : World)
    → is_success s ≡ false
    → respond F s out fs w ≡ ok (bad callback_error) w
unfolding respond
respond-refused F s out fs w h = rw h refl

-- What a callback that leaves no forces has done to `v`, and the answer that its status gets. `Rest`
-- says what it did besides.
pub record LeavesNone (F : ListBuilder Double) (c : Foreign) (self : PotentialServer)
    (input output : Ptr) (answer : Result ResultMessage Text) (Rest : World → World → Type 0)
    (v : World) : Type 0 where
  pub after : World
  pub status : Status
  pub energy : Double
  pub variance : Double
  pub called : c.callback self.callback self.user_data input output v ≡ ok status after
  pub left : NoForces v after output energy variance
  pub besides : Rest v after
  pub said :
      (u : World)
      → respond F status (record { forces = null; energy = energy; variance = variance }) [] u
        ≡ ok answer u

-- The call of such a callback, whatever the lengths of the request's lists.
pub serve-LeavesNone :
    (F : ListBuilder Double) (c : Foreign) (self : PotentialServer) (w : World) (pos : List Double)
    (atm : List Half) (box : List Double) (answer : Result ResultMessage Text)
    (Rest : World → World → Type 0)
    → IsWorld w
    → ((v : World) (at : Places) (i : ForceInput)
        → IsReady v at i empty_out (length atm) pos atm box
        → LeavesNone F c self at.input at.output answer Rest v)
    → (v : World) × (v₁ : World) × (w' : World) × (serve F c self pos atm box w ≡ ok answer w')
      × ((q : Ptr) → w'.cell q ≡ w.cell q)
      × IsWorld w'
      × SameRest w v
      × Rest v v₁
      × SameRest v₁ w'
serve-LeavesNone F c self w pos atm box answer Rest is leaves =
    let (i, v, made, t, g) =
      create_tensors-IsInput (length atm) w.next (w.next + 1) (w.next + 1 + 1)
        (loaded-IsWorld w is pos atm box) in
    let ready = handed-IsReady w is pos atm box v i (length atm) g t in
    let at : Places = places w is pos atm box v in
    let v₀ : World = handed w is pos atm box i v in
    let k = leaves v₀ at i ready in
    let (v', sent, d) =
      dispatch-NoForces c self v₀ k.after at k.status k.energy k.variance ready k.called k.left in
    (
      v₀,
      k.after,
      returned w is pos atm box v i (length atm) g t d,
      serve-ok F c self pos atm box w v v' _ i k.status _ [] answer made sent (k.said v')
          (release-handed w is pos atm box v i (length atm) g t d),
      returned-cells w is pos atm box v i (length atm) g t d,
      returned-IsWorld w is pos atm box v i (length atm) g t d,
      ground (arith, g.rest),
      k.besides,
      ground (arith, d.rest),
    )

-- When the callback refuses, the caller gets the one fixed error, whatever the status and whatever
-- the lengths of the request's lists; every block of the server is as before, and its allocator
-- can go on.
pub serve-refuses :
    (F : ListBuilder Double) (c : Foreign) (self : PotentialServer) (w : World) (pos : List Double)
    (atm : List Half) (box : List Double)
    → IsRefusing c self
    → IsWorld w
    → (w' : World) × (serve F c self pos atm box w ≡ ok (bad callback_error) w')
      × ((q : Ptr) → w'.cell q ≡ w.cell q)
      × IsWorld w'
      × SameRest w w'
serve-refuses F c self w pos atm box refusing is =
    let (v, v₁, w', served, cells, world, r₁, r₂, r₃) =
      serve-LeavesNone F c self w pos atm box (bad callback_error) SameRest is λ v at i ready.
        let (v₁, s, e, x, called, not_ok, k, rest) =
          refusing.refuses v at i empty_out (length atm) pos atm box ready in
        record {
          after = v₁;
          status = s;
          energy = e;
          variance = x;
          called = called;
          left = k;
          besides = rest;
          said = λ u. respond-refused F s _ [] u not_ok;
        } in
    (w', served, cells, world, ground (arith, r₁, r₂, r₃))
