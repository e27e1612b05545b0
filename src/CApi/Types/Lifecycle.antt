-- ===== src/CApi/Types/Lifecycle.antt =====
-- An input is made, read, validated and released.
use rgpot.Prelude.{
  false, ◌+◌, ◌≡◌, ◌≢◌, refl, ap, ◌∙◌, Option, some, List, [], ◌∷◌, arith, ◌==◌, if◌then◌else◌,
}
use rgpot.Prelude.Words.{Word}
use rgpot.Layout.{Cell, Ptr, null, ForceInput, force_input}
use rgpot.Memory.{
  i64_slice, World, ok, ◌>>=◌, ◌>>◌, pure, load, store, put, IsWorld, SameRest, extern_c_run,
}
use rgpot.Foreign.{Foreign}
use rgpot.Types.{n_atoms}
use rgpot.Tensor.{dtype_f64, rgpot_tensor_free}
use rgpot.Tensor.Blocks.{within, IsBorrowed, Freed, lt-next, Grown-below}
use rgpot.CApi.Types.{rgpot_force_input_create, rgpot_force_input_free, free_tensors, null_input}
use rgpot.CApi.Types.Input.{
  IsInput, IsInput-frame, rgpot_force_input_create-IsInput, free_tensors-IsInput,
}

n_atoms-IsBorrowed :
    (w : World) {b p : Ptr} {n : Word} {strides : List Word} (i : ForceInput)
    → IsBorrowed w.cell b p dtype_f64 (n ∷ 3 ∷ []) strides
    → i.positions ≡ b + 1 + 1 + 1
    → n_atoms i w ≡ ok (some n) w
unfolding n_atoms load i64_slice
n_atoms-IsBorrowed w i t at = ground arith

pub n_atoms-IsInput :
    (w : World) {b : Ptr} {n : Word} {pos atm box : Ptr} (i : ForceInput)
    → IsInput w.cell b n pos atm box i
    → n_atoms i w ≡ ok (some n) w
n_atoms-IsInput w i t = n_atoms-IsBorrowed w i t.positions t.at_positions

pub free_loaded :
    (c : Foreign) (p : Ptr) (i : ForceInput) (w w' : World)
    → p ≢ null
    → w.cell p ≡ some (force_input i)
    → free_tensors c i w ≡ ok tt w'
    → rgpot_force_input_free c p w ≡ extern_c_run (store p (force_input null_input) w')
unfolding rgpot_force_input_free load
free_loaded c p i w w' live e h = ground arith

pub store-some :
    (p : Ptr) (x : Cell) (w : World) {c : Cell}
    → p ≢ null
    → w.cell p ≡ some c
    → store p x w ≡ ok tt (put p (some x) w)
unfolding store load
store-some p x w live e = ground arith

free_tensors-null : (c : Foreign) (w : World) → free_tensors c null_input w ≡ ok tt w
unfolding free_tensors rgpot_tensor_free
free_tensors-null c w = refl

put_self : (p : Ptr) (w : World) {x : Option Cell} → (put p x w).cell p ≡ x
put_self p w = ground arith

-- The blocks of the input go, and its struct is reset.
pub rgpot_force_input_free-IsInput :
    (c : Foreign) (ip : Ptr) (w : World) {b : Ptr} {n : Word} {pos atm box : Ptr} {i : ForceInput}
    → ip ≢ null
    → within b 12 ip ≡ false
    → w.cell ip ≡ some (force_input i)
    → IsInput w.cell b n pos atm box i
    → (w' : World) × (rgpot_force_input_free c ip w
        ≡ ok tt (put ip (some (force_input null_input)) w'))
      × Freed b 12 w w'
rgpot_force_input_free-IsInput c ip w {i} live apart e t =
    let (w', h, f) = free_tensors-IsInput c {w = w} t in
    let kept : w'.cell ip ≡ some (force_input i) = ground (arith, f.cells ip) in
    (w', free_loaded c ip i w w' live e h ∙ ap extern_c_run (store-some ip _ w' live kept), f)

rgpot_force_input_free-null_input :
    (c : Foreign) (ip : Ptr) (w : World)
    → ip ≢ null
    → w.cell ip ≡ some (force_input null_input)
    → rgpot_force_input_free c ip w ≡ ok tt (put ip (some (force_input null_input)) w)
rgpot_force_input_free-null_input c ip w live e =
    free_loaded c ip null_input w w live e (free_tensors-null c w)
    ∙ ap extern_c_run (store-some ip _ w live e)

-- An input built from `n` and three buffers and kept in a struct at `ip` reports `n` atoms. Freeing
-- it twice is safe: afterwards every block is as before, but for the struct, whose pointers are
-- NULL; no error message changes.
pub rgpot_force_input_free-create :
    (c : Foreign) (w : World) (n : Word) (pos atm box ip : Ptr) (old : ForceInput)
    → IsWorld w
    → ip ≢ null
    → w.cell ip ≡ some (force_input old)
    → (w' : World) × ((do
      i ← rgpot_force_input_create n pos atm box
      store ip (force_input i)
      k ← n_atoms i
      rgpot_force_input_free c ip
      rgpot_force_input_free c ip
      pure k)
          w
        ≡ ok (some n) w')
      × ((q : Ptr) → w'.cell q ≡ (if q == ip then some (force_input null_input) else w.cell q))
      × SameRest w w'
rgpot_force_input_free-create c w n pos atm box ip old is live e =
    let older = lt-next ip is e in
    let (i, w₁, made, t, g) = rgpot_force_input_create-IsInput n pos atm box is in
    let stored = store-some ip (force_input i) w₁ live (Grown-below ip g older ∙ e) in
    let w₂ : World = put ip (some (force_input i)) w₁ in
    let t₂ = IsInput-frame {g = w₂.cell} t λ q h. ground arith in
    let (w₃, freed, f) =
      rgpot_force_input_free-IsInput c ip w₂ live (ground arith) (put_self ip w₁) t₂ in
    let w₄ : World = put ip (some (force_input null_input)) w₃ in
    let again = rgpot_force_input_free-null_input c ip w₄ live (put_self ip w₃) in
    (
      put ip (some (force_input null_input)) w₄,
      rw (made, stored, n_atoms-IsInput w₂ i t₂, freed, again) refl,
      λ q. ground (arith, f.cells q, g.cells q, is.fresh q),
      ground (arith, f.rest, g.rest),
    )
