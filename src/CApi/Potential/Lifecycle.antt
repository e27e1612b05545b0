-- ===== src/CApi/Potential/Lifecycle.antt =====
-- A handle from `rgpot_potential_new` to `rgpot_potential_free`, and refused calls.
use rgpot.Prelude.{
  Bool-cases, sym, ℕ, ◌≡◌, ◌≢◌, refl, ap, ◌∙◌, ◌⊎◌, inl, inr, Option, none, some, arith,
  if◌then◌else◌,
}
use rgpot.Prelude.Text.{Text, codes}
use rgpot.Layout.{Ptr, FnPtr, null, is_null, PotentialImpl, potential}
use rgpot.Memory.{World, ok, ◌>>=◌, ◌>>◌, pure, load, dealloc, put, with_block, IsWorld}
use rgpot.Status.{
  Status, invalid_parameter, catch_unwind, set_last_error, with_error, error_c_string,
}
use rgpot.Status.LastError.{error_text, error_text-with_error}
use rgpot.Foreign.{Foreign}
use rgpot.Potential.{new, calculate, drop}
use rgpot.CApi.Potential.{rgpot_potential_new, rgpot_potential_calculate, rgpot_potential_free}

-- The message for the first pointer that is NULL.
abbrev pub null_message : Ptr → Ptr → Text
null_message pot input =
    if is_null pot
    then codes "rgpot_potential_calculate: pot is NULL"
    else if is_null input
    then codes "rgpot_potential_calculate: input is NULL"
    else codes "rgpot_potential_calculate: output is NULL"

-- A call with a NULL among its three pointers calls no callback: it returns
-- RGPOT_INVALID_PARAMETER, the thread's last error names the first NULL, and the memory and the
-- other threads' messages stay.
pub rgpot_potential_calculate-null :
    (c : Foreign) (w : World) (pot input output : Ptr)
    → (pot ≡ null) ⊎ (input ≡ null) ⊎ (output ≡ null)
    → (w' : World) × (rgpot_potential_calculate c pot input output w ≡ ok invalid_parameter w')
      × (error_text w' ≡ null_message pot input)
      × ((t : ℕ) → t ≢ w.thread → w'.last_error t ≡ w.last_error t)
      × (record w' { last_error = w.last_error } ≡ w)
unfolding rgpot_potential_calculate catch_unwind set_last_error
rgpot_potential_calculate-null c w pot input output h = (
  with_error (error_c_string (null_message pot input)) w,
  ground arith,
  error_text-with_error (null_message pot input) w ∙ ground arith,
  λ t ne. ground arith,
  refl,
)

-- What releasing the user data does: the destructor runs if there is one and the data are not NULL.
abbrev pub Released : Foreign → Option FnPtr → Ptr → World → World → Type 0
Released c none user_data w w' = w' ≡ w
Released c (some free) user_data w w' =
    if is_null user_data then w' ≡ w else c.free_fn free user_data w ≡ ok tt w'

drop-Released :
    (c : Foreign) (callback : FnPtr) (user_data : Ptr) (free_fn : Option FnPtr) (w w' : World)
    → Released c free_fn user_data w w'
    → drop c (new callback user_data free_fn) w ≡ ok tt w'
unfolding drop
drop-Released c callback user_data none w w' h = ap (ok tt) (sym h)
drop-Released c callback user_data (some free) w w' h = elim (Bool-cases (is_null user_data)) [
  | inl e ↦ rw e (ap (ok tt) (sym (rw e at h)))
  | inr e ↦ rw e (rw e at h)
]

module _ (c : Foreign) (p : PotentialImpl) (pot : Ptr) (live : pot ≢ null) where
  pub rgpot_potential_calculate-live :
      (input output : Ptr) (w w' : World) (s : Status)
      → input ≢ null
      → output ≢ null
      → w.cell pot ≡ some (potential p)
      → calculate c p input output w ≡ ok s w'
      → rgpot_potential_calculate c pot input output w ≡ ok s w'
  unfolding rgpot_potential_calculate catch_unwind load
  rgpot_potential_calculate-live input output w w' s l l' e h = ground arith

  pub rgpot_potential_free-live :
      (w w' : World)
      → w.cell pot ≡ some (potential p)
      → drop c p w ≡ ok tt w'
      → w'.cell pot ≡ some (potential p)
      → rgpot_potential_free c pot w ≡ ok tt (put pot none w')
  unfolding rgpot_potential_free load dealloc
  rgpot_potential_free-live w w' e h e' = ground arith

-- A handle is made, used once and freed. The callback is called with the registered user data and
-- its status is returned as it is; the destructor then runs exactly where `Released` says, once and
-- before the handle's block is given back. The callback and the destructor leave that block alone.
pub rgpot_potential_free-calculate-new :
    (c : Foreign) (w : World) (callback : FnPtr) (user_data input output : Ptr)
    (free_fn : Option FnPtr) (s : Status) (w₁ w₂ : World)
    → IsWorld w
    → input ≢ null
    → output ≢ null
    → let handle = potential (new callback user_data free_fn) in
      c.callback callback user_data input output (with_block handle w) ≡ ok s w₁
      → w₁.cell w.next ≡ some handle
      → Released c free_fn user_data w₁ w₂
      → w₂.cell w.next ≡ some handle
      → (do
        pot ← rgpot_potential_new callback user_data free_fn
        status ← rgpot_potential_calculate c pot input output
        rgpot_potential_free c pot
        pure status)
          w
        ≡ ok s (put w.next none w₂)
unfolding rgpot_potential_new calculate
rgpot_potential_free-calculate-new c w callback user_data input output free_fn s w₁ w₂ is live live'
      called kept released kept' =
    let p : PotentialImpl = new callback user_data free_fn in
    let pot_live : w.next ≢ null = omega (arith, is.positive) in
    let w₀ : World = with_block (potential p) w in
    let found : w₀.cell w.next ≡ some (potential p) = ground arith in
    let used =
      rgpot_potential_calculate-live c p w.next pot_live input output w₀ w₁ s live live' found
        called in
    let freed =
      rgpot_potential_free-live c p w.next pot_live w₁ w₂ kept
        (drop-Released c callback user_data free_fn w₁ w₂ released) kept' in
    rw (used, freed) refl
