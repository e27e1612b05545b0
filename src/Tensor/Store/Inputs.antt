-- ===== src/Tensor/Store/Inputs.antt =====
-- Making an input and freeing an input keep the memory sound.
use rgpot.Tensor.Blocks.{within}
use rgpot.CApi.Types.{rgpot_force_input_create, null_input, rgpot_force_input_free, create_tensors}
use rgpot.Memory.{extern_c_run, put, ok}
use rgpot.Layout.{force_input, managed, ForceInput}
use rgpot.Foreign.{Foreign}
use rgpot.Tensor.{Word, null, Managed, rgpot_tensor_free}
use rgpot.CApi.Types.Lifecycle.{free_loaded, store-some}
use rgpot.CApi.Types.Input.{free_tensors-ok}
use rgpot.Tensor.Made.{
  rgpot_tensor_cpu_f64_2d-IsBorrowed, rgpot_tensor_cpu_i32_1d-IsBorrowed,
  rgpot_tensor_cpu_f64_matrix3-IsBorrowed,
}
use rgpot.Prelude.{[], ◌∷◌, List, ◌+◌, ap, inr, inl, Bool-cases, refl, ◌≡◌, ◌≢◌, ◌∙◌, some, arith}
use rgpot.Tensor.Store.{Ptr, World, IsSound}
use rgpot.Tensor.Store.Extent.{extent, extents-apart, base_of, size_of}
use rgpot.Tensor.Store.Table.{run_one, Op, create, release, matrix, vector}
use rgpot.Tensor.Store.View.{view}
use rgpot.Tensor.Store.Changes.{apply-release_null}
use rgpot.Tensor.Store.Tidy.{same}
use rgpot.Tensor.Store.Refined.{Refined, Refined-then, Freed-Refined, overwritten}
use rgpot.Tensor.Store.Added.{borrow-Refined}
use rgpot.Tensor.Store.Kept.{rgpot_tensor_free-IsTensor}

-- A pointer of an input: NULL or a live handle.
pub data Releasable (w : World) (t : Ptr) : Type 0 where
  nothing : t ≡ null → Releasable w t
  live : (m : Managed) → w.cell t ≡ some (managed m) → Releasable w t

-- Two pointers that do not release the same tensor.
abbrev pub Apart : Ptr → Ptr → Type 0
Apart t u = t ≡ u → t ≡ null

-- An input whose pointers are NULL or live handles of different tensors.
pub record Freeable (w : World) (i : ForceInput) : Type 0 where
  pub positions : Releasable w i.positions
  pub atomic_numbers : Releasable w i.atomic_numbers
  pub box_matrix : Releasable w i.box_matrix
  pub positions_atomic_numbers : Apart i.positions i.atomic_numbers
  pub positions_box_matrix : Apart i.positions i.box_matrix
  pub atomic_numbers_box_matrix : Apart i.atomic_numbers i.box_matrix

-- One of an input's tensors is released. The others still can be, and structs stay.
pub record Released (w w' : World) (t : Ptr) : Type 0 where
  pub refined : Refined w w' (release t ∷ []) same
  pub others : (u : Ptr) → Apart t u → Releasable w u → Releasable w' u
  pub inputs :
      (p : Ptr) (i : ForceInput)
      → w.cell p ≡ some (force_input i)
      → w'.cell p ≡ some (force_input i)

rgpot_tensor_free-live :
    (c : Foreign) (w : World) (t : Ptr) (m : Managed)
    → IsSound w
    → t ≢ null
    → w.cell t ≡ some (managed m)
    → (w' : World) × (rgpot_tensor_free c t w ≡ ok tt w') × Released w w' t
rgpot_tensor_free-live c w t m s here e =
    let h = s.store t m e in
    let x = extent {f = w.cell} t h in
    let (w', freed, f) = rgpot_tensor_free-IsTensor c w t h in
    let kept : (u : Ptr) (k : Managed)
        → Apart t u
        → w.cell u ≡ some (managed k)
        → w'.cell u ≡ some (managed k) =
      λ u k apart e'.
        let y = extent {f = w.cell} u (s.store u k e') in
        f.cells u
        ∙ rw
            (extents-apart x y (λ same. here (apart same)) u (ground (arith, y.ends, y.some_block)))
            e' in
    (
      w',
      freed,
      record {
        refined = Freed-Refined s t h f;
        others =
            λ u apart r. elim r [ nothing z ↦ nothing z | live k e' ↦ live k (kept u k apart e') ];
        inputs = λ p i e'. elim (Bool-cases (within (base_of h) (size_of h) p)) [
          | inl inside ↦ absurd (x.no_struct p (force_input i) refl inside e')
          | inr outside ↦ f.cells p ∙ rw outside e'
        ];
      },
    )

rgpot_tensor_free-null_world : (c : Foreign) (w : World) → rgpot_tensor_free c null w ≡ ok tt w
unfolding rgpot_tensor_free
rgpot_tensor_free-null_world c w = refl

pub rgpot_tensor_free-Releasable :
    (c : Foreign) (w : World) (t : Ptr)
    → IsSound w
    → Releasable w t
    → (w' : World) × (rgpot_tensor_free c t w ≡ ok tt w') × Released w w' t
rgpot_tensor_free-Releasable c w t s (nothing z) = (
  w,
  rw z (rgpot_tensor_free-null_world c w),
  record {
    refined = record {
      sound = s;
      table = rw z (run_one (release null) (view w.cell) (apply-release_null (view w.cell)));
      tidy = λ mine tidy. tidy;
    };
    others = λ u a r. r;
    inputs = λ p i e. e;
  },
)
rgpot_tensor_free-Releasable c w t s (live m e) =
    rgpot_tensor_free-live c w t m s (λ z. absurd (ground (arith, s.world.null_unused))) e

abbrev pub release_input : ForceInput → List Op
release_input i = release i.positions ∷ release i.atomic_numbers ∷ release i.box_matrix ∷ []

-- An input whose pointers are NULL or live, each for a tensor of its own, is freed: its tensors are
-- released.
pub rgpot_force_input_free-Refined :
    (c : Foreign) (w : World) (p : Ptr) (i : ForceInput)
    → IsSound w
    → w.cell p ≡ some (force_input i)
    → Freeable w i
    → (w' : World) × (rgpot_force_input_free c p w ≡ ok tt w') × Refined w w' (release_input i) same
rgpot_force_input_free-Refined c w p i s e r =
    let here : p ≢ null = λ z. absurd (ground (arith, s.world.null_unused)) in
    let (w₁, f₁, k₁) = rgpot_tensor_free-Releasable c w i.positions s r.positions in
    let (w₂, f₂, k₂) =
      rgpot_tensor_free-Releasable c w₁ i.atomic_numbers k₁.refined.sound
        (k₁.others i.atomic_numbers r.positions_atomic_numbers r.atomic_numbers) in
    let (w₃, f₃, k₃) = rgpot_tensor_free-Releasable c w₂ i.box_matrix k₂.refined.sound (
      k₂.others i.box_matrix r.atomic_numbers_box_matrix
        (k₁.others i.box_matrix r.positions_box_matrix r.box_matrix)) in
    let kept : w₃.cell p ≡ some (force_input i) = k₃.inputs p i (k₂.inputs p i (k₁.inputs p i e)) in
    (
      put p (some (force_input null_input)) w₃,
      free_loaded c p i w w₃ here e (free_tensors-ok c i w w₁ w₂ w₃ f₁ f₂ f₃)
          ∙ ap extern_c_run (store-some p _ w₃ here kept),
      Refined-then (release_input i) []
          (Refined-then (release i.positions ∷ []) _ k₁.refined
            (Refined-then (release i.atomic_numbers ∷ []) _ k₂.refined k₃.refined))
          (overwritten k₃.refined.sound p (force_input i) (force_input null_input) refl refl kept
            refl),
    )

-- An input is made of three tensors over the caller's buffers.
abbrev pub create_input_tensors : Word → Ptr → Ptr → Ptr → ForceInput → List Op
create_input_tensors n pos atm box i =
    create i.positions (matrix pos n 3)
    ∷ create i.atomic_numbers (vector atm n)
    ∷ create i.box_matrix (matrix box 3 3)
    ∷ []

pub rgpot_force_input_create-Refined :
    (w : World) (n : Word) (pos atm box : Ptr)
    → IsSound w
    → (i : ForceInput) × (w' : World) × (rgpot_force_input_create n pos atm box w ≡ ok i w')
      × Refined w w' (create_input_tensors n pos atm box i) same
unfolding rgpot_force_input_create create_tensors
rgpot_force_input_create-Refined w n pos atm box s =
    let (w₁, e₁, t₁, g₁) = rgpot_tensor_cpu_f64_2d-IsBorrowed s.world pos n 3 (omega arith) in
    let r₁ = borrow-Refined s e₁ e₁ t₁ g₁ in
    let (w₂, e₂, t₂, g₂) = rgpot_tensor_cpu_i32_1d-IsBorrowed r₁.sound.world atm n in
    let r₂ = borrow-Refined r₁.sound e₂ e₂ t₂ g₂ in
    let (w₃, e₃, t₃, g₃) = rgpot_tensor_cpu_f64_matrix3-IsBorrowed r₂.sound.world box in
    let r₃ = borrow-Refined r₂.sound e₃ e₃ t₃ g₃ in
    let i : ForceInput = record {
      positions = w.next + 1 + 1 + 1;
      atomic_numbers = w₁.next + 1 + 1 + 1;
      box_matrix = w₂.next + 1 + 1 + 1;
    } in
    (
      i,
      w₃,
      rw (e₁, e₂, e₃) refl,
      Refined-then (create i.positions (matrix pos n 3) ∷ []) _ r₁
          (Refined-then (create i.atomic_numbers (vector atm n) ∷ []) _ r₂ r₃),
    )
