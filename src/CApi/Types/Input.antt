-- ===== src/CApi/Types/Input.antt =====
-- The three tensors of an input, from creation to release.
use rgpot.Prelude.{sym, subst, ◌+◌, ◌≡◌, refl, ap, [], ◌∷◌, arith, true}
use rgpot.Prelude.Words.{Word}
use rgpot.Layout.{Ptr, ForceInput}
use rgpot.Memory.{World, ok, IsWorld, extern_c_run}
use rgpot.Foreign.{Foreign}
use rgpot.Tensor.{dtype_f64, dtype_i32, rgpot_tensor_free}
use rgpot.Tensor.Blocks.{
  Freed-trans, Freed-behind, Cells, IsBorrowed, IsBorrowed-frame, Grown, Grown-IsWorld, Freed,
  within,
}
use rgpot.Tensor.Made.{
  rgpot_tensor_cpu_f64_2d-IsBorrowed, rgpot_tensor_cpu_i32_1d-IsBorrowed,
  rgpot_tensor_cpu_f64_matrix3-IsBorrowed,
}
use rgpot.Tensor.Free.{rgpot_tensor_free-IsBorrowed}
use rgpot.CApi.Types.{create_tensors, rgpot_force_input_create, free_tensors}

-- An input of `n` atoms over three buffers, in the twelve blocks from `b` on.
pub record IsInput (f : Cells) (b : Ptr) (n : Word) (pos atm box : Ptr) (i : ForceInput)
    : Type 0 where
  pub positions : IsBorrowed f b pos dtype_f64 (n ∷ 3 ∷ []) (3 ∷ 1 ∷ [])
  pub atomic_numbers : IsBorrowed f (b + 4) atm dtype_i32 (n ∷ []) (1 ∷ [])
  pub box_matrix : IsBorrowed f (b + 8) box dtype_f64 (3 ∷ 3 ∷ []) (3 ∷ 1 ∷ [])
  pub at_positions : i.positions ≡ b + 1 + 1 + 1
  pub at_atomic_numbers : i.atomic_numbers ≡ b + 4 + 1 + 1 + 1
  pub at_box_matrix : i.box_matrix ≡ b + 8 + 1 + 1 + 1

pub IsInput-frame :
    {f g : Cells} {b : Ptr} {n : Word} {pos atm box : Ptr} {i : ForceInput}
    → IsInput f b n pos atm box i
    → ((q : Ptr) → within b 12 q ≡ true → g q ≡ f q)
    → IsInput g b n pos atm box i
IsInput-frame t same = record {
  positions = IsBorrowed-frame t.positions λ q h. same q (ground arith);
  atomic_numbers = IsBorrowed-frame t.atomic_numbers λ q h. same q (ground arith);
  box_matrix = IsBorrowed-frame t.box_matrix λ q h. same q (ground arith);
  at_positions = t.at_positions;
  at_atomic_numbers = t.at_atomic_numbers;
  at_box_matrix = t.at_box_matrix;
}

pub create_tensors-IsInput :
    {w : World} (n : Word) (pos atm box : Ptr)
    → IsWorld w
    → (i : ForceInput) × (w' : World) × (create_tensors n pos atm box w ≡ ok i w')
      × IsInput w'.cell w.next n pos atm box i
      × Grown 12 w w'
unfolding create_tensors
create_tensors-IsInput {w} n pos atm box is =
    let (w₁, e₁, t₁, g₁) = rgpot_tensor_cpu_f64_2d-IsBorrowed is pos n 3 (omega arith) in
    let (w₂, e₂, t₂, g₂) = rgpot_tensor_cpu_i32_1d-IsBorrowed (Grown-IsWorld is g₁) atm n in
    let is₂ = Grown-IsWorld (Grown-IsWorld is g₁) g₂ in
    let (w₃, e₃, t₃, g₃) = rgpot_tensor_cpu_f64_matrix3-IsBorrowed is₂ box in
    let next₂ : w₂.next ≡ w.next + 8 = omega (arith, g₁.next, g₂.next) in
    (
      record {
        positions = w.next + 1 + 1 + 1;
        atomic_numbers = w₁.next + 1 + 1 + 1;
        box_matrix = w₂.next + 1 + 1 + 1;
      },
      w₃,
      rw (e₁, e₂, e₃) refl,
      record {
        positions =
            IsBorrowed-frame {f = w₁.cell} {g = w₃.cell} t₁
              λ q h. ground (arith, g₁.next, next₂, g₂.cells q, g₃.cells q);
        atomic_numbers =
            IsBorrowed-frame {f = w₂.cell} {g = w₃.cell} (rw g₁.next at t₂)
              λ q h. ground (arith, g₁.next, next₂, g₃.cells q);
        box_matrix = rw next₂ at t₃;
        at_positions = refl;
        at_atomic_numbers = rw g₁.next refl;
        at_box_matrix = rw next₂ refl;
      },
      record {
        next = omega (arith, next₂, g₃.next);
        cells = λ q h. ground (arith, g₁.next, next₂, g₁.cells q, g₂.cells q, g₃.cells q);
        rest = ground (arith, g₁.rest, g₂.rest, g₃.rest);
      },
    )

pub rgpot_force_input_create-IsInput :
    {w : World} (n : Word) (pos atm box : Ptr)
    → IsWorld w
    → (i : ForceInput) × (w' : World) × (rgpot_force_input_create n pos atm box w ≡ ok i w')
      × IsInput w'.cell w.next n pos atm box i
      × Grown 12 w w'
unfolding rgpot_force_input_create
rgpot_force_input_create-IsInput n pos atm box is =
    let (i, w', e, t, g) = create_tensors-IsInput n pos atm box is in
    (i, w', ap extern_c_run e, t, g)

pub free_tensors-ok :
    (c : Foreign) (i : ForceInput) (w w₁ w₂ w₃ : World)
    → rgpot_tensor_free c i.positions w ≡ ok tt w₁
    → rgpot_tensor_free c i.atomic_numbers w₁ ≡ ok tt w₂
    → rgpot_tensor_free c i.box_matrix w₂ ≡ ok tt w₃
    → free_tensors c i w ≡ ok tt w₃
unfolding free_tensors
free_tensors-ok c i w w₁ w₂ w₃ e₁ e₂ e₃ = rw (e₁, e₂) e₃

-- The same command at another spelling of the handle.
moved :
    (c : Foreign) (w w' : World) {p q : Ptr}
    → p ≡ q
    → rgpot_tensor_free c q w ≡ ok tt w'
    → rgpot_tensor_free c p w ≡ ok tt w'
moved c w w' e h = subst (λ p. rgpot_tensor_free c p w ≡ ok tt w') (sym e) h

pub free_tensors-IsInput :
    (c : Foreign) {w : World} {b : Ptr} {n : Word} {pos atm box : Ptr} {i : ForceInput}
    → IsInput w.cell b n pos atm box i
    → (w' : World) × (free_tensors c i w ≡ ok tt w') × Freed b 12 w w'
free_tensors-IsInput c {w} {b} {i} t =
    let (w₁, e₁, f₁) = rgpot_tensor_free-IsBorrowed c {w = w} t.positions in
    let t₂ =
      IsBorrowed-frame {g = w₁.cell} t.atomic_numbers
        λ q. Freed-behind (b + 4) 4 q f₁ (omega arith) in
    let (w₂, e₂, f₂) = rgpot_tensor_free-IsBorrowed c {w = w₁} t₂ in
    let f₁₂ = Freed-trans f₁ f₂ in
    let t₃ =
      IsBorrowed-frame {g = w₂.cell} t.box_matrix λ q. Freed-behind (b + 8) 4 q f₁₂ (omega arith) in
    let (w₃, e₃, f₃) = rgpot_tensor_free-IsBorrowed c {w = w₂} t₃ in
    (
      w₃,
      free_tensors-ok c i w w₁ w₂ w₃ (moved c w w₁ t.at_positions e₁)
          (moved c w₁ w₂ t.at_atomic_numbers e₂) (moved c w₂ w₃ t.at_box_matrix e₃),
      Freed-trans f₁₂ f₃,
    )
