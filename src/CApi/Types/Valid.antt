-- ===== src/CApi/Types/Valid.antt =====
-- An input made from C arrays passes the validation helpers.
use rgpot.Prelude.{◌^◌, ◌%◌, ◌+◌, ◌≡◌, refl, List, arith, Result, good, length}
use rgpot.Prelude.Text.{Text}
use rgpot.Prelude.Words.{Word}
use rgpot.Layout.{Ptr, DlDataType, ForceInput}
use rgpot.Memory.{World, ok, Cmd, ◌>>=◌, pure, IsWorld}
use rgpot.Tensor.Blocks.{IsBorrowed, borrowed_managed}
use rgpot.Tensor.Validate.{validate_positions, validate_atomic_numbers, validate_box_matrix}
use rgpot.Tensor.Validate.Accepts.{
  Readable, validate_positions_iff, validate_atomic_numbers_iff, validate_box_matrix_iff,
}
use rgpot.CApi.Types.{rgpot_force_input_create}
use rgpot.CApi.Types.Input.{rgpot_force_input_create-IsInput}

Readable-IsBorrowed :
    (w : World) {b p : Ptr} {dtype : DlDataType} {shape strides : List Word}
    → IsBorrowed w.cell b p dtype shape strides
    → length shape ≡ length shape % 2 ^ 32
    → Readable w (b + 1 + 1 + 1) (borrowed_managed b p dtype shape) shape
Readable-IsBorrowed w t small = record {
  live = omega (arith, t.positive);
  handle = t.managed_block;
  shape_live = omega (arith, t.positive);
  shape_block = t.shape_block;
  dimensions = small;
}

module _ (debug : DlDataType → Text) where
  -- The three checks of an input, in the order of its fields.
  abbrev pub validated :
      ForceInput → Word → Cmd (Result Word Text × Result (Unit {0}) Text × Result (Unit {0}) Text)
  validated i n = do
    p ← validate_positions debug i.positions
    a ← validate_atomic_numbers debug i.atomic_numbers n
    b ← validate_box_matrix debug i.box_matrix
    pure (p, a, b)

  -- All three checks accept an input of `n` atoms made by `rgpot_force_input_create`, and the number
  -- of atoms that `validate_positions` returns is `n`.
  validated-create :
      (w : World) (n : Word) (pos atm box : Ptr)
      → IsWorld w
      → (w' : World) × ((do i ← rgpot_force_input_create n pos atm box; validated i n) w
          ≡ ok (good n, good tt, good tt) w')
  validated-create w n pos atm box is =
      let (i, w₁, made, t, g) = rgpot_force_input_create-IsInput n pos atm box is in
      let p =
        (validate_positions_iff debug n (Readable-IsBorrowed w₁ t.positions refl)).1 (refl, refl) in
      let a =
        (validate_atomic_numbers_iff debug n (Readable-IsBorrowed w₁ t.atomic_numbers refl)).1
          (refl, refl) in
      let b =
        (validate_box_matrix_iff debug (Readable-IsBorrowed w₁ t.box_matrix refl)).1 (refl, refl) in
      (w₁, rw (made, t.at_positions, t.at_atomic_numbers, t.at_box_matrix, p, a, b) refl)
