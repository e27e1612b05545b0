-- ===== src/Tests/Strides.antt =====
-- A shape whose volume is 0 but whose last dimensions overflow: the loop starts at the end.
use rgpot.Memory.{overflow_message, static_str, panicked}
use rgpot.Tests.Data.{empty}
use rgpot.Tensor.{compute_row_major_strides}
use rgpot.Tensor.Strides.Checked.{compute_row_major_strides-total}
use rgpot.Prelude.{◌≡◌, [], ◌^◌, ◌∷◌, arith}

compute_row_major_strides-total_example :
    compute_row_major_strides (5 ∷ 0 ∷ 2 ^ 62 ∷ 4 ∷ []) empty
    ≡ panicked (static_str overflow_message) empty
compute_row_major_strides-total_example =
    compute_row_major_strides-total empty 5 (0 ∷ 2 ^ 62 ∷ 4 ∷ [])
      (omega arith, (omega arith, (omega arith, tt)))
