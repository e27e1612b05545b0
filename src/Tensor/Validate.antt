-- ===== src/Tensor/Validate.antt =====
-- The validation helpers of tensor.rs. `debug` is the `{:?}` of dlpk's `DLDataType`.
pub mod Accepts
use rgpot.Prelude.{
  ℕ, ◌==◌, Bool, true, false, not, ◌&&◌, ◌||◌, List, [], ◌∷◌, ◌++◌, get_or, Result, good, bad,
  if◌then◌else◌,
}
use rgpot.Prelude.Text.{Text, codes, decimal, decimal_signed}
use rgpot.Prelude.Words.{Word}
use rgpot.Layout.{Ptr, is_null, DlDataType}
use rgpot.Memory.{Cmd, pure, ◌>>=◌, load, as_managed, i64_slice}
use rgpot.Tensor.{dtype_f64, dtype_i32}

-- `PartialEq` of `DLDataType`
abbrev pub eq_dtype : DlDataType → DlDataType → Bool
eq_dtype a b = (a.code == b.code) && (a.bits == b.bits) && (a.lanes == b.lanes)

abbrev pub refuse {ℓ} : {A : Type ℓ} → Text → Cmd (Result A Text)
refuse e = pure (bad e)

module _ (debug : DlDataType → Text) where
  unfoldable pub validate_positions : Ptr → Cmd (Result Word Text)
  validate_positions p = if is_null p then refuse (codes "positions tensor is NULL") else do
    m ← load p >>= as_managed
    let t = m.dl_tensor
    if not (eq_dtype t.dtype dtype_f64)
        then refuse (codes "positions: expected f64, got " ++ debug t.dtype)
        else if not (t.ndim == 2)
        then refuse (codes "positions: expected ndim=2, got " ++ decimal_signed 32 t.ndim)
        else do
          shape ← i64_slice t.shape t.ndim
          if not (get_or shape 1 0 == 3)
              then refuse (
                  codes "positions: expected shape[1]=3, got "
                  ++ decimal_signed 64 (get_or shape 1 0))
              else pure (good (get_or shape 0 0))

  unfoldable pub validate_atomic_numbers : Ptr → Word → Cmd (Result (Unit {0}) Text)
  validate_atomic_numbers p expected_n =
      if is_null p then refuse (codes "atomic_numbers tensor is NULL") else do
        m ← load p >>= as_managed
        let t = m.dl_tensor
        if not (eq_dtype t.dtype dtype_i32)
            then refuse (codes "atomic_numbers: expected i32, got " ++ debug t.dtype)
            else if not (t.ndim == 1)
            then refuse (codes "atomic_numbers: expected ndim=1, got " ++ decimal_signed 32 t.ndim)
            else do
              shape ← i64_slice t.shape 1
              if not (get_or shape 0 0 == expected_n)
                  then refuse (
                      codes "atomic_numbers: expected len="
                      ++ decimal expected_n
                      ++ codes ", got "
                      ++ decimal_signed 64 (get_or shape 0 0))
                  else pure (good tt)

  unfoldable pub validate_box_matrix : Ptr → Cmd (Result (Unit {0}) Text)
  validate_box_matrix p = if is_null p then refuse (codes "box_matrix tensor is NULL") else do
    m ← load p >>= as_managed
    let t = m.dl_tensor
    if not (eq_dtype t.dtype dtype_f64)
        then refuse (codes "box_matrix: expected f64, got " ++ debug t.dtype)
        else if not (t.ndim == 2)
        then refuse (codes "box_matrix: expected ndim=2, got " ++ decimal_signed 32 t.ndim)
        else do
          shape ← i64_slice t.shape 2
          if not (get_or shape 0 0 == 3) || not (get_or shape 1 0 == 3)
              then refuse (
                  codes "box_matrix: expected shape=[3,3], got ["
                  ++ decimal_signed 64 (get_or shape 0 0)
                  ++ codes ","
                  ++ decimal_signed 64 (get_or shape 1 0)
                  ++ codes "]")
              else pure (good tt)
