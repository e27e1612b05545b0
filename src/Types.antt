-- ===== src/Types.antt =====
-- rgpot-core/src/types.rs: the number of atoms of an input.
use rgpot.Prelude.{◌==◌, ◌||◌, Option, none, some, get_or, if◌then◌else◌}
use rgpot.Prelude.Words.{Word, neg_half}
use rgpot.Layout.{is_null, ForceInput}
use rgpot.Memory.{Cmd, pure, ◌>>=◌, load, as_managed, i64_slice}

-- `*t.shape as usize` is a read of the first entry.
unfoldable pub n_atoms : ForceInput → Cmd (Option Word)
n_atoms i = if is_null i.positions then pure none else do
  m ← load i.positions >>= as_managed
  let t = m.dl_tensor
  if (t.ndim == 0 || neg_half t.ndim) || is_null t.shape
      then pure none
      else do shape ← i64_slice t.shape 1; pure (some (get_or shape 0 0))
