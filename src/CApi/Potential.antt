-- ===== src/CApi/Potential.antt =====
-- rgpot-core/src/c_api/potential.rs: create, calculate, free.
pub mod Lifecycle
pub mod Refusing
use rgpot.Prelude.{Option, if◌then◌else◌}
use rgpot.Prelude.Text.{Text, codes}
use rgpot.Layout.{Ptr, FnPtr, is_null, potential}
use rgpot.Memory.{Cmd, pure, ◌>>=◌, ◌>>◌, alloc, load, dealloc, as_potential, extern_c}
use rgpot.Status.{Status, invalid_parameter, set_last_error, catch_unwind}
use rgpot.Foreign.{Foreign}
use rgpot.Potential.{new, calculate, drop}

unfoldable pub rgpot_potential_new : FnPtr → Ptr → Option FnPtr → Cmd Ptr
rgpot_potential_new callback user_data free_fn = alloc (potential (new callback user_data free_fn))

-- `set_last_error(msg); return RGPOT_INVALID_PARAMETER`
abbrev pub invalid : Text → Cmd Status
invalid msg = set_last_error msg >> pure invalid_parameter

unfoldable pub rgpot_potential_calculate : Foreign → Ptr → Ptr → Ptr → Cmd Status
rgpot_potential_calculate c pot input output = catch_unwind (
    if is_null pot
    then invalid (codes "rgpot_potential_calculate: pot is NULL")
    else if is_null input
    then invalid (codes "rgpot_potential_calculate: input is NULL")
    else if is_null output
    then invalid (codes "rgpot_potential_calculate: output is NULL")
    else do pot_ref ← load pot >>= as_potential; calculate c pot_ref input output)

-- Dropping the box runs `Drop::drop` and then gives the block back.
unfoldable pub rgpot_potential_free : Foreign → Ptr → Cmd (Unit {0})
rgpot_potential_free c pot =
    if is_null pot
    then pure tt
    else extern_c do p ← load pot >>= as_potential; drop c p; dealloc pot
