-- ===== src/Potential.antt =====
-- rgpot-core/src/potential.rs: the handle that wraps a callback, its user data and a destructor.
use rgpot.Prelude.{Option, none, some, if◌then◌else◌}
use rgpot.Layout.{Ptr, FnPtr, is_null, PotentialImpl}
use rgpot.Memory.{Cmd, pure}
use rgpot.Status.{Status}
use rgpot.Foreign.{Foreign}

abbrev pub new : FnPtr → Ptr → Option FnPtr → PotentialImpl
new callback user_data free_fn = record {
  callback = callback;
  user_data = user_data;
  free_fn = free_fn;
}

unfoldable pub calculate : Foreign → PotentialImpl → Ptr → Ptr → Cmd Status
calculate c p input output = c.callback p.callback p.user_data input output

-- `Drop::drop`
unfoldable pub drop : Foreign → PotentialImpl → Cmd (Unit {0})
drop c p = elim p.free_fn [
  | some free ↦ if is_null p.user_data then pure tt else c.free_fn free p.user_data
  | none ↦ pure tt
]
