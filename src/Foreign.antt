-- ===== src/Foreign.antt =====
-- The C functions that the crate calls through pointers and cannot see: the callback and the
-- destructor of a potential, and the deleter of another library's tensor. They are commands over
-- the same memory, so they may read, write, allocate and free like any other code.
use rgpot.Layout.{Ptr, FnPtr}
use rgpot.Memory.{Cmd}
use rgpot.Status.{Status}

pub record Foreign : Type 0 where
  pub callback : FnPtr → (user_data input output : Ptr) → Cmd Status
  pub free_fn : FnPtr → Ptr → Cmd (Unit {0})
  pub deleter : FnPtr → Ptr → Cmd (Unit {0})
