-- ===== src/Status/LastError.antt =====
-- The round trip of a message through `set_last_error` and `rgpot_last_error`.
use rgpot.Prelude.{ℕ, ◌≡◌, refl, ◌≢◌, true, false, [], ◌∷◌, arith, ◌==◌, if◌then◌else◌}
use rgpot.Prelude.Text.{Text, has_nul}
use rgpot.Memory.{World, ok, ◌>>◌}
use rgpot.Status.{
  c_string, from_c_chars, nul_message, error_c_string, with_error, set_last_error, rgpot_last_error,
}

pub from_c_chars-c_string : (s : Text) → has_nul s ≡ false → from_c_chars (c_string s) ≡ s
from_c_chars-c_string [] h = refl
from_c_chars-c_string (c ∷ s) h = ground (arith, from_c_chars-c_string s)

-- What a C caller reads after a message was stored.
abbrev pub stored_text : Text → Text
stored_text msg = if has_nul msg then nul_message else msg

pub from_c_chars-error_c_string : (msg : Text) → from_c_chars (error_c_string msg) ≡ stored_text msg
from_c_chars-error_c_string msg = ground (arith, from_c_chars-c_string msg)

-- The text that the running thread reads as its last error.
abbrev pub error_text : World → Text
error_text w = from_c_chars (w.last_error w.thread)

-- A message stored by the running thread is what it reads.
pub error_text-with_error :
    (msg : Text) (w : World) → error_text (with_error (error_c_string msg) w) ≡ stored_text msg
error_text-with_error msg w = rw (self w.thread) (from_c_chars-error_c_string msg)
  where
    self : (t : ℕ) → (t == t) ≡ true
    self t = ground arith

-- On the same thread, the next `rgpot_last_error` reads the last message stored, whole if it holds
-- no NUL and the fixed replacement text if it holds one, whatever was stored before; nothing but
-- the slot of this thread changes.
pub set-get-last_error :
    (older msg : Text) (w : World)
    → (w' : World) × ((do set_last_error older; set_last_error msg; rgpot_last_error) w
        ≡ ok (w'.last_error w.thread) w')
      × (from_c_chars (w'.last_error w.thread) ≡ stored_text msg)
      × ((t : ℕ) → t ≢ w.thread → w'.last_error t ≡ w.last_error t)
      × (record w' { last_error = w.last_error } ≡ w)
unfolding set_last_error rgpot_last_error
set-get-last_error older msg w = (
  with_error (error_c_string msg) (with_error (error_c_string older) w),
  refl,
  error_text-with_error msg (with_error (error_c_string older) w),
  λ t h. ground arith,
  refl,
)
