-- ===== src/Status.antt =====
-- rgpot-core/src/status.rs: status codes, the last error of each thread, and `catch_unwind`.
pub mod LastError
pub mod Threads
use rgpot.Prelude.{ℕ, List, [], ◌∷◌, ◌++◌, Bool, ◌==◌, if◌then◌else◌, Result, good, bad}
use rgpot.Layout.{Ptr}
use rgpot.Prelude.Text.{Text, codes, has_nul}
use rgpot.Memory.{
  ◌>>=◌, pure, ub, load, as_c_chars, World, Payload, static_str, owned_string, other_payload, Run,
  ok, panicked, aborted, undefined, Cmd,
}

-- `rgpot_status_t`
pub data Status : Type 0 where
  success invalid_parameter internal_error rpc_error buffer_size_error : Status

-- `CString::new`: the text with its terminator, refused if it holds a NUL.
abbrev pub c_string : Text → List ℕ
c_string s = s ++ 0 ∷ []

abbrev pub new_c_string : Text → Result (List ℕ) Text
new_c_string s = if has_nul s then bad s else good (c_string s)

-- `CStr::from_ptr`: the characters in front of the first NUL.
abbrev pub from_c_chars : List ℕ → Text
from_c_chars [] = []
from_c_chars (c ∷ s) = if c == 0 then [] else c ∷ from_c_chars s

-- `CStr::from_ptr(p)`: the characters in front of the terminator, which must be there.
abbrev pub read_c_str : Ptr → Cmd Text
read_c_str p = do cs ← load p >>= as_c_chars; if has_nul cs then pure (from_c_chars cs) else ub

abbrev pub nul_message : Text
nul_message = codes "(error message contained interior NUL)"

-- `CString::new(msg).unwrap_or_else(…)`
abbrev pub error_c_string : Text → List ℕ
error_c_string msg = elim (new_c_string msg) [ good c ↦ c | bad _ ↦ c_string nul_message ]

-- The slot of the thread `t`.
abbrev pub update_slot : (ℕ → List ℕ) → ℕ → List ℕ → ℕ → List ℕ
update_slot f t c u = if u == t then c else f u

abbrev pub with_error : List ℕ → World → World
with_error c w = record w { last_error = update_slot w.last_error w.thread c }

unfoldable pub set_last_error : Text → Cmd (Unit {0})
set_last_error msg w = ok tt (with_error (error_c_string msg) w)

-- The C string that the returned pointer addresses.
unfoldable pub rgpot_last_error : Cmd (List ℕ)
rgpot_last_error w = ok (w.last_error w.thread) w

-- The text of a caught panic.
unfoldable pub payload_message : Payload → Text
payload_message (static_str s) = s
payload_message (owned_string s) = s
payload_message other_payload = codes "unknown panic"

caught : Run Status → Run Status
unfolding set_last_error payload_message
caught (ok s w) = ok s w
caught (panicked e w) = ok internal_error (with_error (error_c_string (payload_message e)) w)
caught aborted = aborted
caught undefined = undefined

unfoldable pub catch_unwind : Cmd Status → Cmd Status
unfolding caught
catch_unwind f w = caught (f w)
