-- ===== src/Status/Threads.antt =====
-- The last errors of several threads, whose calls arrive in any order.
use rgpot.Prelude.{ℕ, ◌≡◌, refl, ◌∙◌, ap, List, [], ◌∷◌, ◌==◌, if◌then◌else◌, Bool-cases, inl, inr}
use rgpot.Prelude.Text.{Text}
use rgpot.Memory.{World, ok, Cmd, ◌>>◌, pure}
use rgpot.Status.{from_c_chars, set_last_error, rgpot_last_error, with_error, error_c_string}
use rgpot.Status.LastError.{stored_text, from_c_chars-error_c_string}

-- The command runs on the thread `t`.
abbrev pub on_thread {ℓ} : {A : Type ℓ} → ℕ → Cmd A → Cmd A
on_thread t m w = m (record w { thread = t })

-- Failures on the threads that the list names, in its order.
abbrev pub set_all : List (ℕ × Text) → Cmd (Unit {0})
set_all [] = pure tt
set_all ((t, msg) ∷ es) = on_thread t (set_last_error msg) >> set_all es

-- What the thread `t` should read after them, where it would have read `old` before.
abbrev pub last_of : ℕ → List (ℕ × Text) → Text → Text
last_of t [] old = old
last_of t ((u, msg) ∷ es) old = last_of t es (if t == u then stored_text msg else old)

from_c_chars-with_error :
    (t u : ℕ) (msg : Text) (w : World)
    → from_c_chars ((with_error (error_c_string msg) (record w { thread = u })).last_error t)
      ≡ (if t == u then stored_text msg else from_c_chars (w.last_error t))
from_c_chars-with_error t u msg w = elim (Bool-cases (t == u)) [
  | inl e ↦ rw e (from_c_chars-error_c_string msg)
  | inr e ↦ rw e refl
]

-- Whatever messages the threads store in whatever order, each thread then reads the last of its
-- own, or what it would have read before if it stored none.
pub rgpot_last_error-set_all :
    (t : ℕ) (es : List (ℕ × Text)) (w : World)
    → (w' : World) × ((do set_all es; on_thread t rgpot_last_error) w ≡ ok (w'.last_error t) w')
      × (from_c_chars (w'.last_error t) ≡ last_of t es (from_c_chars (w.last_error t)))
unfolding set_last_error rgpot_last_error
rgpot_last_error-set_all t [] w = (record w { thread = t }, refl, refl)
rgpot_last_error-set_all t ((u, msg) ∷ es) w =
    let (w', read, same) =
      rgpot_last_error-set_all t es (with_error (error_c_string msg) (record w { thread = u })) in
    (w', read, same ∙ ap (λ old. last_of t es old) (from_c_chars-with_error t u msg w))
