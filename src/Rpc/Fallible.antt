-- ===== src/Rpc/Fallible.antt =====
-- Commands that return a `Result<_, String>`, and the `?` operator.
use rgpot.Prelude.{Option, none, some, ◌++◌, Result, good, bad}
use rgpot.Prelude.Text.{Text}
use rgpot.Memory.{Run, ok, panicked, aborted, undefined, Cmd}

abbrev pub Try {ℓ} : Type ℓ → Type ℓ
Try A = Cmd (Result A Text)

abbrev pub and_try {ℓ κ} :
    {A : Type ℓ} {B : Type κ} → Run (Result A Text) → (A → Try B) → Run (Result B Text)
and_try (ok (good a) w) k = k a w
and_try (ok (bad e) w) k = ok (bad e) w
and_try (panicked e w) k = panicked e w
and_try aborted k = aborted
and_try undefined k = undefined

infixl 5 ◌>>=◌ ◌>>◌
abbrev pub ◌>>=◌ {ℓ κ} : {A : Type ℓ} {B : Type κ} → Try A → (A → Try B) → Try B
m >>= k = λ w. and_try (m w) k

abbrev pub ◌>>◌ {ℓ κ} : {A : Type ℓ} {B : Type κ} → Try A → Try B → Try B
m >> n = m >>= λ _. n

abbrev pub succeed {ℓ} : {A : Type ℓ} → A → Try A
succeed a w = ok (good a) w

abbrev pub fail {ℓ} : {A : Type ℓ} → Text → Try A
fail e w = ok (bad e) w

abbrev lifted {ℓ} : {A : Type ℓ} → Run A → Run (Result A Text)
lifted (ok a w) = ok (good a) w
lifted (panicked e w) = panicked e w
lifted aborted = aborted
lifted undefined = undefined

-- A step that cannot fail with a message.
abbrev pub lift {ℓ} : {A : Type ℓ} → Cmd A → Try A
lift m w = lifted (m w)

-- `r.map_err(|e| format!("{prefix}{e}"))?`
abbrev pub map_err {ℓ} : {A : Type ℓ} → Text → Result A Text → Try A
map_err prefix (good a) = succeed a
map_err prefix (bad e) = fail (prefix ++ e)

-- `o.ok_or_else(|| msg)?`
abbrev pub ok_or {ℓ} : {A : Type ℓ} → Text → Option A → Try A
ok_or msg none = fail msg
ok_or msg (some a) = succeed a
