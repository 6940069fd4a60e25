-- ===== src/Account/Known.antt =====
-- What the services ask of a verdict about a password.
use authora.Prelude.{◌≡◌, false}
use authora.Exec.{Result, ok}
use authora.Passwords.{PasswordVerifyResult}
use authora.Account.{is_invalid}

-- The password was judged, and not as invalid: it is valid or expired.
abbrev pub IsKnown : Result PasswordVerifyResult → Type 0
IsKnown answer = (v : PasswordVerifyResult) × (answer ≡ ok v) × (is_invalid v ≡ false)
