-- ===== src/PasswordRules/Breach.antt =====
-- dto/validator/password/no-common-password.decorator.ts and config/breached-password.client.ts.
use authora.Prelude.{ℕ, Bool, true, not, List, if◌then◌else◌, eqb, any}
use authora.PasswordRules.Texts.{starts_with, split, take, drop}

-- the URL is that of the range API, followed by the prefix
pub record BreachedPasswordRequest : Type 0 where
  pub prefix : List ℕ
  pub value_to_match : List ℕ

-- from the SHA-1 of the password, in upper-case hexadecimal
abbrev pub build_breached_password_request : List ℕ → BreachedPasswordRequest
build_breached_password_request sha1 = record { prefix = take 5 sha1; value_to_match = drop 5 sha1 }

-- what `fetch` and `text` come to: an exception, a status that is no success, or a body
pub data Response : Type 0 where
  failed refused : Response
  body : List ℕ → Response

abbrev pub accepts : Response → List ℕ → Bool
accepts failed value_to_match = true
accepts refused value_to_match = true
accepts (body text) value_to_match =
    not (any (λ line. starts_with line value_to_match) (split (eqb 10) text))

unfoldable pub no_common_password : Bool → (List ℕ → List ℕ) → (List ℕ → Response) → List ℕ → Bool
no_common_password enabled sha1 fetch value =
    let request = build_breached_password_request (sha1 value) in
    if not enabled then true else accepts (fetch request.prefix) request.value_to_match
