-- ===== src/Emails.antt =====
-- service/email.service.ts: what is emitted to the queue. The text of a link, which the URL class
-- builds and escapes, is kept as its base, path and query. An email for the tenant '' is given that tenant's settings.
use Prim.Native.String.{◌++◌}
use authora.Prelude.{String, Option, none, some, List, [], ◌∷◌, if◌then◌else◌, or_else}
use authora.Model.Equality.{is_first_party}
use authora.Config.{TenantConfig}
use authora.Exec.{modify}
use authora.World.{Platform, Action, Link}

abbrev pub forgot_password_link : String → String → TenantConfig → Link
forgot_password_link email token config = record {
  base = config.authora_ui_base_url;
  path = "/forgot-password/verify";
  query = ("email", email) ∷ ("token", token) ∷ [];
}

abbrev pub redirect_query : Option String → List (String × String)
redirect_query none = []
redirect_query (some url) = ("redirectTo", url) ∷ []

abbrev pub magic_link_url : String → String → TenantConfig → Option String → Option String → Link
magic_link_url email token config redirect_to locale = record {
  base = config.authora_ui_base_url;
  path = "/" ++ or_else locale "en" ++ "/sign-in/magic-link/validate";
  query = ("email", email) ∷ ("token", token) ∷ redirect_query redirect_to;
}

-- the link is left out in the first-party mode
abbrev pub linked : TenantConfig → Link → Option Link
linked config link = if is_first_party config.integration_mode then none else some link

module _ {p : Platform} where
  abbrev pub emit : String → String → String → Option Link → Action p (Unit {0})
  emit pattern_name email token link = modify (λ w. record w {
    outbox =
        record { pattern_name = pattern_name; email = email; token = token; link = link }
        ∷ w.outbox;
  })

  unfoldable pub send_sign_up_verification : String → String → Action p (Unit {0})
  send_sign_up_verification email token = emit "sign-up-verification" email token none

  unfoldable pub send_forgot_password : String → String → TenantConfig → Action p (Unit {0})
  send_forgot_password email token config =
      emit "forgot-password" email token (linked config (forgot_password_link email token config))

  unfoldable pub send_account_deletion_verification : String → String → Action p (Unit {0})
  send_account_deletion_verification email token =
      emit "account-deletion-verification" email token none

  unfoldable pub send_magic_link :
      String → String → String → Option String → Option String → Action p (Unit {0})
  send_magic_link email token tenant_id redirect_to locale = emit "magic-link" email token (
      linked (p.tenant tenant_id)
        (magic_link_url email token (p.tenant tenant_id) redirect_to locale))
