-- ===== src/Controllers/SignIn.antt =====
-- controller/sign-in.controller.ts and dto/output/auth-session-status.output.dto.ts.
pub mod Announced
use authora.Prelude.{
  ℕ, ◌*◌, String, Bool, true, false, not, ◌&&◌, Option, none, some, if◌then◌else◌, or_else,
}
use authora.Model.{AuthSession, MfaPolicy, required, optional, disabled}
use authora.Config.Names.{TenantSetting}
use authora.Config.Values.{SettingValue, number_value}
use authora.Exec.{pure, or_throw, ◌>>=◌, ◌>>◌, missing_device_fingerprint}
use authora.SignIn.{PasswordInput, SignInOutput}
use authora.SignIn as SignInService
use authora.SignIn.Totp
use authora.SignIn.Totp.{TotpInput}
use authora.SignIn.Completion
use authora.SignIn.Refresh
use authora.Settings.{get_tenant}
use authora.Site.{Site}
use authora.Http.{
  Request, Handler, SetCookie, cookie, clear_cookie, task, action, request_of, set_cookie, bearer,
}
use authora.Controllers.{current_tenant}

pub data NextStep : Type 0 where
  primary_auth mfa_setup mfa_auth complete : NextStep

-- the part of `_resolveNextStep` behind a verified first factor
abbrev pub second_step : MfaPolicy → (setup verified trusted : Bool) → NextStep
second_step required setup verified trusted =
    if not setup then mfa_setup else if not verified && not trusted then mfa_auth else complete
second_step optional setup verified trusted =
    if setup && not verified && not trusted then mfa_auth else complete
second_step disabled setup verified trusted = complete

unfoldable pub resolve_next_step : AuthSession → NextStep
resolve_next_step s =
    if not s.primary_auth_verified
    then primary_auth
    else second_step s.mfa_policy s.mfa_setup s.mfa_verified s.device_trusted

pub record AuthSessionStatus : Type 0 where
  pub session_id : String
  pub next_step : NextStep

abbrev pub from_session : AuthSession → AuthSessionStatus
from_session s = record { session_id = s.id; next_step = resolve_next_step s }

-- the output without the refresh token, which goes into a cookie
pub record SignInBody : Type 0 where
  pub access_token : String
  pub expires_in : ℕ

abbrev pub body_of : SignInOutput → SignInBody
body_of o = record { access_token = o.access_token; expires_in = o.expires_in }

abbrev pub refresh_cookie : SignInOutput → SetCookie
refresh_cookie o = cookie "refreshToken" o.refresh_token true none

-- `days * 24 * 60 * 60 * 1_000`; NaN is no age
abbrev pub age_of : SettingValue → Option ℕ
age_of (number_value days) = some (days * 24 * 60 * 60 * 1000)
age_of _ = none

module _ {b : Site} where
  abbrev pub with_refresh_cookie : SignInOutput → Handler b SignInBody
  with_refresh_cookie output = do set_cookie (refresh_cookie output); pure (body_of output)

  -- `_setDeviceFingerprintCookie`: an absent fingerprint is written as 'undefined'
  unfoldable pub set_device_fingerprint_cookie : Option String → String → Handler b (Unit {0})
  set_device_fingerprint_cookie fingerprint tenant_id = do
    max_age_days ← task (get_tenant TenantSetting.device_fingerprint_cookie_max_age_days tenant_id)
    set_cookie
        (cookie "deviceFingerprint" (or_else fingerprint "undefined") false (age_of max_age_days))

  unfoldable pub initiate : Handler b AuthSessionStatus
  initiate = do
    req ← request_of
    fingerprint ← or_throw missing_device_fingerprint (req.cookies "X-Device-Fingerprint")
    tenant ← current_tenant
    s ← action (SignInService.create_first_party_session tenant.id fingerprint)
    pure (from_session s)

  unfoldable pub exchange_session : String → Handler b SignInBody
  exchange_session session_id = do
    output ← action (Completion.exchange_session session_id)
    with_refresh_cookie output

  unfoldable pub authorize : String → String → Handler b AuthSessionStatus
  authorize redirect_uri code_challenge = do
    tenant ← current_tenant
    s ← action (SignInService.create_third_party_session tenant.id redirect_uri code_challenge)
    pure (from_session s)

  unfoldable pub exchange : String → Handler b String
  exchange session_id = action (Completion.exchange session_id)

  unfoldable pub token : String → Handler b SignInBody
  token exchange_token = do
    output ← action (Completion.token exchange_token)
    with_refresh_cookie output

  -- what both first factors answer
  abbrev pub signed_in : AuthSession → Handler b AuthSessionStatus
  signed_in s = do
    set_device_fingerprint_cookie s.device_fingerprint s.tenant_id
    pure (from_session s)

  unfoldable pub primary_auth_password :
      String → String → String → Option Bool → Handler b AuthSessionStatus
  unfolding set_device_fingerprint_cookie
  primary_auth_password session_id email password remember_me = do
    req ← request_of
    let dto : PasswordInput = record {
      email = email;
      password = password;
      remember_me = remember_me;
      ip = or_else req.ip "";
      user_agent = or_else req.user_agent "";
      device_fingerprint = req.cookies "deviceFingerprint";
    }
    s ← action (SignInService.primary_auth_password session_id dto)
    signed_in s

  unfoldable pub primary_auth_magic_link : String → String → Option String → Handler b (Unit {0})
  primary_auth_magic_link session_id email locale =
      action (SignInService.primary_auth_magic_link session_id email locale)

  unfoldable pub primary_auth_magic_link_validate : String → String → Handler b AuthSessionStatus
  unfolding set_device_fingerprint_cookie
  primary_auth_magic_link_validate session_id token = do
    req ← request_of
    s ← action (
        SignInService.primary_auth_magic_link_validate session_id token (or_else req.ip "")
          (or_else req.user_agent "") (req.cookies "deviceFingerprint"))
    signed_in s

  unfoldable pub mfa_auth_totp_validate :
      String → String → Option Bool → Handler b AuthSessionStatus
  mfa_auth_totp_validate session_id code trust_this_device = do
    req ← request_of
    let dto : TotpInput = record {
      code = code;
      trust_this_device = trust_this_device;
      ip = or_else req.ip "";
      user_agent = or_else req.user_agent "";
    }
    s ← action (Totp.mfa_auth_totp_validate session_id dto)
    pure (from_session s)

  unfoldable pub refresh_token : Handler b SignInBody
  refresh_token = do
    req ← request_of
    output ← action (Refresh.refresh_token (bearer req.authorization) (req.cookies "refreshToken"))
    with_refresh_cookie output

  unfoldable pub revoke_token : Handler b (Unit {0})
  revoke_token = do
    req ← request_of
    action (Refresh.revoke_token (bearer req.authorization) (req.cookies "refreshToken"))
    set_cookie (clear_cookie "refreshToken")
