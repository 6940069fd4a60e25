-- ===== src/SignIn.antt =====
-- service/sign-in.service.ts: the sessions of a sign-in, from the first factor to the tokens. The
-- children hold the second factor, the exchange of a session for tokens, the refresh and the
-- revocation of tokens, and the proofs.
pub mod Totp
pub mod Completion
pub mod Refresh
pub mod Gate
pub mod Exchange
pub mod Password
pub mod Takeover
pub mod Rotation
pub mod SecondFactor
pub mod Lockout
pub mod Unavailable
pub mod MagicLink
pub mod ExchangeToken
use authora.Prelude.{
  ℕ, String, Bool, true, false, not, ◌&&◌, Option, none, some, if◌then◌else◌, leb, or_else, is_some,
}
use authora.Model.{
  AuthSession, UserEntity, LockReason, AuthFailureReason, PasswordRevocationReason, MfaPolicy,
  MultiFactorAuthEntity, TrustedDeviceEntity, magic_link, account_locked, password_expired,
  invalid_password_auth, invalid_mfa_auth, too_many_mfa_attempts, expired,
}
use authora.Model.Equality.{is_disabled}
use authora.Exec.{
  pure, throw, throw_if, or_throw, when, ◌>>=◌, ◌>>◌, invalid_credentials, too_many_attempts,
  session_not_found, primary_auth_required, mfa_required, Exception,
}
use authora.World.{Platform, World, Action, time}
use authora.Users
use authora.Attempts
use authora.Passwords.{PasswordVerifyResult}
use authora.Passwords
use authora.Devices
use authora.Mfa.{TotpValidateResult}
use authora.Mfa
use authora.Sessions
use authora.Tokens
use authora.Emails
use authora.RefreshTokens

-- SignInPasswordInputDto, with the parts of the request
pub record PasswordInput : Type 0 where
  pub email : String
  pub password : String
  pub remember_me : Option Bool
  pub ip : String
  pub user_agent : String
  pub device_fingerprint : Option String

-- SignInOutputDto with the refresh token
pub record SignInOutput : Type 0 where
  pub access_token : String
  pub expires_in : ℕ
  pub refresh_token : String

module _ {p : Platform} where
  -- `if (test) { record the failed attempt; throw … }`
  unfoldable pub refuse_if :
      Bool → UserEntity → String → String → AuthFailureReason → Exception → Action p (Unit {0})
  unfolding Attempts.create
  refuse_if false u ip user_agent reason e = pure tt
  refuse_if true u ip user_agent reason e = do
    Attempts.create u ip user_agent false (some reason)
    throw e

  unfoldable pub create_first_party_session : String → String → Action p AuthSession
  unfolding Sessions.create_first_party
  create_first_party_session tenant_id fingerprint =
      Sessions.create_first_party tenant_id fingerprint

  unfoldable pub create_third_party_session : String → String → String → Action p AuthSession
  unfolding Sessions.create_third_party
  create_third_party_session tenant_id redirect_uri code_challenge =
      Sessions.create_third_party tenant_id redirect_uri code_challenge

  -- `_getSession`
  unfoldable pub get_session : String → Action p AuthSession
  unfolding Sessions.find_by_id Sessions.verify
  get_session session_id = do
    found ← Sessions.find_by_id session_id
    s ← or_throw session_not_found found
    Sessions.verify s
    pure s

  -- `_resolveMfaStatus`, which sets three fields of the session
  unfoldable pub resolve_mfa_status :
      AuthSession → UserEntity → TrustedDeviceEntity → Action p AuthSession
  unfolding Mfa.find_for_user
  resolve_mfa_status s u device = do
    found ← Mfa.find_for_user u
    now ← time
    pure (record s {
      mfa_setup = elim found [ none ↦ false | some m ↦ m.is_verified ];
      mfa_policy = (p.tenant s.tenant_id).mfa_policy;
      device_trusted = Devices.is_trusted now device;
    })

  -- `_issueTokens`
  unfoldable pub issue_tokens : UserEntity → String → Bool → Action p SignInOutput
  unfolding RefreshTokens.create
  issue_tokens u tenant_id remember_me = do
    now ← time
    let access_token = p.sign u.id u.email now
    let config = p.tenant tenant_id
    refresh_token ←
        RefreshTokens.create u
          (if remember_me
            then config.jwt_refresh_token_long_expiration_sec
            else config.jwt_refresh_token_short_expiration_sec)
          access_token
    pure (record {
      access_token = access_token;
      expires_in = config.jwt_access_token_expiration_sec;
      refresh_token = refresh_token;
    })

  -- `primaryAuthPassword` once the password is valid
  unfoldable pub password_accepted : AuthSession → UserEntity → PasswordInput → Action p AuthSession
  unfolding Users.reset_password_attempts Attempts.create Devices.register_or_update
      resolve_mfa_status Sessions.update
  password_accepted s u dto = do
    Users.reset_password_attempts u
    Attempts.create u dto.ip dto.user_agent true none
    (device, fingerprint) ←
        Devices.register_or_update u dto.device_fingerprint dto.ip dto.user_agent
    resolved ←
        resolve_mfa_status
          (record s {
            user_id = some u.id;
            primary_auth_verified = true;
            remember_me = or_else dto.remember_me false;
            device_fingerprint = some fingerprint;
          })
          u device
    Sessions.update resolved
    pure resolved

  -- `primaryAuthPassword` on each verdict about the password
  abbrev pub judge_password :
      AuthSession → UserEntity → PasswordInput → PasswordVerifyResult → Action p AuthSession
  judge_password s u dto PasswordVerifyResult.expired = do
    Passwords.revoke u PasswordRevocationReason.expired
    Attempts.create u dto.ip dto.user_agent false (some password_expired)
    throw Exception.password_expired
  judge_password s u dto PasswordVerifyResult.invalid = do
    attempts ← Users.record_failed_password_attempt u
    when (leb (p.tenant s.tenant_id).primary_auth_lock_account_threshold attempts)
        (Users.lock u LockReason.too_many_attempts)
    Attempts.create u dto.ip dto.user_agent false (some invalid_password_auth)
    throw invalid_credentials
  judge_password s u dto PasswordVerifyResult.valid = password_accepted s u dto

  unfoldable pub primary_auth_password : String → PasswordInput → Action p AuthSession
  unfolding get_session refuse_if Users.find_by_email Users.is_password_temporarily_locked
      Attempts.create Passwords.passwords_of Passwords.verify_user_password Passwords.revoke
      Users.record_failed_password_attempt Users.lock password_accepted
  primary_auth_password session_id dto = do
    s ← get_session session_id
    found ← Users.find_by_email (p.to_lower_case dto.email)
    u ← or_throw invalid_credentials found
    loaded ← Passwords.passwords_of u
    refuse_if u.is_locked u dto.ip dto.user_agent account_locked invalid_credentials
    cooling ← Users.is_password_temporarily_locked u
    refuse_if cooling u dto.ip dto.user_agent AuthFailureReason.too_many_attempts too_many_attempts
    verdict ← Passwords.verify_user_password u loaded dto.password
    judge_password s u dto verdict

  -- `primaryAuthMagicLink` for a user that exists; the session's id goes where the link's
  -- redirection is expected
  abbrev pub send_link :
      AuthSession → String → String → Option String → Option UserEntity → Action p (Unit {0})
  send_link s session_id email locale none = pure tt
  send_link s session_id email locale (some u) = do
    Sessions.update (record s { user_id = some u.id })
    token ← Tokens.create u.id magic_link (p.tenant s.tenant_id)
    Emails.send_magic_link email token s.tenant_id (some session_id) locale

  unfoldable pub primary_auth_magic_link : String → String → Option String → Action p (Unit {0})
  unfolding get_session Users.find_by_email Sessions.update Tokens.create Emails.send_magic_link
  primary_auth_magic_link session_id email locale = do
    s ← get_session session_id
    let lower = p.to_lower_case email
    found ← Users.find_by_email lower
    send_link s session_id lower locale found

  unfoldable pub primary_auth_magic_link_validate :
      String → String → String → String → Option String → Action p AuthSession
  unfolding get_session Users.find_by_id Tokens.consume Devices.register_or_update
      resolve_mfa_status Sessions.update
  primary_auth_magic_link_validate session_id token ip user_agent fingerprint = do
    s ← get_session session_id
    user_id ← or_throw invalid_credentials s.user_id
    found ← Users.find_by_id user_id
    u ← or_throw invalid_credentials found
    Tokens.consume u.id token magic_link
    (device, fingerprint) ← Devices.register_or_update u fingerprint ip user_agent
    resolved ←
        resolve_mfa_status
          (record s { primary_auth_verified = true; device_fingerprint = some fingerprint }) u
          device
    Sessions.update resolved
    pure resolved
