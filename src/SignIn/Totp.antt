-- ===== src/SignIn/Totp.antt =====
-- sign-in.service.ts: the second factor of a session, a TOTP code (`mfaAuthTotpValidate`).
use authora.Prelude.{String, Bool, true, false, not, Option, none, some}
use authora.Model.{AuthSession, UserEntity, account_locked, invalid_mfa_auth, too_many_mfa_attempts}
use authora.Exec.{
  pure, throw, throw_if, or_throw, ◌>>=◌, ◌>>◌, invalid_credentials, too_many_attempts,
  primary_auth_required,
}
use authora.World.{Platform, Action}
use authora.Users
use authora.Attempts
use authora.Devices
use authora.Mfa.{TotpValidateResult}
use authora.Mfa
use authora.Sessions
use authora.SignIn.{get_session, refuse_if}

-- SignInTotpValidateInputDto, with the parts of the request
pub record TotpInput : Type 0 where
  pub code : String
  pub trust_this_device : Option Bool
  pub ip : String
  pub user_agent : String

module _ {p : Platform} where
  -- the trust that `mfaAuthTotpValidate` gives to the session's device
  abbrev pub trust_device :
      AuthSession → UserEntity → Option Bool → Option String → Action p AuthSession
  trust_device s u (some true) (some fingerprint) = do
    found ← Devices.find_by_fingerprint u fingerprint
    elim found [
      | none ↦ pure s
      | some d ↦ do Devices.trust d s.tenant_id; pure (record s { device_trusted = true })
    ]
  trust_device s u _ _ = pure s

  -- `mfaAuthTotpValidate` once the code is valid
  unfoldable pub totp_accepted : AuthSession → UserEntity → TotpInput → Action p AuthSession
  unfolding Users.reset_mfa_attempts Attempts.create Devices.find_by_fingerprint Devices.trust
      Sessions.update
  totp_accepted s u dto = do
    Users.reset_mfa_attempts u
    Attempts.create u dto.ip dto.user_agent true none
    trusted ←
        trust_device (record s { mfa_verified = true }) u dto.trust_this_device s.device_fingerprint
    Sessions.update trusted
    pure trusted

  abbrev pub judge_totp :
      AuthSession → UserEntity → TotpInput → TotpValidateResult → Action p AuthSession
  judge_totp s u dto TotpValidateResult.not_found = throw invalid_credentials
  judge_totp s u dto TotpValidateResult.invalid = do
    Users.record_failed_mfa_attempt u
    Attempts.create u dto.ip dto.user_agent false (some invalid_mfa_auth)
    throw invalid_credentials
  judge_totp s u dto TotpValidateResult.valid = totp_accepted s u dto

  unfoldable pub mfa_auth_totp_validate : String → TotpInput → Action p AuthSession
  unfolding get_session refuse_if Users.find_by_id Users.is_mfa_temporarily_locked Attempts.create
      Mfa.validate_totp_for_user Users.record_failed_mfa_attempt totp_accepted
  mfa_auth_totp_validate session_id dto = do
    s ← get_session session_id
    user_id ← or_throw invalid_credentials s.user_id
    throw_if (not s.primary_auth_verified) primary_auth_required
    found ← Users.find_by_id user_id
    u ← or_throw invalid_credentials found
    refuse_if u.is_locked u dto.ip dto.user_agent account_locked invalid_credentials
    cooling ← Users.is_mfa_temporarily_locked u
    refuse_if cooling u dto.ip dto.user_agent too_many_mfa_attempts too_many_attempts
    verdict ← Mfa.validate_totp_for_user u dto.code
    judge_totp s u dto verdict
