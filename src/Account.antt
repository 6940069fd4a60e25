-- ===== src/Account.antt =====
-- service/account.service.ts: passwords, deletion, devices and sessions of an account.
pub mod Ownership
pub mod Known
pub mod Recovery
use authora.Prelude.{String, Bool, true, false, ◌&&◌, Option, none, some, List, if◌then◌else◌, ◌==◌}
use authora.Model.{
  UserEntity, RefreshTokenEntity, TrustedDeviceEntity, LockReason, OneTimeTokenType,
  account_deletion,
}
use authora.Model.Equality.{is_too_many_attempts}
use authora.Exec.{
  or_throw, pure, throw_if, when, ◌>>=◌, ◌>>◌, invalid_credentials, password_already_used,
  device_not_found, account_deletion_not_found,
}
use authora.World.{Platform, Action, read_without_tenant}
use authora.Users
use authora.Passwords.{PasswordVerifyResult, already_used}
use authora.Passwords
use authora.RefreshTokens
use authora.Tokens
use authora.Emails
use authora.Devices

-- `passwordResult === 'invalid'`
abbrev pub is_invalid : PasswordVerifyResult → Bool
is_invalid PasswordVerifyResult.invalid = true
is_invalid _ = false

abbrev pub locked_by_attempts : Option LockReason → Bool
locked_by_attempts none = false
locked_by_attempts (some reason) = is_too_many_attempts reason

-- `device === null || device.user?.id !== user.id`
abbrev pub owned_by : UserEntity → Option TrustedDeviceEntity → Option TrustedDeviceEntity
owned_by u none = none
owned_by u (some d) = if d.user_id == u.id then some d else none

module _ {p : Platform} where
  -- Every session and every one-time token of the user.
  unfoldable pub revoke_everything : UserEntity → Action p (Unit {0})
  unfolding RefreshTokens.revoke_all_for_user Tokens.revoke_all_for_user
  revoke_everything u = do RefreshTokens.revoke_all_for_user u; Tokens.revoke_all_for_user u.id

  unfoldable pub change_password : String → String → String → Action p (Unit {0})
  unfolding Users.find_by_email Passwords.passwords_of Passwords.verify_user_password already_used
      Passwords.change_user_password revoke_everything
  change_password email current_password new_password = do
    found ← Users.find_by_email (p.to_lower_case email)
    u ← or_throw invalid_credentials found
    loaded ← Passwords.passwords_of u
    verdict ← Passwords.verify_user_password u loaded current_password
    throw_if (is_invalid verdict) invalid_credentials
    throw_if (already_used p loaded new_password) password_already_used
    Passwords.change_user_password u new_password
    revoke_everything u

  abbrev pub send_reset : String → Option UserEntity → Action p (Unit {0})
  send_reset email none = pure tt
  send_reset email (some u) = do
    config ← read_without_tenant
    token ← Tokens.create u.id OneTimeTokenType.forgot_password config
    Emails.send_forgot_password email token config

  unfoldable pub forgot_password : String → Action p (Unit {0})
  unfolding Users.find_by_email Tokens.create Emails.send_forgot_password
  forgot_password email = do
    let lower = p.to_lower_case email
    found ← Users.find_by_email lower
    send_reset lower found

  -- what a reset does to an account that was locked by failed attempts
  unfoldable pub unlock_after_reset : UserEntity → Action p (Unit {0})
  unfolding Users.unlock Users.reset_password_attempts Users.reset_mfa_attempts
      RefreshTokens.reset_reuse_counter
  unlock_after_reset u = do
    Users.unlock u
    Users.reset_password_attempts u
    Users.reset_mfa_attempts u
    RefreshTokens.reset_reuse_counter u.id

  unfoldable pub reset_password : String → String → String → Action p (Unit {0})
  unfolding Users.find_by_email Passwords.passwords_of Tokens.consume already_used
      Passwords.reset_user_password unlock_after_reset revoke_everything
  reset_password email token new_password = do
    found ← Users.find_by_email (p.to_lower_case email)
    u ← or_throw invalid_credentials found
    loaded ← Passwords.passwords_of u
    Tokens.consume u.id token OneTimeTokenType.forgot_password
    throw_if (already_used p loaded new_password) password_already_used
    Passwords.reset_user_password u new_password
    config ← read_without_tenant
    when (config.unlock_on_password_reset && u.is_locked && locked_by_attempts u.lock_reason)
        (unlock_after_reset u)
    revoke_everything u

  unfoldable pub delete_account : String → String → Action p (Unit {0})
  unfolding Users.find_by_email Passwords.passwords_of Passwords.verify_user_password Tokens.create
      Emails.send_account_deletion_verification
  delete_account email password = do
    let lower = p.to_lower_case email
    found ← Users.find_by_email lower
    u ← or_throw invalid_credentials found
    loaded ← Passwords.passwords_of u
    verdict ← Passwords.verify_user_password u loaded password
    throw_if (is_invalid verdict) invalid_credentials
    config ← read_without_tenant
    token ← Tokens.create u.id account_deletion config
    Emails.send_account_deletion_verification lower token

  unfoldable pub verify_delete_account : String → String → Action p (Unit {0})
  unfolding Users.find_by_email Tokens.consume Users.delete
  verify_delete_account email token = do
    found ← Users.find_by_email (p.to_lower_case email)
    u ← or_throw account_deletion_not_found found
    Tokens.consume u.id token account_deletion
    Users.delete u

  unfoldable pub sign_out : UserEntity → String → Action p (Unit {0})
  unfolding RefreshTokens.find_by_jwt RefreshTokens.revoke_family
  sign_out u jwt = do
    found ← RefreshTokens.find_by_jwt u jwt
    elim found [ none ↦ pure tt | some t ↦ RefreshTokens.revoke_family t.family ]

  unfoldable pub list_devices : UserEntity → Action p (List TrustedDeviceEntity)
  unfolding Devices.find_all_for_user
  list_devices u = Devices.find_all_for_user u

  unfoldable pub distrust_device : UserEntity → String → Action p TrustedDeviceEntity
  unfolding Devices.find_by_id Devices.distrust
  distrust_device u device_id = do
    found ← Devices.find_by_id device_id
    d ← or_throw device_not_found (owned_by u found)
    Devices.distrust d
    pure (Devices.distrusting d)

  unfoldable pub list_sessions : UserEntity → Action p (List RefreshTokenEntity)
  unfolding RefreshTokens.find_all_active_for_user
  list_sessions u = RefreshTokens.find_all_active_for_user u

  unfoldable pub revoke_all_sessions : UserEntity → Action p (Unit {0})
  unfolding RefreshTokens.revoke_all_for_user
  revoke_all_sessions u = RefreshTokens.revoke_all_for_user u

  unfoldable pub delete_device : UserEntity → String → Action p (Unit {0})
  unfolding Devices.find_by_id Devices.delete
  delete_device u device_id = do
    found ← Devices.find_by_id device_id
    d ← or_throw device_not_found (owned_by u found)
    Devices.delete d
