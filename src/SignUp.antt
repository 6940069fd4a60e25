-- ===== src/SignUp.antt =====
-- service/sign-up.service.ts: registrations, and the users made from them.
pub mod Verification
use authora.Prelude.{String, Bool, not, ◌||◌, none, if◌then◌else◌, ltb}
use authora.Model.{RegistrationEntity, UserEntity}
use authora.Exec.{
  or_throw, pure, throw_if, ◌>>=◌, ◌>>◌, email_already_used, registration_not_found, invalid_token,
}
use authora.World.{Platform, Action, draw, time}
use authora.Registrations
use authora.Users
use authora.Passwords
use authora.Emails

-- SignUpInputDto
pub record SignUpInput : Type 0 where
  pub email : String
  pub password : String

module _ {p : Platform} where
  -- the two look-ups that `signUp` and `checkEmail` share
  unfoldable pub is_used : String → String → Action p Bool
  unfolding Registrations.exists_by_email Users.exists_by_email
  is_used email tenant_id = do
    in_registration ← Registrations.exists_by_email email tenant_id
    in_user ← Users.exists_by_email email tenant_id
    pure (in_registration || in_user)

  unfoldable pub sign_up : SignUpInput → String → Action p RegistrationEntity
  unfolding is_used Registrations.create Emails.send_sign_up_verification
  sign_up dto tenant_id = do
    let email = p.to_lower_case dto.email
    used ← is_used email tenant_id
    throw_if used email_already_used
    n ← draw
    let verification_token = p.random_hex n
    registration ← Registrations.create email tenant_id dto.password verification_token
    Emails.send_sign_up_verification email verification_token
    pure registration

  unfoldable pub resend_verification_email : String → Action p (Unit {0})
  unfolding Registrations.find_by_email Registrations.update_email_verification_token
      Emails.send_sign_up_verification
  resend_verification_email email = do
    let lower = p.to_lower_case email
    found ← Registrations.find_by_email lower
    registration ← or_throw registration_not_found found
    n ← draw
    let verification_token = p.random_hex n
    Registrations.update_email_verification_token registration verification_token
    Emails.send_sign_up_verification lower verification_token

  -- the message of `CheckEmailOutputDto`
  unfoldable pub check_email : String → String → Action p String
  unfolding is_used
  check_email email tenant_id = do
    used ← is_used (p.to_lower_case email) tenant_id
    pure (
        if used
        then "If the email can be used, you will be able to sign-up."
        else "You can continue the registration process if this email is valid.")

  unfoldable pub verify_email : String → String → Action p UserEntity
  unfolding Registrations.find_by_email Users.create Passwords.create_from_hash Registrations.delete
  verify_email email token = do
    let lower = p.to_lower_case email
    found ← Registrations.find_by_email lower
    registration ← or_throw registration_not_found found
    now ← time
    throw_if (ltb registration.email_verification_token_expires_at now) invalid_token
    throw_if (not (p.argon2_verify registration.email_verification_token_hash token)) invalid_token
    u ← Users.create lower registration.tenant_id none
    Passwords.create_from_hash u registration.password_hash
    Registrations.delete registration
    pure u
