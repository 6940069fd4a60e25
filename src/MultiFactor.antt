-- ===== src/MultiFactor.antt =====
-- service/multi-factor-auth.service.ts.
pub mod Management
use authora.Prelude.{String, List}
use authora.Exec.{or_throw, pure, throw_if, ◌>>=◌, ◌>>◌, invalid_credentials}
use authora.Model.{UserEntity}
use authora.World.{Platform, Action}
use authora.Users
use authora.Passwords
use authora.Mfa
use authora.Account.{is_invalid, revoke_everything}

-- SetupMultiFactorAuthOutputDto
pub record SetupOutput : Type 0 where
  pub qrcode : String
  pub manual_code : String

module _ {p : Platform} where
  -- the user with this email and password; an expired password passes
  unfoldable pub confirmed_user : String → String → Action p UserEntity
  unfolding Users.find_by_email Passwords.passwords_of Passwords.verify_user_password
  confirmed_user email password = do
    found ← Users.find_by_email email
    u ← or_throw invalid_credentials found
    loaded ← Passwords.passwords_of u
    verdict ← Passwords.verify_user_password u loaded password
    throw_if (is_invalid verdict) invalid_credentials
    pure u

  unfoldable pub setup : String → String → Action p SetupOutput
  unfolding confirmed_user Mfa.create
  setup email password = do
    let lower = p.to_lower_case email
    u ← confirmed_user lower password
    created ← Mfa.create u
    pure (record { qrcode = p.qrcode created.secret lower; manual_code = created.secret })

  unfoldable pub verify : String → String → String → Action p (List String)
  unfolding confirmed_user Mfa.verify_for_user
  verify email password code = do
    u ← confirmed_user (p.to_lower_case email) password
    Mfa.verify_for_user u code

  unfoldable pub disable : String → String → String → Action p (Unit {0})
  unfolding confirmed_user Mfa.disable_for_user revoke_everything
  disable email password code = do
    u ← confirmed_user (p.to_lower_case email) password
    Mfa.disable_for_user u code
    revoke_everything u
