-- ===== src/SignIn/Unavailable.antt =====
-- Both factors ask for the settings of the tenant '' before they look at the password or the code.
use authora.Prelude.{String, ◌≡◌, refl, true, false, none, some}
use authora.Model.{AuthSession, UserEntity}
use authora.Exec.{err, tenant_not_found}
use authora.World.{Platform, World}
use authora.Users
use authora.Sessions.{stored}
use authora.SignIn.{PasswordInput, primary_auth_password, refuse_if}
use authora.SignIn.Totp.{TotpInput, mfa_auth_totp_validate}
use authora.SignIn.Gate.{get_session_lem, user_row}
use authora.SignIn.Lockout.{user_by_email}

module _ {p : Platform} where
  password_cooling_unread :
      (w : World p) (u : UserEntity)
      → p.no_tenant ≡ none
      → Users.is_password_temporarily_locked u w ≡ (err tenant_not_found, w)
  unfolding Users.is_password_temporarily_locked
  password_cooling_unread w u unread = rw unread refl

  mfa_cooling_unread :
      (w : World p) (u : UserEntity)
      → p.no_tenant ≡ none
      → Users.is_mfa_temporarily_locked u w ≡ (err tenant_not_found, w)
  unfolding Users.is_mfa_temporarily_locked
  mfa_cooling_unread w u unread = rw unread refl

  -- Where the settings of the tenant '' cannot be read: in a stored session under its own id,
  -- `primaryAuthPassword` answers the email of a user that is not locked by "tenant not found",
  -- whatever the password is, and changes nothing.
  pub password_unavailable :
      (w : World p) (id : String) (dto : PasswordInput) (s : AuthSession) (u : UserEntity)
      → p.no_tenant ≡ none
      → stored w id ≡ some s
      → s.id ≡ id
      → user_by_email w dto.email ≡ some u
      → u.is_locked ≡ false
      → primary_auth_password id dto w ≡ (err tenant_not_found, w)
  unfolding primary_auth_password refuse_if
  password_unavailable w id dto s u unread there same found unlocked =
      rw (get_session_lem w id s there same, primary_auth_password)
        (rw (found, primary_auth_password)
          (rw (unlocked, primary_auth_password) (rw (password_cooling_unread w u unread) refl)))

  -- Where the settings of the tenant '' cannot be read: in a stored session under its own id
  -- whose first factor is done and whose user is stored and not locked, `mfaAuthTotpValidate`
  -- answers "tenant not found", whatever the code is, and changes nothing.
  -- The same of `mfaAuthTotpValidate`, once the first factor is done.
  totp_unavailable :
      (w : World p) (id user_id : String) (dto : TotpInput) (s : AuthSession) (u : UserEntity)
      → p.no_tenant ≡ none
      → stored w id ≡ some s
      → s.id ≡ id
      → s.user_id ≡ some user_id
      → s.primary_auth_verified ≡ true
      → user_row w user_id ≡ some u
      → u.is_locked ≡ false
      → mfa_auth_totp_validate id dto w ≡ (err tenant_not_found, w)
  unfolding mfa_auth_totp_validate refuse_if
  totp_unavailable w id user_id dto s u unread there same named first found unlocked =
      rw (get_session_lem w id s there same, mfa_auth_totp_validate)
        (rw (named, mfa_auth_totp_validate)
          (rw (first, mfa_auth_totp_validate)
            (rw (found, mfa_auth_totp_validate)
              (rw (unlocked, mfa_auth_totp_validate) (rw (mfa_cooling_unread w u unread) refl)))))
