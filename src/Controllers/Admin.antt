-- ===== src/Controllers/Admin.antt =====
-- controller/admin.controller.ts: the super admin.
use authora.Prelude.{ℕ, String, not, ◌||◌, List, ◌==◌}
use authora.Config.Names.{AuthoraSetting, authora_keys}
use authora.Config.Values.{SettingValue}
use authora.Exec.{pure, gets, throw_if, ◌>>=◌, ◌>>◌, invalid_credentials}
use authora.Settings
use authora.Site.{Site}
use authora.Http.{Handler, task}
use authora.Http.Guards.{super_admin_guard}

pub record SuperAdminToken : Type 0 where
  pub access_token : String
  pub expires_in : SettingValue

module _ {b : Site} where
  unfoldable pub sign_in : String → String → Handler b SuperAdminToken
  sign_in username password = do
    throw_if (not (username == b.super_admin_username) || not (password == b.super_admin_password))
        invalid_credentials
    expires_in ← task (Settings.get_authora AuthoraSetting.super_admin_jwt_expiration_sec)
    now ← gets (λ x. x.site.world.now)
    pure (record {
      access_token = b.sign_super_admin b.super_admin_secret expires_in now;
      expires_in = expires_in;
    })

  unfoldable pub get_settings : Handler b (List (AuthoraSetting × SettingValue))
  unfolding super_admin_guard
  get_settings = do super_admin_guard; task (Settings.get_many_authora authora_keys)

  unfoldable pub update_setting : AuthoraSetting → ℕ → Handler b (Unit {0})
  unfolding super_admin_guard
  update_setting key value = do super_admin_guard; task (Settings.set_authora key value)
