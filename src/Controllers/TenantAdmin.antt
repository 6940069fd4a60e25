-- ===== src/Controllers/TenantAdmin.antt =====
-- controller/tenant-admin.controller.ts: the settings of the request's tenant, for administrators.
pub mod Foreign
use authora.Prelude.{String, List}
use authora.Config.Names.{TenantSetting, tenant_keys}
use authora.Config.Values.{SettingValue, TenantSettingValue}
use authora.Exec.{◌>>=◌, ◌>>◌}
use authora.Settings
use authora.Site.{Site}
use authora.Http.{Handler, task}
use authora.Http.Guards.{jwt_auth_guard, admin_guard}
use authora.Controllers.{current_tenant}

module _ {b : Site} where
  unfoldable pub get_settings : Handler b (List (TenantSetting × SettingValue))
  unfolding jwt_auth_guard admin_guard
  get_settings = do
    jwt_auth_guard
    admin_guard
    tenant ← current_tenant
    task (Settings.get_many_tenant tenant_keys tenant.id)

  unfoldable pub update_setting :
      (key : TenantSetting) → TenantSettingValue key → Handler b (Unit {0})
  unfolding jwt_auth_guard admin_guard
  update_setting key value = do
    jwt_auth_guard
    admin_guard
    tenant ← current_tenant
    task (Settings.set_tenant key value tenant.slug)
