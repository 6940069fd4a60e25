-- ===== src/Bootstrap.antt =====
-- service/bootstrap/*.ts and SettingsService.onApplicationBootstrap: what a server makes when it
-- starts. Each bootstrap service keeps the promise of its first call. The hooks that NestJS starts
-- together are taken one after the other, in whichever order; what they log is left out. The first
-- argument of a hook is ENABLE_MULTI_TENANT.
pub mod Found
pub mod Made
pub mod Hooks
pub mod Restart
pub mod Start
use Prim.Native.String.{◌++◌}
use authora.Prelude.{Bool, String, true, Option, none, some, if◌then◌else◌}
use authora.Model.{first_admin}
use authora.Exec.{Exec, Result, pure, or_throw, ◌>>=◌, ◌>>◌, default_tenant_not_found}
use authora.World.{draw}
use authora.Users
use authora.Passwords
use authora.Site.{Site, SiteState, Task, lift}
use authora.Site.AuthoraConfigs
use authora.Site.TenantConfigs
use authora.Site.Tenants
use authora.Settings.{refresh_authora_cache}

-- DEFAULT_TENANT_SLUG
abbrev pub default_tenant_slug : String
default_tenant_slug = "default"

-- `_bootstrapPromise` of each service
pub record Promises : Type 0 where
  pub admin_user : Option (Result (Unit {0}))
  pub api_key : Option (Result (Unit {0}))
  pub authora_config : Option (Result (Unit {0}))
  pub tenant : Option (Result (Unit {0}))
  pub tenant_config : Option (Result (Unit {0}))

pub record Server (b : Site) : Type 0 where
  pub site : SiteState b
  pub promises : Promises

abbrev pub Boot : Site → Type 0
Boot b = Exec (Server b) (Unit {0})

module _ {b : Site} where
  abbrev pub with_site : {A : Type 0} → Server b → Result A × SiteState b → Result A × Server b
  with_site s (r, t) = (r, record s { site = t })

  -- a call of a service
  abbrev pub call : {A : Type 0} → Task b A → Exec (Server b) A
  call m s = with_site s (m s.site)

  abbrev pub settle :
      (Result (Unit {0}) → Promises → Promises)
      → Result (Unit {0}) × Server b
      → Result (Unit {0}) × Server b
  settle keep (r, s) = (r, record s { promises = keep r s.promises })

  -- `if (this._bootstrapPromise === null) this._bootstrapPromise = this._bootstrap();`
  abbrev pub once :
      Option (Result (Unit {0})) → (Result (Unit {0}) → Promises → Promises) → Boot b → Boot b
  once (some r) keep body s = (r, s)
  once none keep body s = settle keep (body s)

  abbrev pub create_default_tenant : Task b (Unit {0})
  create_default_tenant = do
    found ← Tenants.find_by_slug default_tenant_slug
    elim found [
      | some tenant ↦ pure tt
      | none ↦ do tenant ← Tenants.create default_tenant_slug "Default"; pure tt
    ]

  unfoldable pub bootstrap_tenant : Bool → Boot b
  bootstrap_tenant multi_tenant s =
      once s.promises.tenant (λ r ps. record ps { tenant = some r })
        (if multi_tenant then pure tt else call create_default_tenant) s

  abbrev pub create_default_authora_config : Task b (Unit {0})
  create_default_authora_config = do
    active ← AuthoraConfigs.find_active
    elim active [
      | some e ↦ pure tt
      | none ↦ do
        e ← AuthoraConfigs.create (λ c. record c { name = "Default"; is_active = true })
        pure tt
    ]

  unfoldable pub bootstrap_authora_config : Boot b
  bootstrap_authora_config s =
      once s.promises.authora_config (λ r ps. record ps { authora_config = some r })
        (call create_default_authora_config) s

  abbrev pub create_default_tenant_config : Task b (Unit {0})
  create_default_tenant_config = do
    found ← Tenants.find_by_slug default_tenant_slug
    tenant ← or_throw default_tenant_not_found found
    active ← TenantConfigs.find_active tenant
    elim active [
      | some e ↦ pure tt
      | none ↦ do
        e ← TenantConfigs.create tenant (λ c. record c { name = "Default"; is_active = true })
        pure tt
    ]

  unfoldable pub bootstrap_tenant_config : Bool → Boot b
  unfolding bootstrap_tenant
  bootstrap_tenant_config multi_tenant s =
      once s.promises.tenant_config (λ r ps. record ps { tenant_config = some r })
        (if multi_tenant
          then pure tt
          else do bootstrap_tenant multi_tenant; call create_default_tenant_config)
        s

  abbrev pub create_default_api_key : Task b (Unit {0})
  create_default_api_key = do
    found ← Tenants.find_by_slug default_tenant_slug
    tenant ← or_throw default_tenant_not_found found
    api_key ← Tenants.find_active_for_tenant tenant
    elim api_key [
      | some key ↦ pure tt
      | none ↦ do
        n ← lift draw
        m ← lift draw
        key ←
            Tenants.create_api_key tenant ("pk_live_" ++ b.platform.random_hex n)
              ("sk_live_" ++ b.platform.random_hex m)
        pure tt
    ]

  unfoldable pub bootstrap_api_key : Bool → Boot b
  unfolding bootstrap_tenant
  bootstrap_api_key multi_tenant s =
      once s.promises.api_key (λ r ps. record ps { api_key = some r })
        (if multi_tenant
          then pure tt
          else do bootstrap_tenant multi_tenant; call create_default_api_key)
        s

  abbrev pub create_admin_user : Task b (Unit {0})
  create_admin_user = do
    found ← Tenants.find_by_slug default_tenant_slug
    tenant ← or_throw default_tenant_not_found found
    existing ← lift (Users.find_by_email b.admin_email)
    elim existing [
      | some u ↦ pure tt
      | none ↦ do
        u ← lift (Users.create b.admin_email tenant.id (some first_admin))
        n ← lift draw
        password ← lift (Passwords.create u (b.random_hex_5 n))
        pure tt
    ]

  unfoldable pub bootstrap_admin_user : Bool → Boot b
  unfolding bootstrap_tenant bootstrap_authora_config
  bootstrap_admin_user multi_tenant s =
      once s.promises.admin_user (λ r ps. record ps { admin_user = some r })
        (if multi_tenant
          then pure tt
          else do bootstrap_tenant multi_tenant; bootstrap_authora_config; call create_admin_user)
        s

  -- SettingsService.onApplicationBootstrap
  unfoldable pub bootstrap_settings : Bool → Boot b
  unfolding bootstrap_authora_config bootstrap_tenant_config
  bootstrap_settings multi_tenant = do
    bootstrap_authora_config
    bootstrap_tenant_config multi_tenant
    call refresh_authora_cache
