-- ===== src/Site.antt =====
-- What the settings, the bootstrap and the request pipeline need beyond `Platform` and `World`: the
-- tables of tenants, API keys and configurations, and the environment that ConfigService reads.
pub mod AuthoraConfigs
pub mod TenantConfigs
pub mod Tenants
use authora.Prelude.{ℕ, String, Option}
use authora.Repository.{Repository}
use authora.Config.Values.{SettingValue}
use authora.Config.Entities.{AuthoraConfigEntity, TenantConfigEntity, TenantEntity, ApiKeyEntity}
use authora.Exec.{Exec, Result}
use authora.World.{Platform, World, Action}

pub record Site : Type 1 where
  pub platform : Platform
  pub authora_configs : Repository AuthoraConfigEntity
  pub tenant_configs : Repository TenantConfigEntity
  pub tenants : Repository TenantEntity
  pub api_keys : Repository ApiKeyEntity
  -- `verifyAsync(token)` at a time: the `sub` of the payload, `none` if it throws
  pub verify : String → ℕ → Option String
  -- `sign({ sub: 'super-admin', role: 'SUPER_ADMIN' }, { secret, expiresIn })` at a time, and the
  -- `role` of `verify(token, { secret })` at a time, `none` if it throws
  pub sign_super_admin : String → SettingValue → ℕ → String
  pub verify_super_admin : String → String → ℕ → Option String
  -- `trim()`
  pub trim : String → String
  -- AUTHORA_SUPER_ADMIN_USERNAME, AUTHORA_SUPER_ADMIN_PASSWORD, AUTHORA_SUPER_ADMIN_SECRET
  pub super_admin_username : String
  pub super_admin_password : String
  pub super_admin_secret : String
  -- AUTHORA_UI_BASE_URL, AUTHORA_ADMIN_EMAIL
  pub ui_base_url : Option String
  pub admin_email : String
  -- `randomBytes(5).toString('hex')`
  pub random_hex_5 : ℕ → String

pub record SiteState (b : Site) : Type 0 where
  pub world : World b.platform
  pub authora_configs : b.authora_configs.Table
  pub tenant_configs : b.tenant_configs.Table
  pub tenants : b.tenants.Table
  pub api_keys : b.api_keys.Table

abbrev pub Task : Site → Type 0 → Type 0
Task b A = Exec (SiteState b) A

abbrev pub with_world :
    {b : Site} {A : Type 0} → SiteState b → Result A × World b.platform → Result A × SiteState b
with_world s (r, w) = (r, record s { world = w })

-- a call of a service that only needs the world
abbrev pub lift : {b : Site} {A : Type 0} → Action b.platform A → Task b A
lift m s = with_world s (m s.world)
